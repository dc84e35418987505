-- ===== src/SendBuffer/Regions.antt =====
-- The buffers cut from one chunk: their regions follow one another and stay inside it.
use jam_client_prototype.Prelude.{
  ℕ, ◌+◌, ◌≤◌, ◌<◌, ◌≡◌, ◌⊎◌, inl, inr, false, Option, none, some, arith, ltb, Bool-cases, length,
  length-replicate,
}
use jam_client_prototype.SendBuffer.{
  Outcome, ok, ◌>>=◌, chunk_size, SendBufferChunk, SendBuffer, create_chunk, reset, free_size,
  open_chunk, close_buffer,
}

pub record IsValid (c : SendBufferChunk) : Type 0 where
  pub sized : length c.buffer ≡ chunk_size
  pub within : c.used_size ≤ chunk_size

pub create_chunk-IsValid : IsValid create_chunk
unfolding create_chunk
create_chunk-IsValid = record {
  sized = length-replicate {0} {A = ℕ} chunk_size 0;
  within = omega arith;
}

pub reset-IsValid : (c : SendBufferChunk) → length c.buffer ≡ chunk_size → IsValid (reset c)
unfolding reset
reset-IsValid c h = record { sized = h; within = omega arith }

-- Opening a buffer and closing it with the bytes written, as every sender does; `none` for a
-- request that the chunk cannot serve.
unfoldable pub cut : ℕ → ℕ → ℕ → SendBufferChunk → Outcome (Option SendBuffer × SendBufferChunk)
unfolding open_chunk close_buffer
cut id alloc write c = do
  (b, c') ← open_chunk id alloc c
  elim b [
    | none ↦ ok (none, c')
    | some buffer ↦ do (closed, c'') ← close_buffer write buffer c'; ok (some closed, c'')
  ]

-- On a closed valid chunk, a request within the chunk's size and a write within the request never
-- crash. The buffer starts where the last one ended and ends inside the chunk, which is closed and
-- valid again; it is refused exactly when it does not fit, and then nothing changes.
pub cut_lem :
    (id alloc write : ℕ) (c : SendBufferChunk)
    → IsValid c
    → c.is_open ≡ false
    → alloc ≤ chunk_size
    → write ≤ alloc
    → ((c.used_size + alloc ≤ chunk_size)
        × (cut id alloc write c
            ≡ ok (
              some (record {
                owner = id;
                offset = c.used_size;
                alloc_size = alloc;
                write_size = write;
              }),
              record c { used_size = c.used_size + write },
            )))
      ⊎ ((chunk_size < c.used_size + alloc) × (cut id alloc write c ≡ ok (none, c)))
unfolding cut
cut_lem id alloc write c v closed h k = elim (Bool-cases (ltb (free_size c) alloc)) [
  | inl e ↦ inr (unfold free_size in ground arith, ground arith)
  | inr e ↦ inl (unfold free_size in ground arith, ground arith)
]
