-- ===== src/SendBuffer/Manage.antt =====
-- `SendBufferManager::Open`: it serves every request that fits into an empty chunk.
use jam_client_prototype.Prelude.{
  ℕ, ◌+◌, ◌≤◌, ◌<◌, ◌≡◌, refl, ◌∙◌, inl, inr, Bool, true, false, some, List, [], ◌∷◌, arith, ltb,
  ◌==◌, if◌then◌else◌, ==-refl, Bool-cases, Option-cases,
}
use jam_client_prototype.SendBuffer.{
  ok, crash, chunk_size, SendBufferChunk, SendBuffer, SendBufferManager, create_chunk, reset,
  free_size, pop, put, renew, current_chunk, open_on, open_buffer, create_manager,
}
use jam_client_prototype.SendBuffer.Regions.{reset-IsValid, IsValid, create_chunk-IsValid}

-- Every chunk has its size, the fill level of each is within it, and the thread's chunk is closed.
pub record IsReady (m : SendBufferManager) : Type 0 where
  pub valid : (id : ℕ) → IsValid (m.chunks id)
  pub closed : (id : ℕ) → m.local_chunk ≡ some id → (m.chunks id).is_open ≡ false

-- What `Open` answers: an open buffer of the requested size, inside its chunk, which becomes the
-- thread's chunk and is the only chunk opened.
pub record Served (size : ℕ) (b : SendBuffer) (t : SendBufferManager) : Type 0 where
  pub alloc : b.alloc_size ≡ size
  pub unwritten : b.write_size ≡ 0
  pub local_ : t.local_chunk ≡ some b.owner
  pub opened : (t.chunks b.owner).is_open ≡ true
  pub start : (t.chunks b.owner).used_size ≡ b.offset
  pub within : b.offset + size ≤ chunk_size
  pub valid : (id : ℕ) → IsValid (t.chunks id)

pub create_manager-IsReady : IsReady create_manager
unfolding create_manager
create_manager-IsReady = record { valid = λ id. create_chunk-IsValid; closed = λ id e. cc }

-- The thread's chunk, fresh or as it was.
record IsCurrent (m : SendBufferManager) (id : ℕ) : Type 0 where
  valid : (j : ℕ) → IsValid (m.chunks j)
  closed : (m.chunks id).is_open ≡ false
  is_local : m.local_chunk ≡ some id

chunk-if : (b : Bool) (c d : SendBufferChunk) → IsValid c → IsValid d → IsValid (if b then c else d)
chunk-if true c d v w = v
chunk-if false c d v w = w

-- Whichever chunk `Pop` takes, all chunks stay valid.
pop-IsValid :
    (m : SendBufferManager) (pool : List ℕ)
    → m.pool ≡ pool
    → ((j : ℕ) → IsValid (m.chunks j))
    → (j : ℕ) → IsValid ((pop m).1.chunks j)
unfolding pop
pop-IsValid m [] e v j =
    rw (pop, e) (chunk-if (j == m.created) create_chunk (m.chunks j) create_chunk-IsValid (v j))
pop-IsValid m (id ∷ rest) e v j = rw (pop, e) (v j)

renew-IsCurrent :
    (m : SendBufferManager)
    → ((j : ℕ) → IsValid (m.chunks j))
    → IsCurrent (renew m).1 (renew m).0 × (((renew m).1.chunks (renew m).0).used_size ≡ 0)
unfolding renew
renew-IsCurrent m v =
    let id = (pop m).0 in
    let chunks = (pop m).1.chunks in
    let popped = pop-IsValid m m.pool refl v in
    (
      record {
        valid = λ j.
            chunk-if (j == id) (reset (chunks id)) (chunks j)
              (reset-IsValid (chunks id) (popped id).sized) (popped j);
        closed = rw (==-refl id) refl;
        is_local = refl;
      },
      rw (==-refl id) refl,
    )

current_chunk-IsCurrent :
    (m : SendBufferManager) → IsReady m → IsCurrent (current_chunk m).1 (current_chunk m).0
unfolding current_chunk renew
current_chunk-IsCurrent m v = elim (Option-cases m.local_chunk) [
  | inl e ↦ rw (current_chunk, e) (renew-IsCurrent m v.valid).0
  | inr (id, e) ↦
      rw (current_chunk, e) (record { valid = v.valid; closed = v.closed id e; is_local = e })
]

open_on-crash :
    (size : ℕ) (at : ℕ × SendBufferManager) → chunk_size < size → open_on size at ≡ crash
unfolding open_on
open_on-crash size (id, m) h = ground arith

-- On a closed current chunk with room, the buffer is cut from it.
open_on-Served :
    (size id : ℕ) (m : SendBufferManager)
    → IsCurrent m id
    → (m.chunks id).used_size + size ≤ chunk_size
    → (b : SendBuffer) × ((t : SendBufferManager) × (open_on size (id, m) ≡ ok (some b, t))
        × Served size b t)
unfolding open_on
open_on-Served size id m v room =
    let c = m.chunks id in
    let b : SendBuffer = record {
      owner = id;
      offset = c.used_size;
      alloc_size = size;
      write_size = 0;
    } in
    let t = put id (record c { is_open = true }) m in
    (
      b,
      (
        t,
        ground (arith, v.closed, (v.valid id).sized),
        record {
          alloc = refl;
          unwritten = refl;
          local_ = v.is_local;
          opened = rw (==-refl id) refl;
          start = rw (==-refl id) refl;
          within = room;
          valid = λ j.
              chunk-if (j == id) (record c { is_open = true }) (m.chunks j)
                (record { sized = (v.valid id).sized; within = (v.valid id).within }) (v.valid j);
        },
      ),
    )

open_buffer-eq :
    (size : ℕ) (m : SendBufferManager) (big : Bool)
    → ((current_chunk m).1.chunks (current_chunk m).0).is_open ≡ false
    → ltb (free_size ((current_chunk m).1.chunks (current_chunk m).0)) size ≡ big
    → open_buffer size m
      ≡ open_on size
          (if big then renew (current_chunk m).1 else ((current_chunk m).0, (current_chunk m).1))
unfolding open_buffer
open_buffer-eq size m big closed e = rw (closed, e)

-- A request of at most 6000 bytes on a ready manager is served: neither a crash nor a null pointer
-- comes back but an open buffer of the requested size, inside its chunk, which is the thread's
-- chunk, and all chunks stay valid.
pub open_buffer-Served :
    (size : ℕ) (m : SendBufferManager)
    → IsReady m
    → size ≤ chunk_size
    → (b : SendBuffer) × ((t : SendBufferManager) × (open_buffer size m ≡ ok (some b, t))
        × Served size b t)
open_buffer-Served size m v h =
    let id = (current_chunk m).0 in
    let m' = (current_chunk m).1 in
    let cur = current_chunk-IsCurrent m v in
    elim (Bool-cases (ltb (free_size (m'.chunks id)) size)) [
      | inl e ↦
          let new = renew-IsCurrent m' cur.valid in
          let (b, (t, run, served)) =
            open_on-Served size (renew m').0 (renew m').1 new.0 (omega (arith, new.1)) in
          (b, (t, open_buffer-eq size m true cur.closed e ∙ run, served))
      | inr e ↦
          let (b, (t, run, served)) =
            open_on-Served size id m' cur
              (unfold free_size in ground (arith, (cur.valid id).sized, (cur.valid id).within)) in
          (b, (t, open_buffer-eq size m false cur.closed e ∙ run, served))
    ]

-- A larger request crashes, whatever chunk it meets.
pub open_buffer-crash :
    (size : ℕ) (m : SendBufferManager) → IsReady m → chunk_size < size → open_buffer size m ≡ crash
open_buffer-crash size m v h =
    let cur = current_chunk-IsCurrent m v in
    elim (Bool-cases (ltb (free_size ((current_chunk m).1.chunks (current_chunk m).0)) size)) [
      | inl e ↦
          open_buffer-eq size m true cur.closed e ∙ open_on-crash size (renew (current_chunk m).1) h
      | inr e ↦ open_buffer-eq size m false cur.closed e ∙ open_on-crash size (current_chunk m) h
    ]
