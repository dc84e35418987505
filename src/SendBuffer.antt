-- ===== src/SendBuffer.antt =====
-- ClientNetworkCore/SendBuffer.h and SendBuffer.cpp: chunks of 6000 bytes, the buffers cut from them,
-- and the manager with its pool of chunks and the chunk of the running thread. A chunk is referred
-- to by a number; the reference count, which returns a chunk to the pool, is `push_global`.
pub mod Regions
pub mod Manage
mod Tests
use jam_client_prototype.Prelude.{
  ℕ, ◌+◌, ◌-◌, Bool, true, false, not, Option, none, some, List, [], ◌∷◌, ltb, leb, ◌==◌,
  if◌then◌else◌, length, replicate,
}

-- `crash` is a failed `ASSERT_CRASH`.
pub data Outcome {ℓ} (A : Type ℓ) : Type ℓ where
  ok : A → Outcome A
  crash : Outcome A

infixl 5 ◌>>=◌ ◌>>◌
abbrev pub ◌>>=◌ {ℓ κ} : {A : Type ℓ} {B : Type κ} → Outcome A → (A → Outcome B) → Outcome B
ok a >>= f = f a
crash >>= f = crash

abbrev pub ◌>>◌ {ℓ} : {B : Type ℓ} → Outcome (Unit {0}) → Outcome B → Outcome B
m >> k = m >>= λ _. k

abbrev pub assert_crash : Bool → Outcome (Unit {0})
assert_crash true = ok tt
assert_crash false = crash

abbrev pub chunk_size : ℕ
chunk_size = 6000

pub record SendBufferChunk : Type 0 where
  pub buffer : List ℕ
  pub is_open : Bool
  pub used_size : ℕ

pub record SendBuffer : Type 0 where
  pub owner : ℕ
  pub offset : ℕ
  pub alloc_size : ℕ
  pub write_size : ℕ

unfoldable pub create_chunk : SendBufferChunk
create_chunk = record { buffer = replicate chunk_size 0; is_open = false; used_size = 0 }

unfoldable pub reset : SendBufferChunk → SendBufferChunk
reset c = record c { is_open = false; used_size = 0 }

unfoldable pub free_size : SendBufferChunk → ℕ
free_size c = length c.buffer - c.used_size

-- `none` is the null pointer; `id` is the chunk's own reference.
unfoldable pub open_chunk : ℕ → ℕ → SendBufferChunk → Outcome (Option SendBuffer × SendBufferChunk)
unfolding free_size
open_chunk id alloc c = do
  assert_crash (leb alloc chunk_size)
  assert_crash (not c.is_open)
  ok (
      if ltb (free_size c) alloc then (none, c) else (
        some (record { owner = id; offset = c.used_size; alloc_size = alloc; write_size = 0 }),
        record c { is_open = true },
      ))

unfoldable pub close_chunk : ℕ → SendBufferChunk → Outcome SendBufferChunk
close_chunk write c = do
  assert_crash c.is_open
  ok (record c { is_open = false; used_size = c.used_size + write })

-- `SendBuffer::Close`, on the buffer and its owner.
unfoldable pub close_buffer :
    ℕ → SendBuffer → SendBufferChunk → Outcome (SendBuffer × SendBufferChunk)
unfolding close_chunk
close_buffer write b c = do
  assert_crash (leb write b.alloc_size)
  c' ← close_chunk write c
  ok (record b { write_size = write }, c')

pub record SendBufferManager : Type 0 where
  pub chunks : ℕ → SendBufferChunk
  pub pool : List ℕ
  pub local_chunk : Option ℕ
  pub created : ℕ

unfoldable pub create_manager : SendBufferManager
unfolding create_chunk
create_manager = record { chunks = λ _. create_chunk; pool = []; local_chunk = none; created = 0 }

abbrev pub put : ℕ → SendBufferChunk → SendBufferManager → SendBufferManager
put id c m = record m { chunks = λ j. if j == id then c else m.chunks j }

-- The last chunk of the pool (the head of the list), or a new one.
unfoldable pub pop : SendBufferManager → ℕ × SendBufferManager
unfolding create_chunk
pop m = elim m.pool [
  | [] ↦ (m.created, put m.created create_chunk (record m { created = m.created + 1 }))
  | id ∷ rest ↦ (id, record m { pool = rest })
]

unfoldable pub push_global : ℕ → SendBufferManager → SendBufferManager
push_global id m = record m { pool = id ∷ m.pool }

-- `LSendBufferChunk = Pop(); LSendBufferChunk->Reset();`
unfoldable pub renew : SendBufferManager → ℕ × SendBufferManager
unfolding pop reset
renew m =
    let (id, m') = pop m in
    (id, put id (reset (m'.chunks id)) (record m' { local_chunk = some id }))

unfoldable pub current_chunk : SendBufferManager → ℕ × SendBufferManager
unfolding renew
current_chunk m = elim m.local_chunk [ none ↦ renew m | some id ↦ (id, m) ]

unfoldable pub open_on : ℕ → ℕ × SendBufferManager → Outcome (Option SendBuffer × SendBufferManager)
unfolding open_chunk
open_on size (id, m) = do (b, c) ← open_chunk id size (m.chunks id); ok (b, put id c m)

unfoldable pub open_buffer : ℕ → SendBufferManager → Outcome (Option SendBuffer × SendBufferManager)
unfolding current_chunk renew free_size open_on
open_buffer size m =
    let (id, m') = current_chunk m in
    do
      assert_crash (not (m'.chunks id).is_open)
      open_on size (if ltb (free_size (m'.chunks id)) size then renew m' else (id, m'))
