-- ===== src/BufferReader.antt =====
-- ClientNetworkCore/BufferReader.h and BufferReader.cpp: reading from an array with a position. A value
-- of a type `T` is the list of its `sizeof(T)` bytes; sizes are `uint32`.
pub mod RoundTrip
mod Tests
use jam_client_prototype.Prelude.{
  ℕ, ◌+◌, ◌-◌, ◌%◌, Option, none, some, List, ltb, if◌then◌else◌, take, drop,
}
use jam_client_prototype.BufferWriter.{word}

pub record BufferReader : Type 0 where
  pub buffer : List ℕ
  pub size : ℕ
  pub pos : ℕ

unfoldable pub free_size : BufferReader → ℕ
free_size r = (r.size + word - r.pos) % word

unfoldable pub peek : ℕ → BufferReader → Option (List ℕ)
unfolding free_size
peek n r = if ltb (free_size r) n then none else some (take n (drop r.pos r.buffer))

unfoldable pub read : ℕ → BufferReader → Option (List ℕ) × BufferReader
unfolding peek
read n r = elim (peek n r) [
  | none ↦ (none, r)
  | some bytes ↦ (some bytes, record r { pos = (r.pos + n) % word })
]

-- `operator>>`: no test.
unfoldable pub get : ℕ → BufferReader → List ℕ × BufferReader
get n r = (take n (drop r.pos r.buffer), record r { pos = (r.pos + n) % word })
