-- ===== src/BufferWriter.antt =====
-- ClientNetworkCore/BufferWriter.h and BufferWriter.cpp: writing into an array with a position. A value
-- of a type `T` is the list of its `sizeof(T)` bytes; sizes are `uint32`.
use jam_client_prototype.Prelude.{
  ℕ, ◌+◌, ◌-◌, ◌%◌, ◌^◌, Bool, true, false, Option, none, some, List, ltb, if◌then◌else◌, length,
  overwrite,
}

abbrev pub word : ℕ
word = 2 ^ 32

pub record BufferWriter : Type 0 where
  pub buffer : List ℕ
  pub size : ℕ
  pub pos : ℕ

unfoldable pub free_size : BufferWriter → ℕ
free_size w = (w.size + word - w.pos) % word

unfoldable pub write : List ℕ → BufferWriter → Bool × BufferWriter
unfolding free_size
write src w = if ltb (free_size w) (length src) then (false, w) else (
  true,
  record w { buffer = overwrite w.buffer w.pos src; pos = (w.pos + length src) % word },
)

-- `Reserve`: the position of the reserved bytes, `none` for null.
unfoldable pub reserve : ℕ → BufferWriter → Option ℕ × BufferWriter
unfolding free_size
reserve n w =
    if ltb (free_size w) n then (none, w) else (some w.pos, record w { pos = (w.pos + n) % word })

-- `operator<<`: no test. Bytes past the array's end are memory of others, which is not modelled.
unfoldable pub put : List ℕ → BufferWriter → BufferWriter
put src w = record w { buffer = overwrite w.buffer w.pos src; pos = (w.pos + length src) % word }
