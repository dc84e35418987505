-- ===== src/RecvBuffer.antt =====
-- ClientNetworkCore/RecvBuffer.h and RecvBuffer.cpp: the receive buffer of a socket. Positions are
-- `int32` in the source; they stay in `[0, capacity]` (RecvBuffer/Bounds), so numbers serve.
pub mod Bounds
pub mod Stream
pub mod Moving
mod Tests
use jam_client_prototype.Prelude.{
  ℕ, ◌+◌, ◌-◌, ◌*◌, ◌≤◌, ◌≡◌, Bool, true, false, ◌&&◌, ◌||◌, not, List, ltb, ◌==◌, if◌then◌else◌,
  length, take, drop, replicate, overwrite,
}

pub record RecvBuffer : Type 0 where
  pub capacity : ℕ
  pub buffer_size : ℕ
  pub read_pos : ℕ
  pub write_pos : ℕ
  pub buffer : List ℕ

abbrev pub buffer_count : ℕ
buffer_count = 10

-- The constructor: `_buffer.resize(_capacity)` fills with zero bytes.
unfoldable pub create : ℕ → RecvBuffer
create size = record {
  capacity = size * buffer_count;
  buffer_size = size;
  read_pos = 0;
  write_pos = 0;
  buffer = replicate (size * buffer_count) 0;
}

unfoldable pub data_size : RecvBuffer → ℕ
data_size b = b.write_pos - b.read_pos

unfoldable pub free_size : RecvBuffer → ℕ
free_size b = b.capacity - b.write_pos

-- Whether two ranges of `n` bytes share some byte without being the same range.
unfoldable pub overlap : ℕ → ℕ → ℕ → Bool
overlap dest source n =
    ltb dest source && ltb source (dest + n) || ltb source dest && ltb dest (source + n)

-- The library's `memcpy` inside one array: where to, where from, how many bytes. It is specified for
-- ranges that share no byte. A range copied onto itself keeps its bytes, which compilers rely on
-- too. On ranges that overlap otherwise it is undefined, and nothing is known of `copy`.
pub record Memcpy : Type 0 where
  pub copy : List ℕ → ℕ → ℕ → ℕ → List ℕ
  pub moves :
      (memory : List ℕ) (dest source n : ℕ)
      → dest + n ≤ length memory
      → source + n ≤ length memory
      → overlap dest source n ≡ false
      → copy memory dest source n ≡ overwrite memory dest (take n (drop source memory))

-- Whether `Clean` calls `memcpy` on ranges that overlap.
unfoldable pub clean_overlaps : RecvBuffer → Bool
unfolding data_size free_size overlap
clean_overlaps b =
    not (data_size b == 0) && ltb b.buffer_size (free_size b) && overlap 0 b.read_pos (data_size b)

unfoldable pub clean : ⦃mc : Memcpy⦄ → RecvBuffer → RecvBuffer
unfolding data_size free_size
clean ⦃mc⦄ b =
    if data_size b == 0
    then record b { read_pos = 0; write_pos = 0 }
    else if ltb b.buffer_size (free_size b)
    then record b {
      buffer = mc.copy b.buffer 0 b.read_pos (data_size b);
      read_pos = 0;
      write_pos = data_size b;
    }
    else b

unfoldable pub on_read : ℕ → RecvBuffer → Bool × RecvBuffer
unfolding data_size
on_read n b =
    if ltb (data_size b) n then (false, b) else (true, record b { read_pos = b.read_pos + n })

unfoldable pub on_write : ℕ → RecvBuffer → Bool × RecvBuffer
unfolding free_size
on_write n b =
    if ltb (free_size b) n then (false, b) else (true, record b { write_pos = b.write_pos + n })

-- What an asynchronous receive does before its handler runs: it stores bytes at `WritePos()`.
unfoldable pub store : List ℕ → RecvBuffer → RecvBuffer
store bytes b = record b { buffer = overwrite b.buffer b.write_pos bytes }
