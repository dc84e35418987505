-- ===== src/RecvBuffer/Bounds.antt =====
-- RecvBuffer: every operation keeps the positions in order and inside the array.
use jam_client_prototype.Prelude.{
  ℕ, ◌-◌, ◌*◌, ◌≤◌, ◌≡◌, false, List, arith, ltb, ◌==◌, if◌then◌else◌, length, take, drop,
  length-take, length-drop, length-replicate, overwrite, length-overwrite,
}
use jam_client_prototype.RecvBuffer.{
  Memcpy, clean_overlaps, RecvBuffer, create, data_size, free_size, clean, on_read, on_write, store,
}

pub record IsValid (b : RecvBuffer) : Type 0 where
  pub sized : length b.buffer ≡ b.capacity
  pub ordered : b.read_pos ≤ b.write_pos
  pub within : b.write_pos ≤ b.capacity

pub create-IsValid : (size : ℕ) → IsValid (create size)
unfolding create
create-IsValid size = ground (arith, length-replicate {0} {A = ℕ} (size * 10) 0)

pub length-unread :
    {b : RecvBuffer}
    → IsValid b
    → length (take (data_size b) (drop b.read_pos b.buffer)) ≡ data_size b
unfolding data_size
length-unread {b} v = omega (
  arith,
  length-take (b.write_pos - b.read_pos) (drop b.read_pos b.buffer),
  length-drop b.read_pos b.buffer,
)

-- `Clean` with a copy that moves its bytes whatever the ranges are.
abbrev pub moved : RecvBuffer → RecvBuffer
moved b =
    if data_size b == 0
    then record b { read_pos = 0; write_pos = 0 }
    else if ltb b.buffer_size (free_size b)
    then record b {
      buffer = overwrite b.buffer 0 (take (data_size b) (drop b.read_pos b.buffer));
      read_pos = 0;
      write_pos = data_size b;
    }
    else b

-- That is what `Clean` does to a valid buffer where it copies no overlapping ranges.
pub clean_lem :
    ⦃mc : Memcpy⦄ → {b : RecvBuffer} → IsValid b → clean_overlaps b ≡ false → clean b ≡ moved b
unfolding clean clean_overlaps
clean_lem ⦃mc⦄ {b} v apart = ground (arith, mc.moves b.buffer 0 b.read_pos (data_size b))

-- `Clean` keeps the positions in order and inside the array, and the array of its size, where it
-- copies no overlapping ranges.
pub clean-IsValid :
    ⦃mc : Memcpy⦄ → {b : RecvBuffer} → IsValid b → clean_overlaps b ≡ false → IsValid (clean b)
unfolding data_size free_size
clean-IsValid {b} v apart = rw (clean_lem v apart) ground (
  arith,
  length-unread v,
  length-overwrite b.buffer (take (data_size b) (drop b.read_pos b.buffer)) 0,
)

pub on_read-IsValid : (n : ℕ) {b : RecvBuffer} → IsValid b → IsValid (on_read n b).1
unfolding on_read
on_read-IsValid n v = ground arith

pub on_write-IsValid : (n : ℕ) {b : RecvBuffer} → IsValid b → IsValid (on_write n b).1
unfolding on_write
on_write-IsValid n v = ground arith

pub store-IsValid :
    (bytes : List ℕ) {b : RecvBuffer}
    → length bytes ≤ free_size b
    → IsValid b
    → IsValid (store bytes b)
unfolding store free_size
store-IsValid bytes {b} h v = ground (arith, length-overwrite b.buffer bytes b.write_pos)
