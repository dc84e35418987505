-- ===== src/RecvBuffer/Stream.antt =====
-- RecvBuffer as a byte stream: the unread bytes, and what each operation does to them.
use jam_client_prototype.Prelude.{
  ℕ, ◌+◌, ◌-◌, ◌≤◌, ◌<◌, ◌≡◌, true, false, List, ◌++◌, arith, length, take, drop, take-length,
  drop-drop, drop-take, window-append,
}
use jam_client_prototype.RecvBuffer.{
  clean_overlaps, Memcpy, RecvBuffer, data_size, free_size, clean, on_read, on_write, store,
}
use jam_client_prototype.RecvBuffer.Bounds.{clean_lem, IsValid, length-unread}

-- The bytes between `ReadPos()` and `WritePos()`.
abbrev pub unread : RecvBuffer → List ℕ
unread b = take (data_size b) (drop b.read_pos b.buffer)

-- On a valid buffer, where it copies no overlapping ranges, `Clean` loses no unread byte, and neither
-- adds nor reorders one.
pub unread-clean :
    ⦃mc : Memcpy⦄
    → {b : RecvBuffer} → IsValid b
    → clean_overlaps b ≡ false
    → unread (clean b) ≡ unread b
unfolding data_size free_size
unread-clean {b} v apart = rw (clean_lem v apart) ground (
  arith,
  take-length (take (b.write_pos - b.read_pos) (drop b.read_pos b.buffer))
      (drop (b.write_pos - b.read_pos) b.buffer) (b.write_pos - b.read_pos),
  length-unread v,
)

-- An accepted `OnRead` removes that many bytes from the front.
pub unread-on_read :
    (n : ℕ) {b : RecvBuffer}
    → IsValid b
    → n ≤ data_size b
    → ((on_read n b).0 ≡ true) × (unread (on_read n b).1 ≡ drop n (unread b))
unfolding on_read data_size
unread-on_read n {b} v h = ground (
  arith,
  drop-take n (b.write_pos - b.read_pos) (drop b.read_pos b.buffer),
  drop-drop b.read_pos n b.buffer,
)

-- Bytes that a receive stored and `OnWrite` accepted stand behind the unread ones.
pub unread-on_write :
    (bytes : List ℕ) {b : RecvBuffer}
    → IsValid b
    → length bytes ≤ free_size b
    → ((on_write (length bytes) (store bytes b)).0 ≡ true)
      × (unread (on_write (length bytes) (store bytes b)).1 ≡ unread b ++ bytes)
unfolding on_write store data_size free_size
unread-on_write bytes {b} v h = ground (
  arith,
  window-append b.read_pos b.write_pos b.buffer bytes (drop (b.write_pos + length bytes) b.buffer),
)

-- With at most one buffer's worth of free space, after a read that leaves an unread byte `Clean`
-- changes nothing: the free space stays what it was before the read.
pub clean_reclaims_nothing :
    ⦃mc : Memcpy⦄
    → (n : ℕ) (b : RecvBuffer) → free_size b ≤ b.buffer_size
    → n < data_size b
    → (clean (on_read n b).1 ≡ (on_read n b).1) × (free_size (clean (on_read n b).1) ≡ free_size b)
unfolding clean on_read data_size free_size
clean_reclaims_nothing n b h k = ground arith

-- Above one buffer's worth of free space, `Clean` makes all the space but the unread bytes free.
pub clean_reclaims :
    ⦃mc : Memcpy⦄
    → {b : RecvBuffer} → IsValid b
    → b.buffer_size < free_size b
    → free_size (clean b) + data_size b ≡ b.capacity
unfolding clean data_size free_size
clean_reclaims v h = ground arith
