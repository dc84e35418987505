-- ===== src/Memory/Stomp.antt =====
-- `Memory::Allocate` and `Release` on whole pages.
use jam_client_prototype.Memory.{
  page_size, header_size, page_count, stomp_alloc, stomp_release, allocate, release,
}
use jam_client_prototype.Prelude.{ℕ, ◌+◌, ◌*◌, ◌%◌, ◌≤◌, ◌≡◌, arith}

-- Where `VirtualAlloc` returns the start of a page: the block ends exactly where its pages end, its
-- header lies inside the pages, and `Release` frees the address that `VirtualAlloc` returned.
pub release-allocate :
    (base size : ℕ)
    → base % page_size ≡ 0
    → (allocate base size + size ≡ base + page_count (size + header_size) * page_size)
      × ((base + header_size ≤ allocate base size) × (release (allocate base size) ≡ base))
unfolding allocate release stomp_alloc stomp_release
release-allocate base size h = (omega arith, (omega arith, omega arith))
