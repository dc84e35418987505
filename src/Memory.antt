-- ===== src/Memory.antt =====
-- `Memory` of ClientNetworkCore/Memory.h and Memory.cpp with `StompAllocator` of Allocator.cpp and
-- `MemoryHeader` of MemoryPool.h: the table from sizes to pools, and the addresses of the blocks that
-- are served. A pool is known by its `_allocSize`. An entry of `_poolTable` that no loop writes is
-- `none`. `_STOMP` is defined in CoreTypes.h, so `Allocate` and `Release` are those of the pages.
-- `VirtualAlloc` is an argument: the address that it returns.
pub mod Table
pub mod Stomp
mod Tests
use jam_client_prototype.Prelude.{
  ℕ, zero, suc, ◌+◌, ◌-◌, ◌*◌, ◌/◌, ◌%◌, true, false, Option, none, some, List, [], ◌∷◌, ◌++◌, leb,
  set, replicate,
}

abbrev pub max_alloc_size : ℕ
max_alloc_size = 4096

pub record Memory : Type 0 where
  pub pools : List ℕ
  pub pool_table : List (Option ℕ)
  pub table_index : ℕ

-- `while (tableIndex <= size)`; it has `size + 1 - tableIndex` rounds.
unfoldable pub fill_table : ℕ → ℕ → Memory → Memory
fill_table zero size m = m
fill_table (suc n) size m = fill_table n size (record m {
  pool_table = set m.pool_table m.table_index (some size);
  table_index = m.table_index + 1;
})

-- The body of the three `for` loops.
unfoldable pub add_pool : ℕ → Memory → Memory
unfolding fill_table
add_pool size m =
    fill_table (size + 1 - m.table_index) size (record m { pools = m.pools ++ (size ∷ []) })

-- `for (; size <= limit; size += step)` on fuel; it leaves `size` as it is then.
unfoldable pub add_pools : ℕ → ℕ → ℕ → ℕ → Memory → ℕ × Memory
unfolding add_pool
add_pools zero limit step size m = (size, m)
add_pools (suc fuel) limit step size m = elim (leb size limit) [
  | false ↦ (size, m)
  | true ↦ add_pools fuel limit step (size + step) (add_pool size m)
]

-- What the constructor starts from.
abbrev pub no_pools : Memory
no_pools = record { pools = []; pool_table = replicate (max_alloc_size + 1) none; table_index = 0 }

unfoldable pub create_memory : ℕ × Memory
unfolding add_pools
create_memory =
    let (first, small) = add_pools 64 1024 32 32 no_pools in
    let (second, middle) = add_pools 64 2048 128 first small in add_pools 64 4096 256 second middle

abbrev pub page_size : ℕ
page_size = 4096

-- `sizeof(MemoryHeader)`: an `SLIST_ENTRY` of 16 bytes and an `int32`, aligned to 16.
abbrev pub header_size : ℕ
header_size = 32

abbrev pub page_count : ℕ → ℕ
page_count size = (size + page_size - 1) / page_size

-- `StompAllocator::Alloc`, where `VirtualAlloc` returns `base`, and the address that `Release` frees.
unfoldable pub stomp_alloc : ℕ → ℕ → ℕ
stomp_alloc base size = base + (page_count size * page_size - size)

unfoldable pub stomp_release : ℕ → ℕ
stomp_release address = address - address % page_size

abbrev pub attach_header : ℕ → ℕ
attach_header header = header + header_size

abbrev pub detach_header : ℕ → ℕ
detach_header address = address - header_size

-- `Memory::Allocate` and the address that `Memory::Release` frees.
unfoldable pub allocate : ℕ → ℕ → ℕ
unfolding stomp_alloc
allocate base size = attach_header (stomp_alloc base (size + header_size))

unfoldable pub release : ℕ → ℕ
unfolding stomp_release
release address = stomp_release (detach_header address)
