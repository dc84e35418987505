-- ===== src/Memory/Tests.antt =====
-- Concrete blocks.
use jam_client_prototype.Memory.{
  create_memory, page_size, header_size, page_count, allocate, release,
}
use jam_client_prototype.Memory.Table.{step_of, create_memory-table}
use jam_client_prototype.Memory.Stomp.{release-allocate}
use jam_client_prototype.Prelude.{ℕ, ◌+◌, ◌*◌, ◌≤◌, ◌<◌, ◌≡◌, refl, ◌⊎◌, none, some, arith, get_or}

create_memory-table_example :
    ((4000 ≤ 3872)
      × ((p : ℕ) × ((get_or create_memory.1.pool_table 4000 none ≡ some p)
            × ((4000 ≤ p) × (p < 4000 + step_of p)))))
    ⊎ ((3872 < 4000) × (get_or create_memory.1.pool_table 4000 none ≡ none))
create_memory-table_example = create_memory-table 4000 (omega arith)

release-allocate_example :
    (allocate 65536 100 + 100 ≡ 65536 + page_count (100 + header_size) * page_size)
    × ((65536 + header_size ≤ allocate 65536 100) × (release (allocate 65536 100) ≡ 65536))
release-allocate_example = release-allocate 65536 100 refl
