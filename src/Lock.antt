-- ===== src/Lock.antt =====
-- `Lock` of ClientNetworkCore/Lock.h and Lock.cpp: the reader-writer spin lock. The upper 16 bits of
-- the flag hold the owner's thread id, the lower 16 the read count. One pass of a spin loop is an
-- attempt, `none` when its compare-and-exchange fails; the loop repeats it and crashes after ten
-- seconds. The profiler calls of a debug build are left out.
pub mod System
pub mod Invariant
pub mod Exclusion
mod Tests
use jam_client_prototype.Prelude.{
  ℕ, ◌+◌, ◌-◌, ◌*◌, ◌/◌, ◌%◌, ◌^◌, not, Option, none, some, ◌==◌, if◌then◌else◌,
}

pub record Lock : Type 0 where
  pub lock_flag : ℕ
  pub write_count : ℕ

abbrev pub half_word : ℕ
half_word = 65536

unfoldable pub create_lock : Lock
create_lock = record { lock_flag = 0; write_count = 0 }

-- `(flag & WRITE_THREAD_MASK) >> 16` and `flag & READ_COUNT_MASK` of a `uint32`.
abbrev pub owner : Lock → ℕ
owner l = l.lock_flag / half_word

abbrev pub read_count : Lock → ℕ
read_count l = l.lock_flag % half_word

-- `(LThreadId << 16) & WRITE_THREAD_MASK`: only the low half of the id stays.
abbrev pub desired : ℕ → ℕ
desired thread = (thread % half_word) * half_word

-- `_writeCount` is a `uint16`.
abbrev pub count_up : Lock → Lock
count_up l = record l { write_count = (l.write_count + 1) % half_word }

unfoldable pub write_lock : ℕ → Lock → Option Lock
write_lock thread l =
    if thread == owner l
    then some (count_up l)
    else if l.lock_flag == 0
    then some (count_up (record l { lock_flag = desired thread }))
    else none

-- `none` is the crash "INVALID_UNLOCK_ORDER".
unfoldable pub write_unlock : Lock → Option Lock
write_unlock l =
    let down = record l { write_count = (l.write_count + half_word - 1) % half_word } in
    if not (read_count l == 0)
    then none
    else some (if down.write_count == 0 then record down { lock_flag = 0 } else down)

-- `_lockFlag.fetch_add(1)`, or an exchange that expects an empty upper half.
unfoldable pub read_lock : ℕ → Lock → Option Lock
read_lock thread l =
    let more = record l { lock_flag = (l.lock_flag + 1) % 2 ^ 32 } in
    if thread == owner l then some more else if l.lock_flag == read_count l then some more else none

-- `none` is the crash "MULTIPLE_UNLOCK".
unfoldable pub read_unlock : Lock → Option Lock
read_unlock l =
    if read_count l == 0
    then none
    else some (record l { lock_flag = (l.lock_flag + 2 ^ 32 - 1) % 2 ^ 32 })
