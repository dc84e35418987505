-- ===== src/Lock/Tests.antt =====
-- Lock: states that two threads reach.
use jam_client_prototype.Prelude.{◌≡◌, refl, arith}
use jam_client_prototype.Lock.{half_word, create_lock, write_lock, read_lock}
use jam_client_prototype.Lock.System.{
  System, update, Reach, here, next, locks_write, locks_read, start,
}
use jam_client_prototype.Lock.Exclusion.{exclusion}

abbrev written : System
written = record {
  lock = record { lock_flag = half_word; write_count = 1 };
  holds = update start.holds 1 (record { writes = 1; reads = 0 });
}

abbrev read : System
read = record {
  lock = record { lock_flag = 1; write_count = 0 };
  holds = update start.holds 2 (record { writes = 0; reads = 1 });
}

written-Reach : Reach 3 written
unfolding write_lock create_lock
written-Reach = next here (
    locks_write 1 (record { lock_flag = half_word; write_count = 1 }) (omega arith) (omega arith)
      (omega arith) refl)

read-Reach : Reach 3 read
unfolding read_lock create_lock
read-Reach = next here (
    locks_read 2 (record { lock_flag = 1; write_count = 0 }) (omega arith) (omega arith)
      (omega arith) refl)

exclusion_example : ((written.holds 2).writes ≡ 0) × ((written.holds 2).reads ≡ 0)
exclusion_example =
    exclusion {n = 3} {s = written} 1 2 (omega arith) written-Reach (omega arith) (omega arith)
      (λ e. absurd (omega arith)) (omega arith)
