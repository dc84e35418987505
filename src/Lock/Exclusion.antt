-- ===== src/Lock/Exclusion.antt =====
-- `Lock` under any interleaving of its users: writers exclude everybody else, and unlocking what is
-- held does not crash.
use jam_client_prototype.Prelude.{
  ℕ, zero, suc, ◌*◌, ◌%◌, ◌≤◌, ◌<◌, ◌≡◌, refl, ◌≢◌, inl, inr, none, some, arith, ◌==◌,
  if◌then◌else◌, ==_iff, Bool-cases,
}
use jam_client_prototype.Lock.{
  Lock, half_word, create_lock, owner, read_count, write_lock, write_unlock, read_unlock,
}
use jam_client_prototype.Lock.System.{Hold, System, total, reads-le-total, Reach, here, next}
use jam_client_prototype.Lock.Invariant.{Inv, start-Inv, Step-Inv}

pub Reach-Inv : {n : ℕ} {s : System} → 0 < n → n ≤ half_word → Reach n s → Inv n s
Reach-Inv {n} lo hi here = start-Inv n lo hi
Reach-Inv lo hi (next r st) = Step-Inv hi st (Reach-Inv lo hi r)

-- In no reachable state of at most 65536 thread ids does a thread hold the lock for writing while
-- another holds it at all.
pub exclusion :
    {n : ℕ} {s : System} (i j : ℕ)
    → n ≤ half_word
    → Reach n s
    → i < n
    → j < n
    → i ≢ j
    → 0 < (s.holds i).writes
    → ((s.holds j).writes ≡ 0) × ((s.holds j).reads ≡ 0)
exclusion {n} {s} i j hi r li lj ne held =
    let v = Reach-Inv (omega arith) hi r in
    let self : i ≡ owner s.lock = ground (arith, v.others i li) in
    let real : owner s.lock ≢ 0 =
      λ z. let zero_ : i ≡ 0 = omega arith in ground (arith, v.nobody) in
    (v.others j lj (omega arith), v.readers j lj real (omega arith))

total-eq-zero : (n : ℕ) (f : ℕ → Hold) → ((j : ℕ) → j < n → (f j).reads ≡ 0) → total n f ≡ 0
unfolding total
total-eq-zero zero f h = refl
total-eq-zero (suc n) f h =
    omega (arith, total-eq-zero n f (λ j l. h j (omega arith)), h n (omega arith))

-- In a reachable state of at most 65536 thread ids, a thread that holds the lock for writing, and
-- has released its reads, can release it: the crash "INVALID_UNLOCK_ORDER" does not happen.
pub write_unlock_safe :
    {n : ℕ} {s : System} (i : ℕ)
    → n ≤ half_word
    → Reach n s
    → i < n
    → 0 < (s.holds i).writes
    → (s.holds i).reads ≡ 0
    → write_unlock s.lock ≢ none
write_unlock_safe {n} {s} i hi r li held clear =
    let v = Reach-Inv (omega arith) hi r in
    let self : i ≡ owner s.lock = ground (arith, v.others i li) in
    let real : owner s.lock ≢ 0 =
      λ z. let zero_ : i ≡ 0 = omega arith in ground (arith, v.nobody) in
    let unread : total n s.holds ≡ 0 = total-eq-zero n s.holds (λ j l. elim (Bool-cases (i == j)) [
      | inl e ↦ let same : i ≡ j = (==_iff i j).0 e in rw (← same) clear
      | inr e ↦ v.readers j l real (ground arith)
    ]) in
    let none_read : read_count s.lock ≡ 0 = omega (arith, v.counted) in
    unfold write_unlock in ground arith

-- In a reachable state of at most 65536 thread ids, a thread that holds the lock for reading can
-- release it: the crash "MULTIPLE_UNLOCK" does not happen.
pub read_unlock_safe :
    {n : ℕ} {s : System} (i : ℕ)
    → n ≤ half_word
    → Reach n s
    → i < n
    → 0 < (s.holds i).reads
    → read_unlock s.lock ≢ none
read_unlock_safe {n} {s} i hi r li held =
    let v = Reach-Inv (omega arith) hi r in
    let some_read : 0 < read_count s.lock =
      omega (arith, v.counted, reads-le-total n s.holds i li) in
    unfold read_unlock in ground arith

-- A thread whose id is a multiple of 65536, such as 0 before `InitTLS`, locks nobody out: after it
-- has taken the free lock for writing, every thread can take it for writing too.
pub write_lock_no_id :
    (i j : ℕ)
    → i % half_word ≡ 0
    → (m : Lock) × (write_lock i create_lock ≡ some m) × ((m' : Lock) × (write_lock j m ≡ some m'))
unfolding write_lock create_lock
write_lock_no_id i j h = (
  record { lock_flag = 0; write_count = 1 },
  ground arith,
  (
    record { lock_flag = (if j == 0 then 0 else (j % half_word) * half_word); write_count = 2 },
    ground arith,
  ),
)
