-- ===== src/Lock/Invariant.antt =====
-- `Lock`: the flag names the writer and counts the readers; every call keeps this.
use jam_client_prototype.Prelude.{
  ℕ, ◌+◌, ◌-◌, ◌*◌, ◌%◌, ◌^◌, ◌≤◌, ◌<◌, ◌≡◌, refl, ◌≢◌, ◌⊎◌, inl, inr, some, arith, ◌==◌,
  if◌then◌else◌, ==_iff, Bool-cases,
}
use jam_client_prototype.Lock.{
  Lock, half_word, create_lock, owner, read_count, write_lock, write_unlock, read_lock, read_unlock,
}
use jam_client_prototype.Lock.System.{
  Hold, System, update, total, total-update, reads-le-total, total-zero, Step, locks_write,
  unlocks_write, locks_read, unlocks_read, start,
}

-- The flag names the writer and counts the readers.
pub record Inv (n : ℕ) (s : System) : Type 0 where
  pub small : s.lock.lock_flag < 2 ^ 32
  pub depth : s.lock.write_count < half_word
  pub nobody : ((s.holds 0).writes ≡ 0) × ((s.holds 0).reads ≡ 0)
  pub counted : total n s.holds ≡ read_count s.lock
  pub owner_in : owner s.lock < n
  pub writer : (j : ℕ) → j ≡ owner s.lock → (s.holds j).writes ≡ s.lock.write_count
  pub deep : owner s.lock ≢ 0 → 0 < s.lock.write_count
  pub others : (j : ℕ) → j < n → j ≢ owner s.lock → (s.holds j).writes ≡ 0
  pub readers : (j : ℕ) → j < n → owner s.lock ≢ 0 → j ≢ owner s.lock → (s.holds j).reads ≡ 0

pub start-Inv : (n : ℕ) → 0 < n → n ≤ half_word → Inv n start
unfolding create_lock
start-Inv n lo hi = record {
  small = omega arith;
  depth = omega arith;
  nobody = (refl, refl);
  counted = total-zero n;
  owner_in = omega arith;
  writer = λ j h. refl;
  deep = λ h. absurd (h refl);
  others = λ j h k. refl;
  readers = λ j h k l. refl;
}

-- What an attempt that succeeds has done.
write_lock-cases :
    (i : ℕ) (l m : Lock)
    → write_lock i l ≡ some m
    → ((i ≡ owner l)
        × (m.lock_flag ≡ l.lock_flag)
        × (m.write_count ≡ (l.write_count + 1) % half_word))
      ⊎ ((i ≢ owner l)
          × (l.lock_flag ≡ 0)
          × (m.lock_flag ≡ (i % half_word) * half_word)
          × (m.write_count ≡ (l.write_count + 1) % half_word))
unfolding write_lock
write_lock-cases i l m e = ground arith

write_unlock-cases :
    (l m : Lock)
    → write_unlock l ≡ some m
    → (read_count l ≡ 0)
      × (m.write_count ≡ (l.write_count + half_word - 1) % half_word)
      × (m.lock_flag ≡ (if m.write_count == 0 then 0 else l.lock_flag))
unfolding write_unlock
write_unlock-cases l m e = ground arith

read_lock-cases :
    (i : ℕ) (l m : Lock)
    → read_lock i l ≡ some m
    → ((i ≡ owner l) ⊎ (l.lock_flag ≡ read_count l))
      × (m.lock_flag ≡ (l.lock_flag + 1) % 2 ^ 32)
      × (m.write_count ≡ l.write_count)
unfolding read_lock
read_lock-cases i l m e = ground arith

read_unlock-cases :
    (l m : Lock)
    → read_unlock l ≡ some m
    → (0 < read_count l)
      × (m.lock_flag ≡ (l.lock_flag + 2 ^ 32 - 1) % 2 ^ 32)
      × (m.write_count ≡ l.write_count)
unfolding read_unlock
read_unlock-cases l m e = ground arith

module _ {n : ℕ} {s : System} (hi : n ≤ half_word) (v : Inv n s) (i : ℕ) (l : Lock) (lo : 0 < i)
    (lt : i < n) where
  abbrev after : ℕ → ℕ → System
  after w r = record { lock = l; holds = update s.holds i (record { writes = w; reads = r }) }

  abbrev mine : Hold
  mine = s.holds i

  count : (w r : ℕ) → total n (after w r).holds + mine.reads ≡ total n s.holds + r
  count w r = total-update n s.holds i (record { writes = w; reads = r }) lt

  -- The writer takes the lock again.
  again-Inv :
      i ≡ owner s.lock
      → l.lock_flag ≡ s.lock.lock_flag
      → l.write_count ≡ s.lock.write_count + 1
      → s.lock.write_count + 1 < half_word
      → Inv n (after (mine.writes + 1) mine.reads)
  again-Inv o f c room = record {
    small = omega arith;
    depth = omega arith;
    nobody = ground (arith, v.nobody);
    counted = omega (arith, count (mine.writes + 1) mine.reads, v.counted);
    owner_in = omega (arith, v.owner_in);
    writer = λ j h. ground (arith, v.writer j, v.writer i);
    deep = λ h. omega arith;
    others = λ j h k. ground (arith, v.others j);
    readers = λ j h k m. ground (arith, v.readers j);
  }

  -- The free lock goes to a writer.
  taken-Inv :
      i ≢ owner s.lock
      → s.lock.lock_flag ≡ 0
      → l.lock_flag ≡ i * half_word
      → l.write_count ≡ s.lock.write_count + 1
      → s.lock.write_count + 1 < half_word
      → Inv n (after (mine.writes + 1) mine.reads)
  taken-Inv o z f c room = record {
    small = omega arith;
    depth = omega arith;
    nobody = ground (arith, v.nobody);
    counted = omega (arith, count (mine.writes + 1) mine.reads, v.counted);
    owner_in = omega arith;
    writer = λ j h. ground (arith, v.writer 0 (omega arith), v.nobody, v.others i lt o);
    deep = λ h. omega arith;
    others = λ j h k. ground (arith, v.others j h, v.writer 0 (omega arith), v.nobody, v.writer j);
    readers = λ j h k m. ground (arith, reads-le-total n s.holds j h, v.counted);
  }

  -- The writer lets go once, and of the lock when that was its last hold.
  released-Inv :
      0 < mine.writes
      → read_count s.lock ≡ 0
      → l.write_count ≡ (s.lock.write_count + half_word - 1) % half_word
      → l.lock_flag ≡ (if l.write_count == 0 then 0 else s.lock.lock_flag)
      → Inv n (after (mine.writes - 1) mine.reads)
  released-Inv held r c f =
      let self : i ≡ owner s.lock = ground (arith, v.others i lt) in
      let deep : mine.writes ≡ s.lock.write_count = v.writer i self in
      let none_read : total n s.holds ≡ 0 = omega (arith, v.counted) in
      elim (Bool-cases (l.write_count == 0)) [
        | inl e ↦
            let zero_ : l.write_count ≡ 0 = (==_iff _ _).0 e in
            let flag : l.lock_flag ≡ 0 = rw e at f in
            record {
              small = omega arith;
              depth = omega arith;
              nobody = ground (arith, v.nobody);
              counted = omega (arith, count (mine.writes - 1) mine.reads);
              owner_in = omega arith;
              writer = λ j h. ground (arith, v.nobody);
              deep = λ h. absurd (omega arith);
              others = λ j h k. ground (arith, v.others j h);
              readers = λ j h k m. absurd (omega arith);
            }
        | inr e ↦
            let more : l.write_count ≢ 0 = ground arith in
            let flag : l.lock_flag ≡ s.lock.lock_flag = rw e at f in
            record {
              small = omega (arith, v.small);
              depth = omega arith;
              nobody = ground (arith, v.nobody);
              counted = omega (arith, count (mine.writes - 1) mine.reads);
              owner_in = omega (arith, v.owner_in);
              writer = λ j h. ground (arith, v.writer j);
              deep = λ h. omega arith;
              others = λ j h k. ground (arith, v.others j);
              readers = λ j h k m. ground (arith, v.readers j);
            }
      ]

  -- A reader comes or goes; the owner stays.
  read-Inv :
      (r : ℕ)
      → l.lock_flag + mine.reads ≡ s.lock.lock_flag + r
      → owner l ≡ owner s.lock
      → l.lock_flag < 2 ^ 32
      → l.write_count ≡ s.lock.write_count
      → (i ≡ owner s.lock) ⊎ (owner s.lock ≡ 0)
      → Inv n (after mine.writes r)
  read-Inv r f o small c who = record {
    small = small;
    depth = omega (arith, v.depth);
    nobody = ground (arith, v.nobody);
    counted = omega (arith, count mine.writes r, v.counted);
    owner_in = omega (arith, v.owner_in);
    writer = λ j h. ground (arith, v.writer j);
    deep = λ h. ground (arith, v.deep);
    others = λ j h k. ground (arith, v.others j);
    readers = λ j h k m. ground (arith, v.readers j, who);
  }

-- Every call of any thread keeps the invariant.
pub Step-Inv : {n : ℕ} {s t : System} → n ≤ half_word → Step n s t → Inv n s → Inv n t
Step-Inv {n} {s} hi (locks_write i l lo lt room e) v = elim (write_lock-cases i s.lock l e) [
  | inl again ↦ again-Inv hi v i l lo lt again.0 again.1 (omega (arith, again.2)) room
  | inr fresh ↦
      taken-Inv hi v i l lo lt fresh.0 fresh.1 (omega (arith, fresh.2)) (omega (arith, fresh.3))
        room
]
Step-Inv {n} {s} hi (unlocks_write i l lo lt held e) v =
    let done = write_unlock-cases s.lock l e in
    released-Inv hi v i l lo lt held done.0 done.1 done.2
Step-Inv {n} {s} hi (locks_read i l lo lt room e) v =
    let done = read_lock-cases i s.lock l e in
    let who : (i ≡ owner s.lock) ⊎ (owner s.lock ≡ 0) = elim done.0 [
      | inl a ↦ inl a
      | inr b ↦ inr (omega arith)
    ] in
    read-Inv hi v i l lo lt ((s.holds i).reads + 1) (omega (arith, done.1, v.small))
      (omega (arith, done.1, v.small)) (omega (arith, done.1)) done.2 who
Step-Inv {n} {s} hi (unlocks_read i l lo lt held e) v =
    let done = read_unlock-cases s.lock l e in
    let who : (i ≡ owner s.lock) ⊎ (owner s.lock ≡ 0) = ground (arith, v.readers i lt) in
    read-Inv hi v i l lo lt ((s.holds i).reads - 1) (omega (arith, done.1, v.small))
      (omega (arith, done.0, done.1, v.small)) (omega (arith, done.1)) done.2 who
