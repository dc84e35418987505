-- ===== src/Lock/System.antt =====
-- The users of a `Lock`: what each thread holds, and the calls that it can make.
use jam_client_prototype.Prelude.{
  ℕ, zero, suc, ◌+◌, ◌-◌, ◌≤◌, ◌<◌, ◌≡◌, refl, inl, inr, some, arith, ◌==◌, if◌then◌else◌, ==_iff,
  Bool-cases,
}
use jam_client_prototype.Lock.{
  Lock, half_word, create_lock, read_count, write_lock, write_unlock, read_lock, read_unlock,
}

-- What a thread holds: how often it has taken the lock for writing and for reading.
pub record Hold : Type 0 where
  pub writes : ℕ
  pub reads : ℕ

pub record System : Type 0 where
  pub lock : Lock
  pub holds : ℕ → Hold

abbrev pub update : (ℕ → Hold) → ℕ → Hold → ℕ → Hold
update f i a j = if i == j then a else f j

-- The reads of the threads below `n` together.
unfoldable pub total : ℕ → (ℕ → Hold) → ℕ
total zero f = 0
total (suc n) f = total n f + (f n).reads

total-update_ge :
    (n : ℕ) (f : ℕ → Hold) (i : ℕ) (a : Hold) → n ≤ i → total n (update f i a) ≡ total n f
unfolding total
total-update_ge zero f i a h = refl
total-update_ge (suc n) f i a h = ground (arith, total-update_ge n f i a)

pub total-update :
    (n : ℕ) (f : ℕ → Hold) (i : ℕ) (a : Hold)
    → i < n
    → total n (update f i a) + (f i).reads ≡ total n f + a.reads
unfolding total
total-update zero f i a h = absurd (omega arith)
total-update (suc n) f i a h = elim (Bool-cases (i == n)) [
  | inl e ↦ let same : i ≡ n = (==_iff i n).0 e in ground (arith, total-update_ge n f i a)
  | inr e ↦ ground (arith, total-update n f i a)
]

pub reads-le-total : (n : ℕ) (f : ℕ → Hold) (i : ℕ) → i < n → (f i).reads ≤ total n f
unfolding total
reads-le-total zero f i h = absurd (omega arith)
reads-le-total (suc n) f i h = elim (Bool-cases (i == n)) [
  | inl e ↦ let same : i ≡ n = (==_iff i n).0 e in rw same (omega arith)
  | inr e ↦ ground (arith, reads-le-total n f i)
]

pub total-zero : (n : ℕ) → total n (λ _. record { writes = 0; reads = 0 }) ≡ 0
unfolding total
total-zero zero = refl
total-zero (suc n) = omega (arith, total-zero n)

-- One call of a thread. Thread ids run from 1, as `InitTLS` hands them out; a thread unlocks what
-- it holds, and the guards nest, so a writer unlocks when it has no read left. The counts stay
-- below what their fields hold.
pub data Step (n : ℕ) (s : System) : System → Type 0 where
  locks_write :
      (i : ℕ) (l : Lock)
      → 0 < i
      → i < n
      → s.lock.write_count + 1 < half_word
      → write_lock i s.lock ≡ some l
      → Step n s (record {
        lock = l;
        holds =
            update s.holds i
              (record { writes = (s.holds i).writes + 1; reads = (s.holds i).reads });
      })
  unlocks_write :
      (i : ℕ) (l : Lock)
      → 0 < i
      → i < n
      → 0 < (s.holds i).writes
      → write_unlock s.lock ≡ some l
      → Step n s (record {
        lock = l;
        holds =
            update s.holds i
              (record { writes = (s.holds i).writes - 1; reads = (s.holds i).reads });
      })
  locks_read :
      (i : ℕ) (l : Lock)
      → 0 < i
      → i < n
      → read_count s.lock + 1 < half_word
      → read_lock i s.lock ≡ some l
      → Step n s (record {
        lock = l;
        holds =
            update s.holds i
              (record { writes = (s.holds i).writes; reads = (s.holds i).reads + 1 });
      })
  unlocks_read :
      (i : ℕ) (l : Lock)
      → 0 < i
      → i < n
      → 0 < (s.holds i).reads
      → read_unlock s.lock ≡ some l
      → Step n s (record {
        lock = l;
        holds =
            update s.holds i
              (record { writes = (s.holds i).writes; reads = (s.holds i).reads - 1 });
      })

abbrev pub start : System
start = record { lock = create_lock; holds = λ _. record { writes = 0; reads = 0 } }

pub data Reach (n : ℕ) : System → Type 0 where
  here : Reach n start
  next : {s t : System} → Reach n s → Step n s t → Reach n t
