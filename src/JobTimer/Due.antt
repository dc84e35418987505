-- ===== src/JobTimer/Due.antt =====
-- `JobTimer::Distribute`: exactly the due jobs are taken, in the order of their ticks.
use mathlib.Core.Path.{subst}
use jam_client_prototype.Prelude.{
  ℕ, ◌+◌, ◌≤◌, ◌<◌, ◌≡◌, refl, sym, ◌⊎◌, inl, inr, Bool, true, false, none, some, List, [], ◌∷◌,
  arith, ltb, leb, ltb→lt, ltb→le, Bool-cases, keep,
}
use jam_client_prototype.JobTimer.{TimerItem, JobTimer, push, reserve, take_due, begin_distribute}

-- Every item has at least the tick `lo`.
abbrev pub AllFrom : ℕ → List TimerItem → Type 0
AllFrom lo [] = Unit {0}
AllFrom lo (i ∷ is) = (lo ≤ i.execute_tick) × AllFrom lo is

abbrev pub IsSorted : List TimerItem → Type 0
IsSorted [] = Unit {0}
IsSorted (i ∷ is) = AllFrom i.execute_tick is × IsSorted is

AllFrom-push :
    (lo : ℕ) (i : TimerItem) (js : List TimerItem)
    → lo ≤ i.execute_tick
    → AllFrom lo js
    → AllFrom lo (push i js)
unfolding push
AllFrom-push lo i [] h a = (h, tt)
AllFrom-push lo i (j ∷ js) h a = elim (Bool-cases (ltb i.execute_tick j.execute_tick)) [
  | inl e ↦ rw e (h, a)
  | inr e ↦ rw e (a.0, AllFrom-push lo i js h a.1)
]

AllFrom-le : (lo hi : ℕ) (js : List TimerItem) → lo ≤ hi → AllFrom hi js → AllFrom lo js
AllFrom-le lo hi [] h a = tt
AllFrom-le lo hi (j ∷ js) h a = (omega (arith, a.0), AllFrom-le lo hi js h a.1)

push-IsSorted : (i : TimerItem) (js : List TimerItem) → IsSorted js → IsSorted (push i js)
unfolding push
push-IsSorted i [] s = (tt, tt)
push-IsSorted i (j ∷ js) s = elim (Bool-cases (ltb i.execute_tick j.execute_tick)) [
  | inl e ↦
      let lt = ltb→lt _ _ e in
      rw e ((omega arith, AllFrom-le i.execute_tick j.execute_tick js (omega arith) s.0), s)
  | inr e ↦ rw e (AllFrom-push j.execute_tick i js (ltb→le _ _ e) s.0, push-IsSorted i js s.1)
]

-- Reserving keeps the order of the ticks.
pub reserve-IsSorted :
    (now after owner job : ℕ) (t : JobTimer)
    → IsSorted t.items
    → IsSorted (reserve now after owner job t).items
unfolding reserve
reserve-IsSorted now after owner job t s =
    push-IsSorted (record { execute_tick = now + after; owner = owner; job = job }) t.items s

none_due :
    (now lo : ℕ) (js : List TimerItem)
    → now < lo
    → AllFrom lo js
    → (keep (λ i. leb i.execute_tick now) js ≡ []) × (keep (λ i. ltb now i.execute_tick) js ≡ js)
none_due now lo [] h a = (refl, refl)
none_due now lo (j ∷ js) h a = let rest = none_due now lo js h a.1 in ground (arith, rest, a.0)

take_due-keep :
    (now : ℕ) (js : List TimerItem)
    → IsSorted js
    → take_due now js
      ≡ (keep (λ i. leb i.execute_tick now) js, keep (λ i. ltb now i.execute_tick) js)
unfolding take_due
take_due-keep now [] s = refl
take_due-keep now (j ∷ js) s =
    let rest = take_due-keep now js s.1 in
    elim (Bool-cases (ltb now j.execute_tick)) [
      | inl e ↦
          let none_ = none_due now j.execute_tick js (ltb→lt _ _ e) s.0 in ground (arith, none_)
      | inr e ↦ ground (arith, rest)
    ]

keep-cases :
    (p : TimerItem → Bool) (j : TimerItem) (js : List TimerItem)
    → (keep p (j ∷ js) ≡ j ∷ keep p js) ⊎ (keep p (j ∷ js) ≡ keep p js)
keep-cases p j js = elim (Bool-cases (p j)) [
  | inl e ↦ inl (ground arith)
  | inr e ↦ inr (ground arith)
]

AllFrom-keep :
    (p : TimerItem → Bool) (lo : ℕ) (js : List TimerItem) → AllFrom lo js → AllFrom lo (keep p js)
AllFrom-keep p lo [] a = tt
AllFrom-keep p lo (j ∷ js) a =
    let rest = AllFrom-keep p lo js a.1 in
    elim (keep-cases p j js) [
      | inl e ↦ subst (AllFrom lo) (sym e) (a.0, rest)
      | inr e ↦ subst (AllFrom lo) (sym e) rest
    ]

keep-IsSorted : (p : TimerItem → Bool) (js : List TimerItem) → IsSorted js → IsSorted (keep p js)
keep-IsSorted p [] s = tt
keep-IsSorted p (j ∷ js) s =
    let rest = keep-IsSorted p js s.1 in
    elim (keep-cases p j js) [
      | inl e ↦ subst IsSorted (sym e) (AllFrom-keep p j.execute_tick js s.0, rest)
      | inr e ↦ subst IsSorted (sym e) rest
    ]

-- On a timer that is sorted by ticks and that nobody distributes, `Distribute` takes exactly the
-- items whose tick has come, in the order of their ticks, and leaves exactly the others, in order;
-- a second thread takes nothing meanwhile.
pub begin_distribute-lem :
    (now later : ℕ) (t : JobTimer)
    → t.distributing ≡ false
    → IsSorted t.items
    → let due = keep (λ i. leb i.execute_tick now) t.items in
      let left : JobTimer = record {
        items = keep (λ i. ltb now i.execute_tick) t.items;
        distributing = true;
      } in
      (begin_distribute now t ≡ (some due, left))
      × IsSorted due
      × IsSorted left.items
      × (begin_distribute later left ≡ (none, left))
unfolding begin_distribute
begin_distribute-lem now later t free s = (
  rw (free, take_due-keep now t.items s) refl,
  keep-IsSorted (λ i. leb i.execute_tick now) t.items s,
  keep-IsSorted (λ i. ltb now i.execute_tick) t.items s,
  refl,
)
