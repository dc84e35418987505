-- ===== src/DeadLockProfiler/Locks.antt =====
-- `PushLock` and `PopLock`: the lock order that the calls keep.
use mathlib.Core.Path.{subst}
use jam_client_prototype.Prelude.Maps.{member, find, assign}
use jam_client_prototype.DeadLockProfiler.{
  History, check_cycle, next_locks, Profiler, Pushed, pushed, detected, identify, push_after,
  observe, push_lock, popped, pop_lock,
}
use jam_client_prototype.DeadLockProfiler.Graph.{Edge, Trail, Acyclic}
use jam_client_prototype.DeadLockProfiler.Order.{
  extended, Edge-extended, extended-Edge, Edge-touched, touched-Edge, Trail-map,
}
use jam_client_prototype.DeadLockProfiler.Names.{IsOrdered, identify-IsOrdered}
use jam_client_prototype.DeadLockProfiler.Cycle.{check_cycle_decides}
use jam_client_prototype.Prelude.{
  ℕ, ◌<◌, ◌≡◌, refl, sym, ap, ◌∙◌, ◌≢◌, ◌⊎◌, inl, inr, true, false, some, List, [], ◌∷◌, arith,
  ◌==◌, ==_iff, ==-refl, Bool-cases, length,
}

module _ (lock_id prev_id : ℕ) (below : List ℕ) (p : Profiler) where
  -- The profilers that `PushLock` leaves behind.
  abbrev touched : Profiler
  touched = record p {
    lock_history = assign prev_id (next_locks prev_id p.lock_history) p.lock_history;
  }

  abbrev learned : Profiler
  learned = record p { lock_history = extended prev_id lock_id p.lock_history }

  observe-again :
      (lock_id == prev_id) ≡ true
      → observe lock_id (prev_id ∷ below) p ≡ pushed p (lock_id ∷ (prev_id ∷ below))
  unfolding observe
  observe-again e = rw (observe, e) refl

  observe-known :
      (lock_id == prev_id) ≡ false
      → member lock_id (next_locks prev_id p.lock_history) ≡ true
      → observe lock_id (prev_id ∷ below) p ≡ pushed touched (lock_id ∷ (prev_id ∷ below))
  unfolding observe
  observe-known e m = rw (observe, e, m) refl

  observe-new :
      (lock_id == prev_id) ≡ false
      → member lock_id (next_locks prev_id p.lock_history) ≡ false
      → observe lock_id (prev_id ∷ below) p
        ≡ push_after
            (check_cycle (length p.name_to_id) learned.lock_history)
            lock_id
            (prev_id ∷ below)
            learned
  unfolding observe
  observe-new e m = rw (observe, e, m) refl

-- The lock order once `lock_id` is taken on top of the stack.
abbrev pub taken : ℕ → List ℕ → History → History
taken lock_id [] g = g
taken lock_id (prev_id ∷ below) g = extended prev_id lock_id g

-- The edge that `PushLock` of a lock adds to the order: from the last lock held, if that is another.
abbrev pub Learns : ℕ → List ℕ → ℕ → ℕ → Type 0
Learns lock_id [] a b = ⊥
Learns lock_id (prev_id ∷ below) a b = (prev_id ≢ lock_id) × ((a ≡ prev_id) × (b ≡ lock_id))

-- The edges of `h` are those of `g` and the one that is learned.
abbrev pub Extends : ℕ → List ℕ → History → History → Type 0
Extends lock_id stack g h =
    (a b : ℕ)
    → (Edge h a b → Edge g a b ⊎ Learns lock_id stack a b)
      × (Edge g a b ⊎ Learns lock_id stack a b → Edge h a b)

-- What the search and the crash leave: the lock on the stack and an order without a cycle, or the
-- lines of a cycle of the order with the new edge.
abbrev pub Observed : ℕ → List ℕ → Profiler → Pushed → Type 0
Observed lock_id stack p r =
    ((q : Profiler) × ((r ≡ pushed q (lock_id ∷ stack))
        × (IsOrdered q
            × ((q.name_to_id ≡ p.name_to_id)
                × Extends lock_id stack p.lock_history q.lock_history))))
    ⊎ ((c : ℕ) × ((lines : List (ℕ × ℕ)) × ((r ≡ detected lines)
            × Trail (taken lock_id stack p.lock_history) c c lines)))

touched-IsOrdered :
    (prev_id : ℕ) (p : Profiler)
    → IsOrdered p
    → IsOrdered (record p {
      lock_history = assign prev_id (next_locks prev_id p.lock_history) p.lock_history;
    })
touched-IsOrdered prev_id p o =
    let back = λ (x y : ℕ). Edge-touched prev_id x y p.lock_history in
    record {
      named = o.named;
      bounded = λ a b e. o.bounded a b (back a b e);
      loopless = λ a e. o.loopless a (back a a e);
      acyclic =
          unfold Acyclic in λ c lines t. o.acyclic c lines (Trail-map _ p.lock_history back t);
    }

learned-bounded :
    (lock_id prev_id : ℕ) (p : Profiler)
    → IsOrdered p
    → lock_id < length p.name_to_id
    → prev_id < length p.name_to_id
    → (a b : ℕ) → Edge (extended prev_id lock_id p.lock_history) a b
    → (a < length p.name_to_id) × (b < length p.name_to_id)
learned-bounded lock_id prev_id p o h low a b e =
    elim (Edge-extended prev_id lock_id a b p.lock_history e) [
      | inl old ↦ o.bounded a b old
      | inr new ↦ (omega (arith, new.0), omega (arith, new.1))
    ]

learned-loopless :
    (lock_id prev_id : ℕ) (p : Profiler)
    → IsOrdered p
    → (lock_id == prev_id) ≡ false
    → (a : ℕ) → Edge (extended prev_id lock_id p.lock_history) a a
    → ⊥
learned-loopless lock_id prev_id p o other a e =
    elim (Edge-extended prev_id lock_id a a p.lock_history e) [
      | inl old ↦ o.loopless a old
      | inr new ↦ ground (arith, new.0, new.1)
    ]

touched-Extends :
    (lock_id prev_id : ℕ) (below : List ℕ) (g : History)
    → member lock_id (next_locks prev_id g) ≡ true
    → Extends lock_id (prev_id ∷ below) g (assign prev_id (next_locks prev_id g) g)
touched-Extends lock_id prev_id below g known a b = (
  λ e. inl (Edge-touched prev_id a b g e),
  λ h.
      touched-Edge prev_id a b g
        (elim h [ inl old ↦ old | inr new ↦ rw (new.1.0, new.1.1) (unfold Edge in known) ]),
)

extended-Extends :
    (lock_id prev_id : ℕ) (below : List ℕ) (g : History)
    → (lock_id == prev_id) ≡ false
    → Extends lock_id (prev_id ∷ below) g (extended prev_id lock_id g)
extended-Extends lock_id prev_id below g other a b =
    let differ : prev_id ≢ lock_id = λ e. absurd (ground (arith, e, other, ==-refl lock_id)) in
    (
      λ e. elim (Edge-extended prev_id lock_id a b g e) [
        | inl old ↦ inl old
        | inr new ↦ inr (differ, new)
      ],
      λ h. extended-Edge prev_id lock_id a b g (elim h [ inl old ↦ inl old | inr new ↦ inr new.1 ]),
    )

again-Extends :
    (lock_id prev_id : ℕ) (below : List ℕ) (g : History)
    → (lock_id == prev_id) ≡ true
    → Extends lock_id (prev_id ∷ below) g g
again-Extends lock_id prev_id below g same a b = (
  λ e. inl e,
  λ h. elim h [ inl old ↦ old | inr new ↦ absurd (new.0 (sym ((==_iff lock_id prev_id).0 same))) ],
)

observe_lem :
    (lock_id : ℕ) (stack : List ℕ) (p : Profiler)
    → IsOrdered p
    → lock_id < length p.name_to_id
    → ((v : ℕ) → member v stack ≡ true → v < length p.name_to_id)
    → Observed lock_id stack p (observe lock_id stack p)
unfolding observe push_after member
observe_lem lock_id [] p o h range = inl (
  p,
  (refl, (o, (refl, λ a b. (λ e. inl e, λ h. elim h [ inl old ↦ old | inr new ↦ absurd new ])))),
)
observe_lem lock_id (prev_id ∷ below) p o h range = elim (Bool-cases (lock_id == prev_id)) [
  | inl same ↦
      rw (observe-again lock_id prev_id below p same)
        (inl (p, (refl, (o, (refl, again-Extends lock_id prev_id below p.lock_history same)))))
  | inr other ↦ elim (Bool-cases (member lock_id (next_locks prev_id p.lock_history))) [
    | inl known ↦ rw (observe-known lock_id prev_id below p other known) (
        inl (
          touched lock_id prev_id below p,
          (
            refl,
            (
              touched-IsOrdered prev_id p o,
              (refl, touched-Extends lock_id prev_id below p.lock_history known),
            ),
          ),
        ))
    | inr new ↦
        let q = learned lock_id prev_id below p in
        let low : prev_id < length p.name_to_id = range prev_id (ground (arith, ==-refl prev_id)) in
        let bounded = learned-bounded lock_id prev_id p o h low in
        let loopless = learned-loopless lock_id prev_id p o other in
        rw (observe-new lock_id prev_id below p other new)
          (elim (check_cycle_decides (length p.name_to_id) q.lock_history bounded loopless) [
            | inl a ↦ inl (
              q,
              (
                rw a.1.0 refl,
                (
                  record {
                    named = o.named;
                    bounded = bounded;
                    loopless = loopless;
                    acyclic = a.1.1;
                  },
                  (refl, extended-Extends lock_id prev_id below p.lock_history other),
                ),
              ),
            )
            | inr b ↦ inr (b.0, (b.1.0, (rw b.1.1.0 refl, b.1.1.1)))
          ])
  ]
]

stack-in_range :
    (lock_id : ℕ) (stack : List ℕ) (n : ℕ)
    → lock_id < n
    → ((v : ℕ) → member v stack ≡ true → v < n)
    → (v : ℕ) → member v (lock_id ∷ stack) ≡ true
    → v < n
unfolding member
stack-in_range lock_id stack n low range v m = elim (Bool-cases (lock_id == v)) [
  | inl e ↦ omega (arith, low, (==_iff lock_id v).0 e)
  | inr e ↦ range v (ground arith)
]

pop_lock-top :
    (name lock_id : ℕ) (stack : List ℕ) (p : Profiler)
    → find name p.name_to_id ≡ some lock_id
    → pop_lock name (lock_id ∷ stack) p ≡ popped p stack
unfolding pop_lock
pop_lock-top name lock_id stack p e = rw (pop_lock, e, ==-refl lock_id) refl

-- The id of the name is on the stack, the profiler is one that `PushLock` keeps, `PopLock` of the
-- name brings the stack back, and the lock order has the edge from the last lock held, and no other
-- new one.
abbrev pub Pushes : ℕ → List ℕ → Profiler → Pushed → Type 0
Pushes name stack p r =
    (q : Profiler) × ((lock_id : ℕ) × ((r ≡ pushed q (lock_id ∷ stack))
        × (IsOrdered q
            × ((find name q.name_to_id ≡ some lock_id)
                × (((v : ℕ) → member v (lock_id ∷ stack) ≡ true → v < length q.name_to_id)
                    × ((pop_lock name (lock_id ∷ stack) q ≡ popped q stack)
                        × Extends lock_id stack p.lock_history q.lock_history))))))

-- The lines that are printed are a cycle of the lock order with the new edge.
abbrev pub Detects : ℕ → List ℕ → Profiler → Pushed → Type 0
Detects name stack p r =
    (c : ℕ) × ((lines : List (ℕ × ℕ)) × ((r ≡ detected lines)
        × Trail (taken (identify name p).0 stack p.lock_history) c c lines))

-- Where the names have ids of their own, the lock order has no cycle and the stack holds issued ids,
-- `PushLock` ends: either the id of the name is on the stack, the profiler is such again, `PopLock`
-- of the name brings the stack back, and the lock order has the edges it had and the one from the
-- last lock held, if that is another lock, and no others; or the crash prints the lines of a cycle of the lock
-- order with the edge from the last lock held to the new one.
pub push_lock_lem :
    (name : ℕ) (stack : List ℕ) (p : Profiler)
    → IsOrdered p
    → ((v : ℕ) → member v stack ≡ true → v < length p.name_to_id)
    → Pushes name stack p (push_lock name stack p) ⊎ Detects name stack p (push_lock name stack p)
unfolding push_lock member
push_lock_lem name stack p o range =
    let lock_id = (identify name p).0 in
    let q = (identify name p).1 in
    let (ordered, (named, (grows, history))) = identify-IsOrdered name p o in
    let low : lock_id < length q.name_to_id = (ordered.named name lock_id named).0 in
    elim (observe_lem lock_id stack q ordered low (λ v m. omega (arith, range v m, grows))) [
      | inl a ↦
          let t = a.0 in
          let size : length t.name_to_id ≡ length q.name_to_id = ap length a.1.1.1.0 in
          let found : find name t.name_to_id ≡ some lock_id = ap (find name) a.1.1.1.0 ∙ named in
          inl (
            t,
            (
              lock_id,
              (
                a.1.0,
                (
                  a.1.1.0,
                  (
                    found,
                    (
                      λ v m.
                          stack-in_range lock_id stack (length t.name_to_id)
                            (omega (arith, low, size))
                            (λ w k. omega (arith, range w k, grows, size)) v m,
                      (
                        pop_lock-top name lock_id stack t found,
                        subst (λ g. Extends lock_id stack g t.lock_history) history a.1.1.1.1,
                      ),
                    ),
                  ),
                ),
              ),
            ),
          )
      | inr b ↦ inr (
        b.0,
        (
          b.1.0,
          (b.1.1.0, subst (λ g. Trail (taken lock_id stack g) b.0 b.0 b.1.0) history b.1.1.1),
        ),
      )
    ]
