-- ===== src/DeadLockProfiler/Steps.antt =====
-- What the writes of `Dfs` to its arrays do to the state of the search.
use mathlib.Core.Path.{subst}
use jam_client_prototype.Prelude.Maps.{member, get_or-set}
use jam_client_prototype.DeadLockProfiler.{History, Search, order, is_finished, discover, finish}
use jam_client_prototype.DeadLockProfiler.Graph.{Edge, Settled, settled}
use jam_client_prototype.DeadLockProfiler.Dfs.{
  undiscovered-set, rank, Chain, Inv, Later, Chain-tail, Chain-positive, Chain-Later,
}
use jam_client_prototype.Prelude.{
  ℕ, suc, ◌≤◌, ◌<◌, ◌≡◌, refl, ap, ◌∙◌, inl, inr, true, false, none, some, List, [], ◌∷◌, arith,
  ◌==◌, if◌then◌else◌, ==_iff, ==-refl, Bool-cases, length, get_or, set, length-set, get_or-set_ne,
}

-- `_parent[there] = here`
abbrev pub link : ℕ → ℕ → Search → Search
link there here s = record s { parent = set s.parent there (some here) }

module _ (n : ℕ) (g : History) where
  pub Later-link :
      (s : Search) (there here : ℕ) → order s there ≡ none → Later s (link there here s)
  Later-link s there here white = record {
    ranks = λ v h. refl;
    parents = λ v h. get_or-set_ne s.parent there v (some here) none (λ e.
        let r : rank s there ≡ 0 = rw (rank, white) refl in
        let h' = h in omega (arith, r, h', ap (rank s) e));
    finishes = λ v h. h;
    fewer = omega arith;
  }

  pub Inv-link :
      (s : Search) (there here : ℕ) (stack : List ℕ)
      → Inv n g s stack
      → order s there ≡ none
      → Inv n g (link there here s) stack
  Inv-link s there here stack i white = record {
    order_size = i.order_size;
    finished_size = i.finished_size;
    parent_size = length-set s.parent there (some here) ∙ i.parent_size;
    room = i.room;
    below = i.below;
    begun = i.begun;
    chain = Chain-Later g s (link there here s) stack (Later-link s there here white) i.chain;
    settles = i.settles;
  }

  rank-discover :
      (s : Search) (here v : ℕ)
      → here < length s.discovered_order
      → rank (discover here s) v ≡ (if here == v then suc s.discovered_count else rank s v)
  rank-discover s here v h = elim (Bool-cases (here == v)) [
    | inl e ↦
        rw (rank, get_or-set s.discovered_order here v (some s.discovered_count) none h, e) refl
    | inr e ↦
        rw (rank, get_or-set s.discovered_order here v (some s.discovered_count) none h, e) refl
  ]

  pub Later-discover :
      (s : Search) (here : ℕ)
      → here < length s.discovered_order
      → order s here ≡ none
      → Later s (discover here s)
  Later-discover s here h white =
      let r : rank s here ≡ 0 = rw (rank, white) refl in
      record {
        ranks = λ v p. elim (Bool-cases (here == v)) [
          | inl e ↦
              let same : here ≡ v = (==_iff here v).0 e in
              absurd (omega (arith, r, p, ap (rank s) same))
          | inr e ↦ rank-discover s here v h ∙ rw e refl
        ];
        parents = λ v p. refl;
        finishes = λ v p. p;
        fewer = omega (arith, undiscovered-set s.discovered_order here s.discovered_count h white);
      }

  -- The lock that is begun hangs on the one begun before.
  abbrev pub Attached : Search → ℕ → List ℕ → Type 0
  Attached s here [] = Unit {0}
  Attached s here (y ∷ ys) = (get_or s.parent here none ≡ some y) × Edge g y here

  Chain-discover :
      (s : Search) (here : ℕ) (stack : List ℕ)
      → here < length s.discovered_order
      → order s here ≡ none
      → ((v : ℕ) → rank s v ≤ s.discovered_count)
      → Attached s here stack
      → Chain g s stack
      → Chain g (discover here s) (here ∷ stack)
  Chain-discover s here [] h white below att c =
      ground (arith, rank-discover s here here h, ==-refl here)
  Chain-discover s here (y ∷ ys) h white below att c =
      let l = Later-discover s here h white in
      let top : rank (discover here s) here ≡ suc s.discovered_count =
        rank-discover s here here h ∙ rw (==-refl here) refl in
      (
        att.0,
        (
          att.1,
          (
            omega (arith, below y, l.ranks y (Chain-positive g s y ys c), top),
            Chain-Later g s (discover here s) (y ∷ ys) l c,
          ),
        ),
      )

  pub Inv-discover :
      (s : Search) (here : ℕ) (stack : List ℕ)
      → Inv n g s stack
      → here < n
      → order s here ≡ none
      → Attached s here stack
      → Inv n g (discover here s) (here ∷ stack)
  unfolding member
  Inv-discover s here stack i h white att =
      let l : here < length s.discovered_order = omega (arith, i.order_size, h) in
      let fewer = undiscovered-set s.discovered_order here s.discovered_count l white in
      record {
        order_size = length-set s.discovered_order here (some s.discovered_count) ∙ i.order_size;
        finished_size = i.finished_size;
        parent_size = i.parent_size;
        room = omega (arith, i.room, fewer);
        below = λ v. ground (arith, rank-discover s here v l, i.below v);
        begun = λ v p f. ground (arith, rank-discover s here v l, i.begun v);
        chain = Chain-discover s here stack l white i.below att i.chain;
        settles = i.settles;
      }

  finished-finish :
      (s : Search) (here v : ℕ)
      → here < length s.finished
      → is_finished (finish here s) v ≡ (if here == v then true else is_finished s v)
  finished-finish s here v h = get_or-set s.finished here v true false h

  pub Later-finish : (s : Search) (here : ℕ) → here < length s.finished → Later s (finish here s)
  Later-finish s here h = record {
    ranks = λ v p. refl;
    parents = λ v p. refl;
    finishes = λ v p. ground (arith, finished-finish s here v h);
    fewer = omega arith;
  }

  pub finish-finished :
      (s : Search) (here : ℕ) → here < length s.finished → is_finished (finish here s) here ≡ true
  finish-finished s here h = finished-finish s here here h ∙ rw (==-refl here) refl

  -- A lock is finished when all that was taken under it is.
  pub Inv-finish :
      (s : Search) (here : ℕ) (stack : List ℕ)
      → Inv n g s (here ∷ stack)
      → here < n
      → ((w : ℕ) → Edge g here w → is_finished s w ≡ true)
      → Inv n g (finish here s) stack
  unfolding member
  Inv-finish s here stack i h next =
      let l : here < length s.finished = omega (arith, i.finished_size, h) in
      record {
        order_size = i.order_size;
        finished_size = length-set s.finished here true ∙ i.finished_size;
        parent_size = i.parent_size;
        room = omega (arith, i.room);
        below = i.below;
        begun = λ v p f. ground (arith, finished-finish s here v l, i.begun v p);
        chain = Chain-tail g s here stack i.chain;
        settles = λ v f. elim (Bool-cases (here == v)) [
          | inl e ↦
              let same : here ≡ v = (==_iff here v).0 e in
              subst (Settled g) same (settled (λ w e. i.settles w (next w e)))
          | inr e ↦ i.settles v (ground (arith, finished-finish s here v l))
        ];
      }
