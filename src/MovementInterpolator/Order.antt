-- ===== src/MovementInterpolator/Order.antt =====
-- The snapshots stay in the order of their times, and what is drawn lies between two neighbours.
use jam_client_prototype.MovementInterpolator.{
  Snapshot, insert_snapshot, drop_before, add_snapshot, bracket,
}
use jam_client_prototype.Prelude.{
  ◌≡◌, refl, sym, ap, ◌∙◌, ◌⊎◌, inl, inr, Bool, true, false, not, Option, none, some, List, [], ◌∷◌,
  ◌++◌, Bool-cases, keep,
}

module _ {Time State : Type 0} (before : Time → Time → Bool) where
  -- No snapshot of the list is before the time.
  abbrev pub NoneBefore : Time → List (Snapshot Time State) → Type 0
  NoneBefore t [] = Unit {0}
  NoneBefore t (s ∷ ss) = (before s.timestamp t ≡ false) × NoneBefore t ss

  -- No snapshot is before one in front of it.
  abbrev pub IsSorted : List (Snapshot Time State) → Type 0
  IsSorted [] = Unit {0}
  IsSorted (s ∷ ss) = NoneBefore s.timestamp ss × IsSorted ss

  -- `next` follows `prev` at once.
  abbrev pub Follows :
      Snapshot Time State → Snapshot Time State → List (Snapshot Time State) → Type 0
  Follows prev next [] = ⊥
  Follows prev next (s ∷ []) = ⊥
  Follows prev next (s ∷ (s' ∷ ss)) = ((s ≡ prev) × (s' ≡ next)) ⊎ Follows prev next (s' ∷ ss)

  -- The two snapshots are neighbours around the time; where there is none, no neighbours are.
  abbrev pub IsAround :
      Time
      → List (Snapshot Time State)
      → Option (Snapshot Time State × Snapshot Time State)
      → Type 0
  IsAround t ss (some (prev, next)) =
      Follows prev next ss × ((before prev.timestamp t ≡ true) × (before next.timestamp t ≡ false))
  IsAround t ss none =
      (prev next : Snapshot Time State)
      → Follows prev next ss
      → before prev.timestamp t ≡ true
      → before next.timestamp t ≡ true

module _ {Time State : Type 0} (before : Time → Time → Bool)
    (asym : (s t : Time) → before s t ≡ true → before t s ≡ false)
    (trans : (s t u : Time) → before t s ≡ false → before u t ≡ false → before u s ≡ false) where
  NoneBefore-trans :
      (t u : Time) (ss : List (Snapshot Time State))
      → before u t ≡ false
      → NoneBefore before u ss
      → NoneBefore before t ss
  NoneBefore-trans t u [] h n = tt
  NoneBefore-trans t u (s ∷ ss) h n = (trans t u s.timestamp h n.0, NoneBefore-trans t u ss h n.1)

  insert-NoneBefore :
      (t : Time) (snap : Snapshot Time State) (ss : List (Snapshot Time State))
      → before snap.timestamp t ≡ false
      → NoneBefore before t ss
      → NoneBefore before t (insert_snapshot before snap ss)
  unfolding insert_snapshot
  insert-NoneBefore t snap [] h n = (h, tt)
  insert-NoneBefore t snap (s ∷ ss) h n = elim (Bool-cases (before snap.timestamp s.timestamp)) [
    | inl e ↦ rw e (h, n)
    | inr e ↦ rw e (n.0, insert-NoneBefore t snap ss h n.1)
  ]

  insert-IsSorted :
      (snap : Snapshot Time State) (ss : List (Snapshot Time State))
      → IsSorted before ss
      → IsSorted before (insert_snapshot before snap ss)
  unfolding insert_snapshot
  insert-IsSorted snap [] o = (tt, tt)
  insert-IsSorted snap (s ∷ ss) o = elim (Bool-cases (before snap.timestamp s.timestamp)) [
    | inl e ↦
        let a = asym snap.timestamp s.timestamp e in
        rw e ((a, NoneBefore-trans snap.timestamp s.timestamp ss a o.0), o)
    | inr e ↦ rw e (insert-NoneBefore s.timestamp snap ss e o.0, insert-IsSorted snap ss o.1)
  ]

  Follows-not_before :
      (t : Time) (ss : List (Snapshot Time State)) (prev next : Snapshot Time State)
      → NoneBefore before t ss
      → Follows before prev next ss
      → before prev.timestamp t ≡ false
  Follows-not_before t [] prev next n f = absurd f
  Follows-not_before t (s ∷ []) prev next n f = absurd f
  Follows-not_before t (s ∷ (s' ∷ ss)) prev next n f = elim f [
    | inl e ↦ sym (ap (λ x. before x.timestamp t) e.0) ∙ n.0
    | inr g ↦ Follows-not_before t (s' ∷ ss) prev next n.1 g
  ]

  IsAround-later :
      (t : Time) (s s' : Snapshot Time State) (ss : List (Snapshot Time State))
      (o : Option (Snapshot Time State × Snapshot Time State))
      → before s'.timestamp t ≡ true
      → IsAround before t (s' ∷ ss) o
      → IsAround before t (s ∷ (s' ∷ ss)) o
  IsAround-later t s s' ss (some (prev, next)) e h = (inr h.0, h.1)
  IsAround-later t s s' ss none e h = λ prev next f p. elim f [
    | inl q ↦ sym (ap (λ x. before x.timestamp t) q.1) ∙ e
    | inr g ↦ h prev next g p
  ]

  -- Where `before` is asymmetric and not being before is transitive, and the snapshots are sorted,
  -- `Interpolate` finds two neighbours, the first before the time and the second not, exactly where
  -- there are such.
  pub bracket-IsAround :
      (t : Time) (ss : List (Snapshot Time State))
      → IsSorted before ss
      → IsAround before t ss (bracket before t ss)
  unfolding bracket
  bracket-IsAround t [] o = λ prev next f p. absurd f
  bracket-IsAround t (s ∷ []) o = λ prev next f p. absurd f
  bracket-IsAround t (s ∷ (s' ∷ ss)) o = elim (Bool-cases (before s.timestamp t)) [
    | inl e ↦ elim (Bool-cases (before s'.timestamp t)) [
      | inl e' ↦ rw (e, e') (IsAround-later t s s' ss _ e' (bracket-IsAround t (s' ∷ ss) o.1))
      | inr e' ↦ rw (e, e') (inl (refl, refl), (e, e'))
    ]
    | inr e ↦
        let none_before = NoneBefore-trans t s.timestamp (s' ∷ ss) e o.0 in
        rw e (λ prev next f p.
          let q = Follows-not_before t (s ∷ (s' ∷ ss)) prev next (e, none_before) f in cc)
  ]

  keep-all :
      (limit : Time) (ss : List (Snapshot Time State))
      → NoneBefore before limit ss
      → keep (λ s. not (before s.timestamp limit)) ss ≡ ss
  keep-all limit [] n = refl
  keep-all limit (s ∷ ss) n = rw (keep, n.0) (ap (λ x. s ∷ x) (keep-all limit ss n.1))

  insert-split :
      (snap : Snapshot Time State) (ss : List (Snapshot Time State))
      → (front : List (Snapshot Time State)) × ((back : List (Snapshot Time State)) × ((ss
              ≡ front ++ back)
            × (insert_snapshot before snap ss ≡ front ++ (snap ∷ back))))
  unfolding insert_snapshot
  insert-split snap [] = ([], ([], (refl, refl)))
  insert-split snap (s ∷ ss) = elim (Bool-cases (before snap.timestamp s.timestamp)) [
    | inl e ↦ ([], (s ∷ ss, (refl, rw e refl)))
    | inr e ↦
        let (front, (back, (whole, placed))) = insert-split snap ss in
        (s ∷ front, (back, (ap (λ x. s ∷ x) whole, rw e (ap (λ x. s ∷ x) placed))))
  ]

  drop_before-keep :
      (limit : Time) (ss : List (Snapshot Time State))
      → IsSorted before ss
      → drop_before before limit ss ≡ keep (λ s. not (before s.timestamp limit)) ss
  unfolding drop_before
  drop_before-keep limit [] o = refl
  drop_before-keep limit (s ∷ ss) o = elim (Bool-cases (before s.timestamp limit)) [
    | inl e ↦ rw (keep, e) (drop_before-keep limit ss o.1)
    | inr e ↦
        let all = keep-all limit ss (NoneBefore-trans limit s.timestamp ss e o.0) in
        rw (keep, e) (ap (λ x. s ∷ x) (sym all))
  ]

  drop_before-IsSorted :
      (limit : Time) (ss : List (Snapshot Time State))
      → IsSorted before ss
      → IsSorted before (drop_before before limit ss)
  unfolding drop_before
  drop_before-IsSorted limit [] o = tt
  drop_before-IsSorted limit (s ∷ ss) o = elim (Bool-cases (before s.timestamp limit)) [
    | inl e ↦ rw e (drop_before-IsSorted limit ss o.1)
    | inr e ↦ rw e o
  ]

  -- Where `before` is asymmetric and not being before is transitive, and the snapshots are sorted:
  -- `AddSnapshot` puts the new one at one place between them, keeps exactly those that are not before
  -- the limit, and leaves them sorted.
  pub add_snapshot-IsSorted :
      (cutoff : Time → Time) (snap : Snapshot Time State) (ss : List (Snapshot Time State))
      → IsSorted before ss
      → let added = add_snapshot before cutoff snap ss in
        IsSorted before added
        × ((front : List (Snapshot Time State)) × ((back : List (Snapshot Time State)) × ((ss
                  ≡ front ++ back)
                × (added
                    ≡ keep
                        (λ s. not (before s.timestamp (cutoff snap.timestamp)))
                        (front ++ (snap ∷ back))))))
  unfolding add_snapshot
  add_snapshot-IsSorted cutoff snap ss o =
      let limit = cutoff snap.timestamp in
      let inserted = insert_snapshot before snap ss in
      let sorted = insert-IsSorted snap ss o in
      let (front, (back, (whole, placed))) = insert-split snap ss in
      (
        drop_before-IsSorted limit inserted sorted,
        (
          front,
          (
            back,
            (
              whole,
              drop_before-keep limit inserted sorted
                  ∙ ap (keep (λ s. not (before s.timestamp limit))) placed,
            ),
          ),
        ),
      )
