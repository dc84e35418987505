-- ===== src/Memory/Table.antt =====
-- The table of `Memory`: what the three loops of its constructor write.
use jam_client_prototype.Prelude.Maps.{get_or-set}
use jam_client_prototype.Memory.{
  no_pools, Memory, fill_table, add_pool, add_pools, create_memory, max_alloc_size,
}
use jam_client_prototype.Prelude.{
  ℕ, zero, suc, ◌+◌, ◌-◌, ◌≤◌, ◌<◌, ◌≡◌, refl, sym, ap, ◌∙◌, ◌⊎◌, inl, inr, Bool, true, ◌&&◌,
  Option, none, some, List, [], ◌∷◌, ◌++◌, arith, ltb, leb, ◌==◌, if◌then◌else◌, leb→le, Bool-cases,
  Option-cases, length, get_or, set, length-set, length-replicate, get_or-replicate,
}

-- The first pool of the list whose blocks hold `size` bytes.
abbrev pub first_fit : ℕ → List ℕ → Option ℕ
first_fit size [] = none
first_fit size (p ∷ ps) = if leb size p then some p else first_fit size ps

-- The table holds the first pool that fits, for the sizes below `tableIndex`, and nothing above.
record IsFilled (m : Memory) : Type 0 where
  size : length m.pool_table ≡ max_alloc_size + 1
  inside : m.table_index ≤ max_alloc_size + 1
  entries : (i : ℕ) → get_or m.pool_table i none ≡ first_fit i m.pools
  above : (i : ℕ) → m.table_index ≤ i → first_fit i m.pools ≡ none
  under : (i : ℕ) → i < m.table_index → (p : ℕ) × (first_fit i m.pools ≡ some p)

first_fit-append :
    (i p : ℕ) (ps : List ℕ)
    → first_fit i (ps ++ (p ∷ []))
      ≡ elim (first_fit i ps) [ none ↦ if leb i p then some p else none | some q ↦ some q ]
first_fit-append i p [] = refl
first_fit-append i p (q ∷ ps) = elim (Bool-cases (leb i q)) [
  | inl e ↦ rw e refl
  | inr e ↦ rw e (first_fit-append i p ps)
]

-- The inner loop writes the entries from `tableIndex` on.
fill_table_lem :
    (n p i : ℕ) (m : Memory)
    → m.table_index + n ≤ length m.pool_table
    → (get_or (fill_table n p m).pool_table i none ≡ (
        if leb m.table_index i && ltb i (m.table_index + n)
        then some p
        else get_or m.pool_table i none))
      × (((fill_table n p m).table_index ≡ m.table_index + n)
          × (((fill_table n p m).pools ≡ m.pools)
              × (length (fill_table n p m).pool_table ≡ length m.pool_table)))
unfolding fill_table
fill_table_lem zero p i m h = (ground arith, (omega arith, (refl, refl)))
fill_table_lem (suc n) p i m h =
    let next = record m {
      pool_table = set m.pool_table m.table_index (some p);
      table_index = m.table_index + 1;
    } in
    let same = length-set m.pool_table m.table_index (some p) in
    let (e, (t, (ps, l))) = fill_table_lem n p i next (omega (arith, same)) in
    (
      e ∙ ground (arith, get_or-set m.pool_table m.table_index i (some p) none),
      (omega (arith, t), (ps, l ∙ same)),
    )

-- The new pool serves the sizes that no pool before it holds.
module _ (p i : ℕ) (m : Memory) (f : IsFilled m) where
  added_entry :
      (if leb m.table_index i && ltb i (m.table_index + (p + 1 - m.table_index))
        then some p
        else get_or m.pool_table i none)
      ≡ first_fit i (m.pools ++ (p ∷ []))
  added_entry = elim (Option-cases (first_fit i m.pools)) [
    | inl e ↦ rw (first_fit-append i p m.pools, f.entries i, e) (ground (arith, f.under i))
    | inr e ↦ rw (first_fit-append i p m.pools, f.entries i, e.1) (ground (arith, f.above i))
  ]

  added_above :
      m.table_index + (p + 1 - m.table_index) ≤ i → first_fit i (m.pools ++ (p ∷ [])) ≡ none
  added_above l = rw (first_fit-append i p m.pools, f.above i (omega arith)) (ground arith)

  added_under :
      i < m.table_index + (p + 1 - m.table_index)
      → (q : ℕ) × (first_fit i (m.pools ++ (p ∷ [])) ≡ some q)
  added_under l = elim (Option-cases (first_fit i m.pools)) [
    | inl e ↦ (p, rw (first_fit-append i p m.pools, e) (ground (arith, f.under i)))
    | inr e ↦ (e.0, rw (first_fit-append i p m.pools, e.1) refl)
  ]

add_pool-IsFilled : (p : ℕ) (m : Memory) → p ≤ max_alloc_size → IsFilled m → IsFilled (add_pool p m)
unfolding add_pool
add_pool-IsFilled p m h f =
    let n = p + 1 - m.table_index in
    let longer : Memory = record m { pools = m.pools ++ (p ∷ []) } in
    let written = λ (i : ℕ). fill_table_lem n p i longer (omega (arith, f.size, f.inside)) in
    let index = (written 0).1.0 in
    let pools = (written 0).1.1.0 in
    let fits : (i : ℕ) → first_fit i (fill_table n p longer).pools ≡ _ =
      λ i. ap (first_fit i) pools ∙ first_fit-append i p m.pools in
    record {
      size = (written 0).1.1.1 ∙ f.size;
      inside = omega (arith, index, f.inside);
      entries = λ i. (written i).0 ∙ added_entry p i m f ∙ sym (ap (first_fit i) pools);
      above = λ i l. ap (first_fit i) pools ∙ added_above p i m f (omega (arith, index, l));
      under = λ i l.
          let a = added_under p i m f (omega (arith, index, l)) in
          (a.0, ap (first_fit i) pools ∙ a.1);
    }

add_pools-IsFilled :
    (fuel limit step size : ℕ) (m : Memory)
    → limit ≤ max_alloc_size
    → IsFilled m
    → IsFilled (add_pools fuel limit step size m).1
unfolding add_pools
add_pools-IsFilled zero limit step size m h f = f
add_pools-IsFilled (suc fuel) limit step size m h f = elim (Bool-cases (leb size limit)) [
  | inl e ↦
      let low : size ≤ max_alloc_size = omega (arith, leb→le size limit e, h) in
      rw (add_pools, e)
        (add_pools-IsFilled fuel limit step (size + step) (add_pool size m) h
          (add_pool-IsFilled size m low f))
  | inr e ↦ rw (add_pools, e) f
]

no_pools-IsFilled : IsFilled no_pools
no_pools-IsFilled =
    let unset : Option ℕ = none in
    record {
      size = length-replicate (max_alloc_size + 1) unset;
      inside = omega arith;
      entries = λ i. get_or-replicate (max_alloc_size + 1) i unset;
      above = λ i l. refl;
      under = λ i l. absurd (omega arith);
    }

create_memory-IsFilled : IsFilled create_memory.1
unfolding create_memory
create_memory-IsFilled =
    let (first, small) = add_pools 64 1024 32 32 no_pools in
    let (second, middle) = add_pools 64 2048 128 first small in
    add_pools-IsFilled 64 4096 256 second middle (omega arith) (
      add_pools-IsFilled 64 2048 128 first small (omega arith)
        (add_pools-IsFilled 64 1024 32 32 no_pools (omega arith) no_pools-IsFilled))

-- The distance between the pools around a size, as the loops have it.
unfoldable pub step_of : ℕ → ℕ
step_of p = if leb p 1024 then 32 else if leb p 2048 then 128 else 256

-- Each pool is at most a step above the one before, the first above `low`, and none is above `top`.
abbrev is_spaced : ℕ → ℕ → List ℕ → Bool
is_spaced low top [] = low == top
is_spaced low top (p ∷ ps) = leb p (low + step_of p) && is_spaced p top ps

first_fit-spaced :
    (low top i : ℕ) (ps : List ℕ)
    → is_spaced low top ps ≡ true
    → low < i
    → i ≤ top
    → (p : ℕ) × ((first_fit i ps ≡ some p) × ((i ≤ p) × (p < i + step_of p)))
first_fit-spaced low top i [] h l t = absurd (ground arith)
first_fit-spaced low top i (p ∷ ps) h l t = elim (Bool-cases (leb i p)) [
  | inl e ↦ (p, (rw e refl, (leb→le i p e, ground arith)))
  | inr e ↦
      let (q, (fits, bounds)) = first_fit-spaced p top i ps (ground arith) (ground arith) t in
      (q, (rw e fits, bounds))
]

abbrev is_under : ℕ → List ℕ → Bool
is_under top [] = true
is_under top (p ∷ ps) = leb p top && is_under top ps

first_fit-under :
    (top i : ℕ) (ps : List ℕ) → is_under top ps ≡ true → top < i → first_fit i ps ≡ none
first_fit-under top i [] h l = refl
first_fit-under top i (p ∷ ps) h l = ground (arith, first_fit-under top i ps)

-- The three loops end by their own tests, with `size` above the last limit, and make `POOL_COUNT`
-- pools; the largest has blocks of 3872 bytes.
pub create_memory-pools :
    (create_memory.0 ≡ 4128)
    × ((length create_memory.1.pools ≡ 48)
        × ((is_spaced 0 3872 create_memory.1.pools ≡ true)
            × (is_under 3872 create_memory.1.pools ≡ true)))
unfolding create_memory step_of
create_memory-pools = (refl, (refl, (refl, refl)))

-- The table leads each size from 1 to 3872 to a pool whose blocks hold it and are larger by less
-- than the step of that pool; a larger size, up to 4096 included, has no entry.
pub create_memory-table :
    (size : ℕ)
    → 0 < size
    → ((size ≤ 3872)
        × ((p : ℕ) × ((get_or create_memory.1.pool_table size none ≡ some p)
              × ((size ≤ p) × (p < size + step_of p)))))
      ⊎ ((3872 < size) × (get_or create_memory.1.pool_table size none ≡ none))
create_memory-table size h =
    let filled = create_memory-IsFilled.entries size in
    let (_, (_, (spaced, under))) = create_memory-pools in
    elim (Bool-cases (leb size 3872)) [
      | inl e ↦
          let l = leb→le size 3872 e in
          let (p, (fits, bounds)) = first_fit-spaced 0 3872 size create_memory.1.pools spaced h l in
          inl (l, (p, (filled ∙ fits, bounds)))
      | inr e ↦
          let l : 3872 < size = ground arith in
          inr (l, filled ∙ first_fit-under 3872 size create_memory.1.pools under l)
    ]
