-- ===== src/TypeCast/Table.antt =====
-- `TypeConversion<TL>::MakeTable` and `CanConvert` of ClientNetworkCore/TypeCast.h: what the table
-- holds when the instances have run.
use jam_client_prototype.Prelude.{
  ℕ, zero, suc, ◌+◌, ◌*◌, ◌≤◌, ◌<◌, ◌≡◌, refl, ◌∙◌, ◌⊎◌, inl, inr, Bool, false, Option, some, List,
  [], arith, dec_lt, ◌==◌, if◌then◌else◌, ==_iff, Bool-cases, length, get_or, set, replicate,
  length-set, length-replicate,
}
use mathlib.Core.Path.{subst}
use jam_client_prototype.Prelude.Maps.{get_or-set}
use jam_client_prototype.TypeCast.{
  Grid, TypeList, type_at, write_entry, entry, zeros, instances, exists_at, make_table,
}

unfoldable pub IsGrid : ℕ → Grid → Type 0
IsGrid n g = (length g ≡ n) × ((i : ℕ) → i < n → length (get_or g i []) ≡ n)

row-write_entry :
    (g : Grid) (i j a : ℕ) (b : Bool)
    → i < length g
    → get_or (write_entry i j b g) a []
      ≡ (if i == a then set (get_or g i []) j b else get_or g a [])
unfolding write_entry
row-write_entry g i j a b h = get_or-set g i a (set (get_or g i []) j b) [] h

write_entry-IsGrid :
    (n i j : ℕ) (b : Bool) (g : Grid) → i < n → IsGrid n g → IsGrid n (write_entry i j b g)
unfolding IsGrid write_entry
write_entry-IsGrid n i j b g h (l, rows) = (
  size,
  λ a k. elim (Bool-cases (i == a)) [
    | inl e ↦
        rw (row-write_entry g i j a b (omega arith), e) (length-set (get_or g i []) j b ∙ rows i h)
    | inr e ↦ rw (row-write_entry g i j a b (omega arith), e) (rows a k)
  ],
)
  where
    size : length (write_entry i j b g) ≡ n
    size = length-set g i (set (get_or g i []) j b) ∙ l

entry-write_entry :
    (n i j a c : ℕ) (b : Bool) (g : Grid)
    → i < n
    → j < n
    → IsGrid n g
    → entry (write_entry i j b g) a c
      ≡ (if i == a then (if j == c then b else entry g a c) else entry g a c)
unfolding entry IsGrid
entry-write_entry n i j a c b g h k (l, rows) = elim (Bool-cases (i == a)) [
  | inl e ↦
      let same : i ≡ a = (==_iff i a).0 e in
      rw (row-write_entry g i j a b (omega arith), e, ← same)
        (get_or-set (get_or g i []) j c b false (omega (arith, rows i h)))
  | inr e ↦ rw (row-write_entry g i j a b (omega arith), e) refl
]

-- The entries before row `i`, and those before column `j` of row `i`, agree with `f`.
unfoldable pub IsFilled : ℕ → (ℕ → ℕ → Bool) → ℕ → ℕ → Grid → Type 0
IsFilled n f i j g = (a c : ℕ) → a < n → c < n → (a < i) ⊎ ((a ≡ i) × (c < j)) → entry g a c ≡ f a c

next_row :
    (n : ℕ) (f : ℕ → ℕ → Bool) (i : ℕ) (g : Grid) → IsFilled n f i n g → IsFilled n f (i + 1) 0 g
unfolding IsFilled
next_row n f i g h a c l k before = h a c l k (ground (arith, before))

next_column :
    (n : ℕ) (f : ℕ → ℕ → Bool) (i j : ℕ) (g : Grid)
    → i < n
    → j < n
    → IsGrid n g
    → IsFilled n f i j g
    → IsFilled n f i (j + 1) (write_entry i j (f i j) g)
unfolding IsFilled
next_column n f i j g h k shape filled a c l m before =
    entry-write_entry n i j a c (f i j) g h k shape ∙ elim (Bool-cases (i == a)) [
      | inl e ↦ elim (Bool-cases (j == c)) [
        | inl e' ↦
            let same : i ≡ a = (==_iff i a).0 e in
            let same' : j ≡ c = (==_iff j c).0 e' in rw (e, e', same, same') refl
        | inr e' ↦ rw (e, e') (filled a c l m (ground (arith, before)))
      ]
      | inr e ↦ rw e (filled a c l m (ground (arith, before)))
    ]

row-zeros : (n i : ℕ) (row : List Bool) → i < n → get_or (replicate n row) i [] ≡ row
row-zeros zero i row h = absurd (omega arith)
row-zeros (suc n) zero row h = refl
row-zeros (suc n) (suc i) row h = row-zeros n i row (omega arith)

module _ (is_implicit : ℕ → ℕ → Bool) (types : TypeList) where
  abbrev pub wanted : ℕ → ℕ → Bool
  wanted a c = exists_at is_implicit (type_at types a) (type_at types c)

  unfoldable pub IsTable : Option Grid → Type 0
  IsTable r =
      (t : Grid) × (r ≡ some t)
      × IsGrid (length types) t
      × IsFilled (length types) wanted (length types) 0 t

  make_table-end :
      (fuel i j : ℕ) (g : Grid)
      → i ≡ length types
      → make_table is_implicit (suc fuel) types i j g ≡ some g
  unfolding make_table
  make_table-end fuel i j g e = rw (make_table, (==_iff i (length types)).1 e) refl

  make_table-next_row :
      (fuel i j : ℕ) (g : Grid)
      → i < length types
      → j ≡ length types
      → make_table is_implicit (suc fuel) types i j g
        ≡ make_table is_implicit fuel types (i + 1) 0 g
  unfolding make_table
  make_table-next_row fuel i j g h e =
      let more : (i == length types) ≡ false = ground arith in
      rw (make_table, more, (==_iff j (length types)).1 e) refl

  make_table-next_column :
      (fuel i j : ℕ) (g : Grid)
      → i < length types
      → j < length types
      → make_table is_implicit (suc fuel) types i j g
        ≡ make_table is_implicit fuel types i (j + 1) (write_entry i j (wanted i j) g)
  unfolding make_table
  make_table-next_column fuel i j g h k =
      let more : (i == length types) ≡ false = ground arith in
      let more' : (j == length types) ≡ false = ground arith in rw (make_table, more, more') refl

  -- As many instances as there are pairs, and one more for each row, end with the table.
  make_table-IsTable :
      (fuel k i j : ℕ) (g : Grid)
      → i + k ≡ length types
      → j ≤ length types
      → j ≤ k * (length types + 1)
      → k * (length types + 1) < fuel + j
      → IsGrid (length types) g
      → IsFilled (length types) wanted i j g
      → IsTable (make_table is_implicit fuel types i j g)
  unfolding IsTable
  make_table-IsTable zero k i j g e l m enough shape filled = absurd (omega arith)
  make_table-IsTable (suc fuel) zero i j g e l m enough shape filled =
      let at_end : i ≡ length types = omega arith in
      let first : j ≡ 0 = omega arith in
      (
        g,
        make_table-end fuel i j g at_end,
        shape,
        subst (λ a. IsFilled (length types) wanted a 0 g) at_end
            (subst (λ c. IsFilled (length types) wanted i c g) first filled),
      )
  make_table-IsTable (suc fuel) (suc k) i j g e l m enough shape filled =
      let row : suc k * (length types + 1) ≡ length types + 1 + k * (length types + 1) =
        omega arith in
      elim (dec_lt j (length types)) [
        | yes h ↦ rw (make_table-next_column fuel i j g (omega arith) h) (
            make_table-IsTable fuel (suc k) i (j + 1) (write_entry i j (wanted i j) g) e
              (omega arith) (omega (arith, row)) (omega arith)
              (write_entry-IsGrid (length types) i j (wanted i j) g (omega arith) shape)
              (next_column (length types) wanted i j g (omega arith) h shape filled))
        | no h ↦
            let last : j ≡ length types = omega arith in
            rw (make_table-next_row fuel i j g (omega arith) last) (
              make_table-IsTable fuel k (i + 1) 0 g (omega arith) (omega arith) (omega arith)
                (omega (arith, row)) shape
                (next_row (length types) wanted i g
                  (subst (λ c. IsFilled (length types) wanted i c g) last filled)))
      ]

  zeros-IsGrid : IsGrid (length types) (zeros types)
  unfolding IsGrid zeros
  zeros-IsGrid =
      let row = replicate (length types) false in
      (
        length-replicate (length types) row,
        λ i h. rw (row-zeros (length types) i row h) (length-replicate (length types) false),
      )

  -- The table is full when the constructor has run, and each entry is what the compiler says of the two types.
  pub instances-IsTable : IsTable (make_table is_implicit (instances types) types 0 0 (zeros types))
  unfolding instances IsFilled
  instances-IsTable =
      make_table-IsTable (instances types) (length types) 0 0 (zeros types) (omega arith)
        (omega arith) (omega arith) (omega arith) zeros-IsGrid
        (λ a c h k before. absurd (ground (arith, before)))
