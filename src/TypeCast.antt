-- ===== src/TypeCast.antt =====
-- ClientNetworkCore/TypeCast.h: lists of types, the table of the conversions between them, and
-- the casts that read it. A type is named by a number; an index of -1 is `none`.
pub mod Table
pub mod Index
pub mod Cast
mod Tests
use jam_client_prototype.Prelude.{
  ℕ, zero, suc, ◌+◌, ◌*◌, Bool, true, false, ◌&&◌, Option, none, some, List, [], ◌∷◌, ltb, ◌==◌,
  if◌then◌else◌, length, get_or, set, replicate,
}

abbrev pub TypeList : Type 0
TypeList = List ℕ

-- `TypeAt`: past the end there is no such instance, and the program does not compile.
unfoldable pub type_at : TypeList → ℕ → Option ℕ
type_at [] i = none
type_at (head ∷ tail) zero = some head
type_at (head ∷ tail) (suc i) = type_at tail i

-- `(temp == -1) ? -1 : temp + 1`
unfoldable pub one_more : Option ℕ → Option ℕ
one_more none = none
one_more (some temp) = some (temp + 1)

unfoldable pub index_of : TypeList → ℕ → Option ℕ
index_of [] t = none
index_of (head ∷ tail) t = if head == t then some 0 else one_more (index_of tail t)

-- `s_convert`
abbrev pub Grid : Type 0
Grid = List (List Bool)

unfoldable pub write_entry : ℕ → ℕ → Bool → Grid → Grid
write_entry i j b grid = set grid i (set (get_or grid i []) j b)

unfoldable pub entry : Grid → ℕ → ℕ → Bool
entry grid i j = get_or (get_or grid i []) j false

-- Reading outside of the array is undefined.
unfoldable pub read_entry : Grid → ℕ → ℕ → Option Bool
read_entry grid i j =
    if ltb i (length grid) && ltb j (length (get_or grid i [])) then some (entry grid i j) else none

-- Static storage starts as zeros.
unfoldable pub zeros : TypeList → Grid
zeros types = replicate (length types) (replicate (length types) false)

unfoldable pub instances : TypeList → ℕ
instances types = length types * (length types + 1) + 1

-- An object of a class that `DECLARE_TL` gives a type id.
pub record Object : Type 0 where
  type_id : Option ℕ

-- `INIT_TL`: an int32, of -1 for a class that is not in its list.
unfoldable pub init_tl : TypeList → ℕ → Object
init_tl types class = record { type_id = index_of types class }

unfoldable pub cast_when : Object → Bool → Option Object
cast_when o true = some o
cast_when o false = none

-- `is_implicit a b`: the compiler converts an `a *` to a `b *`, and so selects
-- `Test(const To&)`, whose result is one byte, over `Test(...)`, whose result is four.
module _ (is_implicit : ℕ → ℕ → Bool) where
  unfoldable pub exists : ℕ → ℕ → Bool
  exists from to =
      let small : ℕ = 1 in let big : ℕ = 4 in (if is_implicit from to then small else big) == small

  unfoldable pub exists_at : Option ℕ → Option ℕ → Bool
  exists_at (some from) (some to) = exists from to
  exists_at _ _ = false

  -- The instances that `MakeTable` makes one after another; `fuel` is how many there may be.
  unfoldable pub make_table : ℕ → TypeList → ℕ → ℕ → Grid → Option Grid
  make_table zero types i j grid = none
  make_table (suc fuel) types i j grid = elim (i == length types) [
    | true ↦ some grid
    | false ↦ elim (j == length types) [
      | true ↦ make_table fuel types (i + 1) 0 grid
      | false ↦
          make_table fuel types i (j + 1)
            (write_entry i j (exists_at (type_at types i) (type_at types j)) grid)
    ]
  ]

  -- `CanConvert`: its first call runs the constructor.
  unfoldable pub can_convert : TypeList → Option ℕ → Option ℕ → Option Bool
  can_convert types none to = none
  can_convert types (some from) none = none
  can_convert types (some from) (some to) =
      elim (make_table (instances types) types 0 0 (zeros types)) [
        | none ↦ none
        | some grid ↦ read_entry grid from to
      ]

  -- `TypeCast` and `CanCast`, with the null pointer as `none`; the outer `none` is the read outside
  -- of the table.
  unfoldable pub type_cast : TypeList → ℕ → Option Object → Option (Option Object)
  type_cast types to none = some none
  type_cast types to (some o) = elim (can_convert types o.type_id (index_of types to)) [
    | none ↦ none
    | some b ↦ some (cast_when o b)
  ]

  unfoldable pub can_cast : TypeList → ℕ → Option Object → Option Bool
  can_cast types to none = some false
  can_cast types to (some o) = can_convert types o.type_id (index_of types to)
