-- ===== src/Framing/Split.antt =====
-- The reference for framing: a byte list is split into packets from the front, as long as a whole
-- packet with a size that covers its header stands there.
use jam_client_prototype.Prelude.{
  ℕ, ◌+◌, ◌≤◌, ◌≡◌, refl, ap, ◌∙◌, List, [], ◌∷◌, ◌++◌, append_assoc, arith, length, take, drop,
  length-append, take-append-drop, take-le, drop-le, get_or-append,
}
use jam_client_prototype.Framing.{read_u16}

-- A whole packet stands at the front.
abbrev pub Complete : ℕ → List ℕ → Type 0
Complete header xs = (header ≤ length xs) × (header ≤ read_u16 xs 0) × (read_u16 xs 0 ≤ length xs)

-- `Splits header xs ps rest`: `xs` is the packets `ps`, and then `rest`, at which no packet stands.
pub data Splits (header : ℕ) : List ℕ → List (List ℕ) → List ℕ → Type 0 where
  stop : {xs : List ℕ} → ¬ Complete header xs → Splits header xs [] xs
  packet :
      {xs rest : List ℕ} {ps : List (List ℕ)}
      → Complete header xs
      → Splits header (drop (read_u16 xs 0) xs) ps rest
      → Splits header xs (take (read_u16 xs 0) xs ∷ ps) rest

abbrev pub concat : List (List ℕ) → List ℕ
concat [] = []
concat (p ∷ ps) = p ++ concat ps

-- The packets and the rest make up the bytes.
pub concat-Splits :
    {header : ℕ} {xs rest : List ℕ} {ps : List (List ℕ)}
    → Splits header xs ps rest
    → concat ps ++ rest ≡ xs
concat-Splits (stop h) = refl
concat-Splits (packet {xs} {rest} {ps} c s) =
    append_assoc (take (read_u16 xs 0) xs) (concat ps) rest
    ∙ ap (λ t. take (read_u16 xs 0) xs ++ t) (concat-Splits s)
    ∙ take-append-drop (read_u16 xs 0) xs

-- What stands in front is a packet still when bytes are appended, and of the same size.
pub read_u16-append : (xs ys : List ℕ) → 2 ≤ length xs → read_u16 (xs ++ ys) 0 ≡ read_u16 xs 0
unfolding read_u16
read_u16-append xs ys h = omega (arith, get_or-append xs ys 0 0, get_or-append xs ys (0 + 1) 0)

Complete-append :
    (header : ℕ) (xs ys : List ℕ) → 2 ≤ header → Complete header xs → Complete header (xs ++ ys)
Complete-append header xs ys h c =
    omega (arith, read_u16-append xs ys (omega arith), length-append xs ys)

-- Splitting in two deliveries, the second with what the first left in front, gives the packets of
-- splitting the whole: TCP segment boundaries do not show.
pub Splits-append :
    {header : ℕ} {xs rest : List ℕ} {ps : List (List ℕ)}
    → 2 ≤ header
    → Splits header xs ps rest
    → (ys : List ℕ) {qs : List (List ℕ)} {last : List ℕ} → Splits header (rest ++ ys) qs last
    → Splits header (xs ++ ys) (ps ++ qs) last
Splits-append h (stop n) ys t = t
Splits-append {header} h (packet {xs} {rest} {ps} c s) ys {qs} {last} t =
    let same : read_u16 (xs ++ ys) 0 ≡ read_u16 xs 0 = read_u16-append xs ys (omega arith) in
    let cut : drop (read_u16 xs 0) (xs ++ ys) ≡ drop (read_u16 xs 0) xs ++ ys =
      drop-le (read_u16 xs 0) xs ys c.2 in
    let whole : Splits header (xs ++ ys) (take (read_u16 (xs ++ ys) 0) (xs ++ ys) ∷ (ps ++ qs))
        last =
      packet (Complete-append header xs ys h c) (rw (same, cut) (Splits-append h s ys t)) in
    let front : take (read_u16 (xs ++ ys) 0) (xs ++ ys) ≡ take (read_u16 xs 0) xs =
      ap (λ k. take k (xs ++ ys)) same ∙ take-le (read_u16 xs 0) xs ys c.2 in
    rw (front) at whole

-- A byte list splits in one way.
pub Splits-unique :
    {header : ℕ} {xs rest rest' : List ℕ} {ps ps' : List (List ℕ)}
    → Splits header xs ps rest
    → Splits header xs ps' rest'
    → (ps ≡ ps') × (rest ≡ rest')
Splits-unique (stop h) (stop k) = (refl, refl)
Splits-unique (stop h) (packet c t) = absurd (h c)
Splits-unique (packet c s) (stop k) = absurd (k c)
Splits-unique (packet {xs} c s) (packet d t) =
    let same = Splits-unique s t in (ap (λ q. take (read_u16 xs 0) xs ∷ q) same.0, same.1)
