-- ===== src/Prelude/Lists.antt =====
-- Lists measured and indexed by native numbers, under the library's names: C++ vectors, deques,
-- queues and byte arrays.
use Prim.Native.Nat.{ℕ, zero, suc, ◌+◌, ◌-◌, ◌≤◌, ◌<◌, min}
use mathlib.Core.Path.{◌≡◌, refl, sym, ap, ◌∙◌}
use mathlib.Core.Logic.{◌≢◌}
use mathlib.Core.List.{List, [], ◌∷◌, ◌++◌, append_assoc}
use mathlib.Core.Bool.{Bool, true, false}
use native.Mathlib.Omega.{arith}

module _ {ℓ} {A : Type ℓ} where
  abbrev pub length : List A → ℕ
  length [] = 0
  length (x ∷ xs) = suc (length xs)

  abbrev pub get_or : List A → ℕ → A → A
  get_or [] i d = d
  get_or (x ∷ xs) zero d = x
  get_or (x ∷ xs) (suc i) d = get_or xs i d

  -- A write out of bounds changes nothing.
  abbrev pub set : List A → ℕ → A → List A
  set [] i v = []
  set (x ∷ xs) zero v = v ∷ xs
  set (x ∷ xs) (suc i) v = x ∷ set xs i v

  abbrev pub take : ℕ → List A → List A
  take zero xs = []
  take (suc n) [] = []
  take (suc n) (x ∷ xs) = x ∷ take n xs

  abbrev pub drop : ℕ → List A → List A
  drop zero xs = xs
  drop (suc n) [] = []
  drop (suc n) (x ∷ xs) = drop n xs

  abbrev pub replicate : ℕ → A → List A
  replicate zero a = []
  replicate (suc n) a = a ∷ replicate n a

  pub length-append : (xs ys : List A) → length (xs ++ ys) ≡ length xs + length ys
  length-append [] ys = omega arith
  length-append (x ∷ xs) ys = omega (arith, length-append xs ys)

  pub length-take : (n : ℕ) (xs : List A) → length (take n xs) ≡ min n (length xs)
  length-take zero xs = omega arith
  length-take (suc n) [] = omega arith
  length-take (suc n) (x ∷ xs) = omega (arith, length-take n xs)

  pub length-drop : (n : ℕ) (xs : List A) → length (drop n xs) ≡ length xs - n
  length-drop zero xs = omega arith
  length-drop (suc n) [] = omega arith
  length-drop (suc n) (x ∷ xs) = omega (arith, length-drop n xs)

  pub length-set : (xs : List A) (i : ℕ) (v : A) → length (set xs i v) ≡ length xs
  length-set [] i v = refl
  length-set (x ∷ xs) zero v = refl
  length-set (x ∷ xs) (suc i) v = ap suc (length-set xs i v)

  pub length-replicate : (n : ℕ) (a : A) → length (replicate n a) ≡ n
  length-replicate zero a = refl
  length-replicate (suc n) a = ap suc (length-replicate n a)

  pub nil_of_length : (xs : List A) → length xs ≡ 0 → xs ≡ []
  nil_of_length [] h = refl
  nil_of_length (x ∷ xs) h = absurd (omega arith)

  pub take-append-drop : (n : ℕ) (xs : List A) → take n xs ++ drop n xs ≡ xs
  take-append-drop zero xs = refl
  take-append-drop (suc n) [] = refl
  take-append-drop (suc n) (x ∷ xs) = ap (λ t. x ∷ t) (take-append-drop n xs)

  pub get_or-set_self :
      (xs : List A) (i : ℕ) (v d : A) → i < length xs → get_or (set xs i v) i d ≡ v
  get_or-set_self [] i v d h = absurd (omega arith)
  get_or-set_self (x ∷ xs) zero v d h = refl
  get_or-set_self (x ∷ xs) (suc i) v d h = get_or-set_self xs i v d (omega arith)

  pub get_or-set_ne :
      (xs : List A) (i j : ℕ) (v d : A) → i ≢ j → get_or (set xs i v) j d ≡ get_or xs j d
  get_or-set_ne [] i j v d h = refl
  get_or-set_ne (x ∷ xs) zero zero v d h = absurd (h refl)
  get_or-set_ne (x ∷ xs) zero (suc j) v d h = refl
  get_or-set_ne (x ∷ xs) (suc i) zero v d h = refl
  get_or-set_ne (x ∷ xs) (suc i) (suc j) v d h = get_or-set_ne xs i j v d (λ e. h (ap suc e))

  pub get_or-replicate : (n i : ℕ) (a : A) → get_or (replicate n a) i a ≡ a
  get_or-replicate zero i a = refl
  get_or-replicate (suc n) zero a = refl
  get_or-replicate (suc n) (suc i) a = get_or-replicate n i a

  pub take-le : (n : ℕ) (xs ys : List A) → n ≤ length xs → take n (xs ++ ys) ≡ take n xs
  take-le zero xs ys h = refl
  take-le (suc n) [] ys h = absurd (omega arith)
  take-le (suc n) (x ∷ xs) ys h = ap (λ t. x ∷ t) (take-le n xs ys (omega arith))

  pub drop-le : (n : ℕ) (xs ys : List A) → n ≤ length xs → drop n (xs ++ ys) ≡ drop n xs ++ ys
  drop-le zero xs ys h = refl
  drop-le (suc n) [] ys h = absurd (omega arith)
  drop-le (suc n) (x ∷ xs) ys h = drop-le n xs ys (omega arith)

  pub take_all : (xs : List A) (n : ℕ) → length xs ≤ n → take n xs ≡ xs
  take_all [] zero h = refl
  take_all [] (suc n) h = refl
  take_all (x ∷ xs) zero h = absurd (omega arith)
  take_all (x ∷ xs) (suc n) h = ap (λ t. x ∷ t) (take_all xs n (omega arith))

  pub take-length : (xs ys : List A) (n : ℕ) → n ≡ length xs → take n (xs ++ ys) ≡ xs
  take-length xs ys n h = take-le n xs ys (omega arith) ∙ take_all xs n (omega arith)

  pub drop-length : (xs ys : List A) (n : ℕ) → n ≡ length xs → drop n (xs ++ ys) ≡ ys
  drop-length [] ys zero h = refl
  drop-length [] ys (suc n) h = absurd (omega arith)
  drop-length (x ∷ xs) ys zero h = absurd (omega arith)
  drop-length (x ∷ xs) ys (suc n) h = drop-length xs ys n (omega arith)

  pub drop-drop : (m n : ℕ) (xs : List A) → drop n (drop m xs) ≡ drop (m + n) xs
  drop-drop zero n xs = let e : n ≡ 0 + n = omega arith in ap (λ k. drop k xs) e
  drop-drop (suc m) zero [] = let e : suc m ≡ suc m + 0 = omega arith in ap (λ k. drop k []) e
  drop-drop (suc m) (suc n) [] =
      let e : suc (m + suc n) ≡ suc m + suc n = omega arith in ap (λ k. drop k []) e
  drop-drop (suc m) n (x ∷ xs) =
      let e : suc (m + n) ≡ suc m + n = omega arith in
      drop-drop m n xs ∙ ap (λ k. drop k (x ∷ xs)) e

  pub drop-take : (m n : ℕ) (xs : List A) → m ≤ n → drop m (take n xs) ≡ take (n - m) (drop m xs)
  drop-take zero n xs h = let e : n ≡ n - 0 = omega arith in ap (λ k. take k xs) e
  drop-take (suc m) zero xs h = absurd (omega arith)
  drop-take (suc m) (suc n) [] h = sym (take_all [] (suc n - suc m) (omega arith))
  drop-take (suc m) (suc n) (x ∷ xs) h =
      let e : n - m ≡ suc n - suc m = omega arith in
      drop-take m n xs (omega arith) ∙ ap (λ k. take k (drop m xs)) e

  pub take-take : (m n : ℕ) (xs : List A) → m ≤ n → take m (take n xs) ≡ take m xs
  take-take zero n xs h = refl
  take-take (suc m) zero xs h = absurd (omega arith)
  take-take (suc m) (suc n) [] h = refl
  take-take (suc m) (suc n) (x ∷ xs) h = ap (λ t. x ∷ t) (take-take m n xs (omega arith))

  pub take-add : (m n : ℕ) (xs : List A) → take (m + n) xs ≡ take m xs ++ take n (drop m xs)
  take-add zero n xs = let e : 0 + n ≡ n = omega arith in ap (λ k. take k xs) e
  take-add (suc m) n [] = take_all [] (suc m + n) (omega arith) ∙ sym (take_all [] n (omega arith))
  take-add (suc m) n (x ∷ xs) =
      let e : suc m + n ≡ suc (m + n) = omega arith in
      ap (λ k. take k (x ∷ xs)) e ∙ ap (λ t. x ∷ t) (take-add m n xs)

  -- Writing `ys` at the end of a window extends the window by `ys`.
  pub window-append :
      (r w : ℕ) (xs ys zs : List A)
      → r ≤ w
      → w ≤ length xs
      → take (w + length ys - r) (drop r (take w xs ++ (ys ++ zs))) ≡ take (w - r) (drop r xs) ++ ys
  window-append r w xs ys zs h k =
      let front : drop r (take w xs ++ (ys ++ zs)) ≡ (take (w - r) (drop r xs) ++ ys) ++ zs =
        drop-le r (take w xs) (ys ++ zs) (omega (arith, length-take w xs))
        ∙ ap (λ t. t ++ (ys ++ zs)) (drop-take r w xs h)
        ∙ sym (append_assoc (take (w - r) (drop r xs)) ys zs) in
      ap (take (w + length ys - r)) front
      ∙ take-length (take (w - r) (drop r xs) ++ ys) zs (w + length ys - r) (
          omega (
            arith,
            length-append (take (w - r) (drop r xs)) ys,
            length-take (w - r) (drop r xs),
            length-drop r xs,
          ))

  pub get_or-append :
      (xs ys : List A) (i : ℕ) (d : A) → i < length xs → get_or (xs ++ ys) i d ≡ get_or xs i d
  get_or-append [] ys i d h = absurd (omega arith)
  get_or-append (x ∷ xs) ys zero d h = refl
  get_or-append (x ∷ xs) ys (suc i) d h = get_or-append xs ys i d (omega arith)

  pub get_or-drop : (n i : ℕ) (xs : List A) (d : A) → get_or (drop n xs) i d ≡ get_or xs (n + i) d
  get_or-drop zero i xs d = ap (λ k. get_or xs k d) (omega arith)
  get_or-drop (suc n) i [] d = refl
  get_or-drop (suc n) i (x ∷ xs) d =
      let e : suc (n + i) ≡ suc n + i = omega arith in
      get_or-drop n i xs d ∙ ap (λ k. get_or (x ∷ xs) k d) e

  pub get_or-take : (n i : ℕ) (xs : List A) (d : A) → i < n → get_or (take n xs) i d ≡ get_or xs i d
  get_or-take zero i xs d h = absurd (omega arith)
  get_or-take (suc n) i [] d h = refl
  get_or-take (suc n) zero (x ∷ xs) d h = refl
  get_or-take (suc n) (suc i) (x ∷ xs) d h = get_or-take n i xs d (omega arith)

  -- `memcpy(&dst[at], src, length src)` into an array that holds the range.
  abbrev pub overwrite : List A → ℕ → List A → List A
  overwrite dst at src = take at dst ++ (src ++ drop (at + length src) dst)

  pub length-overwrite :
      (dst src : List A) (at : ℕ)
      → at + length src ≤ length dst
      → length (overwrite dst at src) ≡ length dst
  length-overwrite dst src at h = omega (
    arith,
    length-append (take at dst) (src ++ drop (at + length src) dst),
    length-append src (drop (at + length src) dst),
    length-take at dst,
    length-drop (at + length src) dst,
  )

  pub get_or-append_right :
      (xs ys : List A) (i : ℕ) (d : A)
      → length xs ≤ i
      → get_or (xs ++ ys) i d ≡ get_or ys (i - length xs) d
  get_or-append_right [] ys i d h = let e : i ≡ i - 0 = omega arith in ap (λ k. get_or ys k d) e
  get_or-append_right (x ∷ xs) ys zero d h = absurd (omega arith)
  get_or-append_right (x ∷ xs) ys (suc i) d h =
      let e : i - length xs ≡ suc i - suc (length xs) = omega arith in
      get_or-append_right xs ys i d (omega arith) ∙ ap (λ k. get_or ys k d) e

  -- What stands where after a `memcpy`.
  pub get_or-overwrite_in :
      (dst src : List A) (at i : ℕ) (d : A)
      → at + length src ≤ length dst
      → i < length src
      → get_or (overwrite dst at src) (at + i) d ≡ get_or src i d
  get_or-overwrite_in dst src at i d h l =
      let front : length (take at dst) ≡ at = omega (arith, length-take at dst) in
      let e : at + i - length (take at dst) ≡ i = omega arith in
      get_or-append_right (take at dst) (src ++ drop (at + length src) dst) (at + i) d (omega arith)
      ∙ ap (λ k. get_or (src ++ drop (at + length src) dst) k d) e
      ∙ get_or-append src (drop (at + length src) dst) i d l

  pub get_or-overwrite_before :
      (dst src : List A) (at i : ℕ) (d : A)
      → at ≤ length dst
      → i < at
      → get_or (overwrite dst at src) i d ≡ get_or dst i d
  get_or-overwrite_before dst src at i d h l =
      get_or-append (take at dst) (src ++ drop (at + length src) dst) i d
        (omega (arith, length-take at dst))
      ∙ get_or-take at i dst d l

  pub get_or-overwrite_after :
      (dst src : List A) (at i : ℕ) (d : A)
      → at + length src ≤ length dst
      → at + length src ≤ i
      → get_or (overwrite dst at src) i d ≡ get_or dst i d
  get_or-overwrite_after dst src at i d h l =
      let front : length (take at dst) ≡ at = omega (arith, length-take at dst) in
      let rest = drop (at + length src) dst in
      let e : at + length src + (i - length (take at dst) - length src) ≡ i = omega arith in
      get_or-append_right (take at dst) (src ++ rest) i d (omega arith)
      ∙ get_or-append_right src rest (i - length (take at dst)) d (omega arith)
      ∙ get_or-drop (at + length src) (i - length (take at dst) - length src) dst d
      ∙ ap (λ k. get_or dst k d) e

  -- Lists of one length that agree at each index are equal.
  pub list_ext :
      (xs ys : List A) (d : A)
      → length xs ≡ length ys
      → ((i : ℕ) → i < length xs → get_or xs i d ≡ get_or ys i d)
      → xs ≡ ys
  list_ext [] [] d h e = refl
  list_ext [] (y ∷ ys) d h e = absurd (omega arith)
  list_ext (x ∷ xs) [] d h e = absurd (omega arith)
  list_ext (x ∷ xs) (y ∷ ys) d h e =
      ap (λ a. a ∷ xs) (e 0 (omega arith))
      ∙ ap (λ t. y ∷ t) (list_ext xs ys d (omega arith) (λ i l. e (suc i) (omega arith)))

  -- Whether a test holds of some element, and the elements that pass it.
  abbrev pub any : (A → Bool) → List A → Bool
  any p [] = false
  any p (x ∷ xs) = elim (p x) [ true ↦ true | false ↦ any p xs ]

  abbrev pub keep : (A → Bool) → List A → List A
  keep p [] = []
  keep p (x ∷ xs) = let rest = keep p xs in elim (p x) [ true ↦ x ∷ rest | false ↦ rest ]
