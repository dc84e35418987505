-- ===== src/InputManager/Keys.antt =====
-- What the key field holds, and how often the pause key toggles.
use jam_client_prototype.Prelude.Maps.{member}
use jam_client_prototype.Prelude.Bits.{test_bit, set_bit, test_bit-set_bit, test_bit-zero}
use jam_client_prototype.InputManager.{
  pause_key, InputManager, fields, just_pressed, toggle_pause, update_key_field,
}
use jam_client_prototype.Prelude.{
  ℕ, zero, suc, ◌≡◌, refl, ap, ◌∙◌, inl, inr, Bool, ◌&&◌, ◌||◌, not, List, [], ◌∷◌, arith, ◌==◌,
  if◌then◌else◌, ==_iff, Bool-cases,
}

test_bit-fields :
    (is_down : ℕ → Bool) (keys : List ℕ) (field i : ℕ)
    → test_bit (fields is_down keys field) i ≡ (test_bit field i || (member i keys && is_down i))
unfolding fields member
test_bit-fields is_down [] field i = ground arith
test_bit-fields is_down (key ∷ keys) field i =
    let next = if is_down key then set_bit field key else field in
    test_bit-fields is_down keys next i ∙ elim (Bool-cases (key == i)) [
      | inl e ↦
          let same : is_down key ≡ is_down i = ap is_down ((==_iff key i).0 e) in
          ground (arith, same, test_bit-set_bit field key i)
      | inr e ↦ ground (arith, test_bit-set_bit field key i)
    ]

-- The times that the pause key goes down, and a Boolean turned over so often.
abbrev pub presses : Bool → List (ℕ → Bool) → ℕ
presses was_down [] = 0
presses was_down (is_down ∷ frames) =
    let rest = presses (is_down pause_key) frames in
    if is_down pause_key && not was_down then suc rest else rest

abbrev pub turned : ℕ → Bool → Bool
turned zero b = b
turned (suc n) b = turned n (not b)

presses-cons :
    (was_down b : Bool) (is_down : ℕ → Bool) (frames : List (ℕ → Bool))
    → turned (presses (is_down pause_key) frames) (turned (presses was_down (is_down ∷ [])) b)
      ≡ turned (presses was_down (is_down ∷ frames)) b
presses-cons was_down b is_down frames = elim (Bool-cases (is_down pause_key && not was_down)) [
  | inl e ↦ rw (presses, e) refl
  | inr e ↦ rw (presses, e) refl
]

module _ {Look : Type 0} where
  -- `UpdateKeyField` at each state of the keys in turn.
  abbrev pub run_keys : List ℕ → List (ℕ → Bool) → InputManager Look → InputManager Look
  run_keys keys [] m = m
  run_keys keys (is_down ∷ frames) m = run_keys keys frames (update_key_field keys is_down m)

  -- Bit `i` of the field is set exactly when the key `i` is one of the map's and down, in whatever
  -- order the map lists its keys, and the pause is turned over exactly when the pause key goes down.
  pub update_key_field_lem :
      (keys : List ℕ) (is_down : ℕ → Bool) (i : ℕ) (m : InputManager Look)
      → let n = update_key_field keys is_down m in
        (test_bit n.key_field i ≡ (member i keys && is_down i))
        × ((n.pause ≡ turned (presses (m.prev_key_states pause_key) (is_down ∷ [])) m.pause)
            × (n.prev_key_states pause_key ≡ is_down pause_key))
  unfolding update_key_field just_pressed toggle_pause
  update_key_field_lem keys is_down i m =
      let bits : test_bit (fields is_down keys 0) i ≡ (member i keys && is_down i) =
        test_bit-fields is_down keys 0 i ∙ ground (arith, test_bit-zero i) in
      elim (Bool-cases (is_down pause_key && not (m.prev_key_states pause_key))) [
        | inl e ↦ rw e (bits, (refl, refl))
        | inr e ↦ rw e (bits, (refl, refl))
      ]

  -- Over any states of the keys, the pause is turned over once for each time its key goes down.
  pub run_keys-pause :
      (keys : List ℕ) (frames : List (ℕ → Bool)) (m : InputManager Look)
      → (run_keys keys frames m).pause
        ≡ turned (presses (m.prev_key_states pause_key) frames) m.pause
  run_keys-pause keys [] m = refl
  run_keys-pause keys (is_down ∷ frames) m =
      let n = update_key_field keys is_down m in
      let (_, (paused, known)) = update_key_field_lem keys is_down 0 m in
      run_keys-pause keys frames n
      ∙ ap (λ d. turned (presses d frames) n.pause) known
      ∙ ap (turned (presses (is_down pause_key) frames)) paused
      ∙ presses-cons (m.prev_key_states pause_key) m.pause is_down frames
