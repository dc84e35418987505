-- ===== src/InputManager.antt =====
-- `InputManager` of DummyClient/InputManager.h and InputManager.cpp: the field of pressed keys, the
-- pause key and what is captured. A key is the number of its `EInputKey`; `is_down` stands for
-- `GetAsyncKeyState` of its virtual key. The keys of `INPUT_KEY_TO_VK` come in any order. Yaw and pitch
-- are of any type, and `differs` stands for `!=` on them.
pub mod Keys
mod Tests
use jam_client_prototype.Prelude.Bits.{set_bit}
use jam_client_prototype.Prelude.{
  ℕ, Bool, ◌&&◌, ◌||◌, not, Option, none, some, List, [], ◌∷◌, ◌==◌, if◌then◌else◌,
}

abbrev pub pause_key : ℕ
pause_key = 14

pub record InputManager (Look : Type 0) : Type 0 where
  pub pause : Bool
  pub mouse_visible : Bool
  pub key_field : ℕ
  pub last_sent_key_field : ℕ
  pub last_look : Look
  pub look : Look
  pub prev_key_states : ℕ → Bool

-- The loop of `UpdateKeyField`: `_keyField |= 1 << key` for each key that is down.
unfoldable pub fields : (ℕ → Bool) → List ℕ → ℕ → ℕ
fields is_down [] field = field
fields is_down (key ∷ keys) field =
    fields is_down keys (if is_down key then set_bit field key else field)

module _ {Look : Type 0} where
  unfoldable pub just_pressed : (ℕ → Bool) → ℕ → InputManager Look → Bool × InputManager Look
  just_pressed is_down key m = (
    is_down key && not (m.prev_key_states key),
    record m { prev_key_states = λ k. if k == key then is_down key else m.prev_key_states k },
  )

  unfoldable pub toggle_pause : InputManager Look → InputManager Look
  toggle_pause m = record m { pause = not m.pause; mouse_visible = not m.pause }

  unfoldable pub update_key_field : List ℕ → (ℕ → Bool) → InputManager Look → InputManager Look
  unfolding fields just_pressed toggle_pause
  update_key_field keys is_down m =
      let (pressed, n) =
        just_pressed is_down pause_key (record m { key_field = fields is_down keys 0 }) in
      if pressed then toggle_pause n else n

  -- `CaptureInput`: an input where something changed since the last one.
  unfoldable pub capture_input :
      (Look → Look → Bool) → InputManager Look → Option (ℕ × Look) × InputManager Look
  capture_input differs m =
      if not (m.key_field == m.last_sent_key_field) || differs m.look m.last_look
      then (
        some (m.key_field, m.look),
        record m { last_sent_key_field = m.key_field; last_look = m.look },
      )
      else (none, m)
