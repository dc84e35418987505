-- ===== src/InputManager/Tests.antt =====
-- A concrete state of the keys.
use jam_client_prototype.Prelude.Maps.{member}
use jam_client_prototype.Prelude.Bits.{test_bit}
use jam_client_prototype.InputManager.{pause_key, InputManager, update_key_field}
use jam_client_prototype.InputManager.Keys.{presses, turned, update_key_field_lem}
use jam_client_prototype.Prelude.{ℕ, ◌≡◌, Bool, false, ◌&&◌, ◌||◌, List, [], ◌∷◌, ◌==◌}

abbrev idle_input : InputManager ℕ
idle_input = record {
  pause = false;
  mouse_visible = false;
  key_field = 0;
  last_sent_key_field = 0;
  last_look = 0;
  look = 0;
  prev_key_states = λ _. false;
}

abbrev some_keys : List ℕ
some_keys = 3 ∷ (0 ∷ (14 ∷ []))

-- Keys 0 and 14 are down.
abbrev down : ℕ → Bool
down key = key == 0 || key == 14

abbrev updated_input : InputManager ℕ
updated_input = update_key_field some_keys down idle_input

update_key_field_lem_example :
    (test_bit updated_input.key_field 0 ≡ (member 0 some_keys && down 0))
    × ((updated_input.pause ≡ turned (presses false (down ∷ [])) false)
        × (updated_input.prev_key_states pause_key ≡ down pause_key))
update_key_field_lem_example = update_key_field_lem some_keys down 0 idle_input
