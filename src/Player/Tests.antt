-- ===== src/Player/Tests.antt =====
-- A player whose drawn state is a number that each input is added to.
use jam_client_prototype.Player.{Input, Player, PlayerEvent, ticks, corrects, reconcile}
use jam_client_prototype.Prelude.{ℕ, ◌+◌, ◌≡◌, refl, none, some, List, [], ◌∷◌}

abbrev moves : ℕ → Input ℕ → ℕ → ℕ
moves pose i view = view + i.keys

abbrev snaps : ℕ → ℕ → ℕ
snaps pose view = pose

abbrev numbered : ℕ → ℕ → Input ℕ
numbered n keys = record { sequence = n; keys = keys }

abbrev runner : Player ℕ ℕ ℕ
runner = record {
  player_id = 1;
  pending_inputs = numbered 4 10 ∷ (numbered 5 20 ∷ (numbered 6 30 ∷ []));
  last_sequence_number = 7;
  pose = 0;
  view = 60;
  sent = [];
}

abbrev corrected : Player ℕ ℕ ℕ
corrected = reconcile moves snaps 100 5 runner

corrected-view : corrected.view ≡ 130
unfolding reconcile
corrected-view = refl

abbrev some_events : List (PlayerEvent ℕ ℕ)
some_events = ticks (some 40) ∷ (corrects 100 5 ∷ (ticks none ∷ (ticks (some 50) ∷ [])))
