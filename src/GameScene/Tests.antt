-- ===== src/GameScene/Tests.antt =====
-- A concrete scene: the player 1 and a remote actor 5, with numbers for what is drawn.
use jam_client_prototype.Prelude.Maps.{find}
use jam_client_prototype.Player.{Input, Player}
use jam_client_prototype.GameScene.{
  kind_of, remote_actor, Actor, ActorInfo, GameScene, spawn_all, sync_all,
}
use jam_client_prototype.GameScene.Spawn.{or_else, first_actor, last_player, spawn_all_lem}
use jam_client_prototype.GameScene.Typed.{find-IsTyped}
use jam_client_prototype.GameScene.Sync.{Synced, NoFloor, sync_all_lem}
use jam_client_prototype.Prelude.{
  ℕ, ◌+◌, ◌≡◌, refl, none, some, List, [], ◌∷◌, ltb, ◌==◌, if◌then◌else◌,
}

abbrev described : ℕ → ActorInfo ℕ ℕ
described id = record { id = id; transform = 100; color = none; sequence = some 2 }

abbrev here_already : List (ℕ × Actor ℕ ℕ ℕ)
here_already = (5, record { kind = remote_actor; pose = 7; color = 0; snapshots = [] }) ∷ []

abbrev hero : Player ℕ ℕ ℕ
hero = record {
  player_id = 1;
  pending_inputs = [];
  last_sequence_number = 3;
  pose = 0;
  view = 0;
  sent = [];
}

abbrev scene : GameScene ℕ ℕ ℕ ℕ ℕ
scene = record { actors = here_already; player = some hero }

abbrev packet : List (ActorInfo ℕ ℕ)
packet = described 1 ∷ (described 5 ∷ (described 6 ∷ []))

scene-free : find 1 scene.actors ≡ none
unfolding find
scene-free = refl

spawn_all_lem_example :
    let t = spawn_all 0 0 1 packet scene in
    (find 6 t.actors
      ≡ or_else (find 6 scene.actors) (if 6 == 1 then none else first_actor 0 6 packet))
    × (t.player ≡ last_player 0 1 packet scene.player)
spawn_all_lem_example = spawn_all_lem 0 0 1 6 packet scene scene-free

abbrev walks : ℕ → Input ℕ → ℕ → ℕ
walks pose i view = view + i.keys

scene-NoFloor : NoFloor ltb (λ t. t) walks (λ pose view. pose) 1 packet here_already
unfolding find kind_of
scene-NoFloor = (
  λ a e q. absurd (cc),
  (λ a e q. find-IsTyped 5 here_already a (refl, tt) q, (λ a e q. absurd (cc), tt)),
)

sync_all_lem_example :
    Synced ltb
      (λ t. t)
      walks
      (λ pose view. pose)
      9
      1
      packet
      here_already
      hero
      (sync_all ltb (λ t. t) walks (λ pose view. pose) 9 packet scene)
sync_all_lem_example =
    sync_all_lem ltb (λ t. t) walks (λ pose view. pose) 9 1 packet here_already hero refl
      scene-NoFloor
