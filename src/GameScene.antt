-- ===== src/GameScene.antt =====
-- The game state that the packets of the server change, and its handlers: DummyClient/Scene.cpp,
-- GameScene.cpp, SceneManager.h, SceneManager.cpp, SessionManager.h, IdManager.cpp, the remote actors
-- of RemoteActor.cpp, and DummyClient/ServerPacketHandler.cpp. Actors are kept by their id. The
-- contents of a packet are arguments; a packed transform is of the type `Pose` that `SetTransform`
-- unpacks it to. A call on a null scene or player, and a floor used as a `RemoteActor`, are undefined
-- and modelled as `crash`.
pub mod Spawn
pub mod Sync
pub mod Typed
mod Tests
use jam_client_prototype.Prelude.Maps.{assign, find, erase}
use jam_client_prototype.MovementInterpolator.{Snapshot, add_snapshot}
use jam_client_prototype.Player.{Input, Player, reconcile}
use jam_client_prototype.SendBuffer.{Outcome, ok, crash, ◌>>=◌}
use jam_client_prototype.Prelude.{
  ℕ, ◌/◌, ◌%◌, ◌^◌, Bool, true, false, Option, none, some, List, [], ◌∷◌, ◌==◌, if◌then◌else◌,
}

-- `ActorTypePrefix::Floor` and `IdManager`.
abbrev pub floor_prefix : ℕ
floor_prefix = 3

unfoldable pub actor_type : ℕ → ℕ
actor_type actor_id = actor_id / 2 ^ 28

unfoldable pub actor_instance_id : ℕ → ℕ
actor_instance_id actor_id = actor_id % 2 ^ 28

pub data ActorKind : Type 0 where
  floor : ActorKind
  remote_actor : ActorKind

pub record Actor (Time Pose Color : Type 0) : Type 0 where
  pub kind : ActorKind
  pub pose : Pose
  pub color : Color
  pub snapshots : List (Snapshot Time Pose)

-- Which class an actor with the id is made of.
unfoldable pub kind_of : ℕ → ActorKind
unfolding actor_type
kind_of actor_id = if actor_type actor_id == floor_prefix then floor else remote_actor

-- `Protocol::ActorInfo`; `color` and `sequence` are there or not.
pub record ActorInfo (Pose Color : Type 0) : Type 0 where
  pub id : ℕ
  pub transform : Pose
  pub color : Option Color
  pub sequence : Option ℕ

pub record GameScene (Time Keys Pose View Color : Type 0) : Type 0 where
  pub actors : List (ℕ × Actor Time Pose Color)
  pub player : Option (Player Keys Pose View)

module _ {Time Keys Pose View Color : Type 0} where
  -- `Scene::AddActor`, `RemoveActor` and `GetActorByActorId`; `insert` leaves an actor that is there.
  unfoldable pub add_actor :
      ℕ
      → Actor Time Pose Color
      → GameScene Time Keys Pose View Color
      → GameScene Time Keys Pose View Color
  unfolding find assign
  add_actor actor_id a s = elim (find actor_id s.actors) [
    | none ↦ record s { actors = assign actor_id a s.actors }
    | some _ ↦ s
  ]

  unfoldable pub remove_actor :
      ℕ → GameScene Time Keys Pose View Color → GameScene Time Keys Pose View Color
  unfolding erase
  remove_actor actor_id s = record s { actors = erase actor_id s.actors }

-- The drawn state of a player that is just made, and the colour where the packet has none.
abbrev pub color_of : {Pose Color : Type 0} → Color → ActorInfo Pose Color → Color
color_of no_color info = elim info.color [ none ↦ no_color | some c ↦ c ]

unfoldable pub make_player :
    {Keys Pose View Color : Type 0} → View → ActorInfo Pose Color → Player Keys Pose View
make_player unseen info = record {
  player_id = info.id;
  pending_inputs = [];
  last_sequence_number = 0;
  pose = info.transform;
  view = unseen;
  sent = [];
}

unfoldable pub make_actor :
    {Time Pose Color : Type 0} → Color → ActorInfo Pose Color → Actor Time Pose Color
unfolding kind_of
make_actor no_color info = record {
  kind = kind_of info.id;
  pose = info.transform;
  color = color_of no_color info;
  snapshots = [];
}

module _ {Time Keys Pose View Color : Type 0} (unseen : View) (no_color : Color) where
  -- One round of the loop of `Handle_S_SPAWN_ACTOR`.
  unfoldable pub spawn :
      ℕ
      → ActorInfo Pose Color
      → GameScene Time Keys Pose View Color
      → GameScene Time Keys Pose View Color
  unfolding find add_actor make_player make_actor
  spawn player_id info s = elim (find info.id s.actors) [
    | some _ ↦ s
    | none ↦
        if info.id == player_id
        then record s { player = some (make_player unseen info) }
        else add_actor info.id (make_actor no_color info) s
  ]

  unfoldable pub spawn_all :
      ℕ
      → List (ActorInfo Pose Color)
      → GameScene Time Keys Pose View Color
      → GameScene Time Keys Pose View Color
  unfolding spawn
  spawn_all player_id [] s = s
  spawn_all player_id (info ∷ infos) s = spawn_all player_id infos (spawn player_id info s)

-- `RemoteActor::UpdateSnapshot`, and `Actor::SetColor` where the packet has a colour.
unfoldable pub update_snapshot :
    {Time Pose Color : Type 0}
    → (Time → Time → Bool)
    → (Time → Time)
    → Time
    → ActorInfo Pose Color
    → Actor Time Pose Color
    → Actor Time Pose Color
unfolding add_snapshot
update_snapshot before cutoff timestamp info a = record a {
  pose = info.transform;
  snapshots =
      add_snapshot before cutoff (record { timestamp = timestamp; state = info.transform })
        a.snapshots;
  color = elim info.color [ none ↦ a.color | some c ↦ c ];
}

module _ {Time Keys Pose View Color : Type 0} (before : Time → Time → Bool) (cutoff : Time → Time)
    (apply : Pose → Input Keys → View → View) (correct : Pose → View → View) where
  -- One round of the loop of `Handle_S_SYNC_ACTOR`.
  unfoldable pub sync :
      Time
      → ActorInfo Pose Color
      → GameScene Time Keys Pose View Color
      → Outcome (GameScene Time Keys Pose View Color)
  unfolding find assign update_snapshot reconcile
  sync timestamp info s = elim s.player [
    | none ↦ ok s
    | some p ↦ elim (info.id == p.player_id) [
      | true ↦ elim info.sequence [
        | none ↦ ok s
        | some seq ↦ ok (record s { player = some (reconcile apply correct info.transform seq p) })
      ]
      | false ↦ elim (find info.id s.actors) [
        | none ↦ ok s
        | some a ↦ elim a.kind [
          | floor ↦ crash
          | remote_actor ↦ ok (record s {
            actors = assign info.id (update_snapshot before cutoff timestamp info a) s.actors;
          })
        ]
      ]
    ]
  ]

  unfoldable pub sync_all :
      Time
      → List (ActorInfo Pose Color)
      → GameScene Time Keys Pose View Color
      → Outcome (GameScene Time Keys Pose View Color)
  unfolding sync
  sync_all timestamp [] s = ok s
  sync_all timestamp (info ∷ infos) s = sync timestamp info s >>= sync_all timestamp infos

-- `GameScene::OnReceiveServerTime`: the ids of the actors whose interpolation delay is set.
unfoldable pub on_receive_server_time :
    {Time Pose Color : Type 0} → List (ℕ × Actor Time Pose Color) → Outcome (List ℕ)
unfolding actor_type
on_receive_server_time [] = ok []
on_receive_server_time ((j, a) ∷ actors) =
    let rest = on_receive_server_time actors in
    if actor_type j == floor_prefix
    then rest
    else elim a.kind [ floor ↦ crash | remote_actor ↦ rest >>= λ ids. ok (j ∷ ids) ]
