-- ===== src/ServerPackets.antt =====
-- The handlers of DummyClient/ServerPacketHandler.cpp and the singletons they change: `SessionManager`
-- and `SceneManager` of the files of these names. A handler returns what it returns in the source and
-- the client after it; the fields of a packet are its arguments. What goes out or to the session, and what is drawn or
-- printed beside the state, is appended to `log`.
pub mod Handled
mod Tests
use jam_client_prototype.Prelude.Maps.{assign, find}
use jam_client_prototype.Player.{Input, Player}
use jam_client_prototype.SendBuffer.{Outcome, ok, crash, ◌>>=◌}
use jam_client_prototype.GameScene.{
  on_receive_server_time, floor_prefix, actor_type, Actor, ActorInfo, GameScene, spawn_all,
  sync_all,
}
use jam_client_prototype.Prelude.{
  ℕ, ◌%◌, ◌^◌, Bool, true, false, ◌||◌, not, Option, none, some, List, [], ◌∷◌, ◌++◌, ◌==◌,
  if◌then◌else◌,
}

pub data SceneType : Type 0 where
  no_scene : SceneType
  game_scene : SceneType

pub data ClientEffect : Type 0 where
  connects_udp : ℕ → ℕ → ClientEffect
  sends_handshake : ℕ → ClientEffect
  sends_spawn_actor : ClientEffect
  handles_ack : ℕ → ℕ → ClientEffect
  fires_at : ℕ → ClientEffect
  sets_delays : List ℕ → ClientEffect

pub record Client (Time Keys Pose View Color : Type 0) : Type 0 where
  pub user_id : ℕ
  pub scene : Option (GameScene Time Keys Pose View Color)
  pub scene_type : SceneType
  pub room_id : ℕ
  pub is_in_room : Bool
  pub is_in_game : Bool
  pub mouse_visible : Bool
  pub room_list : List (ℕ × List ℕ)
  pub log : List ClientEffect

-- `rooms[roomId] = playerIdList` for each room of the packet.
unfoldable pub fill_rooms : List (ℕ × List ℕ) → List (ℕ × List ℕ) → List (ℕ × List ℕ)
unfolding assign
fill_rooms [] rooms = rooms
fill_rooms ((room_id, players) ∷ infos) rooms = fill_rooms infos (assign room_id players rooms)

-- The session that a packet came on, as the handlers see it: a null pointer, or its class.
pub data SessionRef : Type 0 where
  no_session : SessionRef
  tcp_session : SessionRef
  udp_session : SessionRef

unfoldable pub is_null : SessionRef → Bool
is_null no_session = true
is_null tcp_session = false
is_null udp_session = false

-- What a handler finds around it: the session, whether `GetService()` is there and its
-- `CreateSession` gives a UDP session, and Boost's `make_address`, which throws where it has no value.
-- No code catches the exception.
pub record Caller : Type 0 where
  pub session : SessionRef
  pub has_service : Bool
  pub creates_session : Bool
  pub make_address : ℕ → Option ℕ

module _ {Time Keys Pose View Color : Type 0} where
  unfoldable pub handle_s_login :
      ℕ → Client Time Keys Pose View Color → Bool × Client Time Keys Pose View Color
  handle_s_login user_id c =
      if user_id == 0 then (false, c) else (true, record c { user_id = user_id })

  -- `Handle_S_CREATE_ROOM` and `Handle_S_ENTER_ROOM` do the same.
  unfoldable pub handle_s_room :
      Bool → ℕ → Client Time Keys Pose View Color → Bool × Client Time Keys Pose View Color
  handle_s_room success room_id c =
      if success then (true, record c { room_id = room_id; is_in_room = true }) else (false, c)

  unfoldable pub handle_s_sync_roomlist :
      List (ℕ × List ℕ) → Client Time Keys Pose View Color → Bool × Client Time Keys Pose View Color
  unfolding fill_rooms
  handle_s_sync_roomlist infos c = (true, record c { room_list = fill_rooms infos [] })

  -- The port is cast to a `uint16`.
  unfoldable pub handle_s_enter_game :
      Caller
      → Bool
      → ℕ
      → ℕ
      → Client Time Keys Pose View Color
      → Outcome (Bool × Client Time Keys Pose View Color)
  unfolding is_null
  handle_s_enter_game caller success ip port c =
      if not success
      then ok (false, c)
      else if is_null caller.session || not caller.has_service
      then crash
      else elim (caller.make_address ip) [
        | none ↦ crash
        | some address ↦
            if caller.creates_session
            then ok (
              true,
              record c {
                log =
                    c.log
                    ++ (connects_udp address (port % 2 ^ 16) ∷ (sends_handshake c.user_id ∷ []));
              },
            )
            else crash
      ]

  -- A session of another class cast to `GameUdpSession` is undefined from its first use on.
  unfoldable pub handle_s_handshake :
      Caller
      → Bool
      → Client Time Keys Pose View Color
      → Outcome (Bool × Client Time Keys Pose View Color)
  handle_s_handshake caller success c = if not success then ok (false, c) else elim caller.session [
    | no_session ↦ ok (false, c)
    | tcp_session ↦ crash
    | udp_session ↦ ok (true, record c { log = c.log ++ (sends_spawn_actor ∷ []) })
  ]

  -- The sequence number is cast to a `uint16`; `HandleAck` of the session is called (ReliableUdp).
  unfoldable pub handle_s_ack :
      Caller
      → ℕ
      → ℕ
      → Client Time Keys Pose View Color
      → Outcome (Bool × Client Time Keys Pose View Color)
  handle_s_ack caller latest_sequence bitfield c = elim caller.session [
    | no_session ↦ ok (false, c)
    | tcp_session ↦ crash
    | udp_session ↦
        ok
          (true, record c { log = c.log ++ (handles_ack (latest_sequence % 2 ^ 16) bitfield ∷ []) })
  ]

  -- `SceneManager::ChangeScene`; `Init` of a new scene has no actors to reach.
  unfoldable pub change_scene :
      SceneType → Client Time Keys Pose View Color → Outcome (Client Time Keys Pose View Color)
  change_scene no_scene c = elim c.scene_type [
    | no_scene ↦ ok c
    | game_scene ↦ elim c.scene [ none ↦ crash | some _ ↦ ok (record c { scene_type = no_scene }) ]
  ]
  change_scene game_scene c = elim c.scene_type [
    | game_scene ↦ ok c
    | no_scene ↦
        ok (record c {
          scene = some (record { actors = []; player = none });
          scene_type = game_scene;
        })
  ]

  -- `SceneManager::Shutdown`
  unfoldable pub shutdown : Client Time Keys Pose View Color → Client Time Keys Pose View Color
  shutdown c = record c { scene = none; room_list = [] }

  -- `Handle_S_SYNC_TIME`, beside what `TimeManager` keeps.
  unfoldable pub handle_s_sync_time :
      Client Time Keys Pose View Color → Outcome (Bool × Client Time Keys Pose View Color)
  unfolding on_receive_server_time
  handle_s_sync_time c = elim c.scene [
    | none ↦ crash
    | some s ↦ on_receive_server_time s.actors >>= λ ids.
        ok (true, record c { log = c.log ++ (sets_delays ids ∷ []) })
  ]

  -- `Handle_S_HIT_RESULT`; `Fire` reads the player and adds to what is drawn.
  unfoldable pub handle_s_hit_result :
      ℕ → Client Time Keys Pose View Color → Outcome (Bool × Client Time Keys Pose View Color)
  handle_s_hit_result position c = elim c.scene [
    | none ↦ crash
    | some s ↦ elim s.player [
      | none ↦ crash
      | some _ ↦ ok (true, record c { log = c.log ++ (fires_at position ∷ []) })
    ]
  ]

module _ {Time Keys Pose View Color : Type 0} (unseen : View) (no_color : Color) where
  unfoldable pub handle_s_spawn_actor :
      ℕ
      → List (ActorInfo Pose Color)
      → Client Time Keys Pose View Color
      → Outcome (Bool × Client Time Keys Pose View Color)
  unfolding spawn_all
  handle_s_spawn_actor player_id infos c =
      let entered = record c { is_in_game = true; mouse_visible = false } in
      elim c.scene [
        | some s ↦
            ok (true, record entered { scene = some (spawn_all unseen no_color player_id infos s) })
        | none ↦ elim infos [ [] ↦ ok (true, entered) | _ ↦ crash ]
      ]

module _ {Time Keys Pose View Color : Type 0} (before : Time → Time → Bool) (cutoff : Time → Time)
    (apply : Pose → Input Keys → View → View) (correct : Pose → View → View) where
  unfoldable pub handle_s_sync_actor :
      Time
      → List (ActorInfo Pose Color)
      → Client Time Keys Pose View Color
      → Outcome (Bool × Client Time Keys Pose View Color)
  unfolding sync_all
  handle_s_sync_actor timestamp infos c = elim c.scene [
    | some s ↦ sync_all before cutoff apply correct timestamp infos s >>= λ t.
        ok (true, record c { scene = some t })
    | none ↦ elim infos [ [] ↦ ok (true, c) | _ ↦ crash ]
  ]

-- The packets of the server that these handlers serve.
pub data Packet (Time Pose Color : Type 0) : Type 0 where
  s_login : ℕ → Packet Time Pose Color
  s_room : Bool → ℕ → Packet Time Pose Color
  s_sync_roomlist : List (ℕ × List ℕ) → Packet Time Pose Color
  s_enter_game : Bool → ℕ → ℕ → Packet Time Pose Color
  s_handshake : Bool → Packet Time Pose Color
  s_ack : ℕ → ℕ → Packet Time Pose Color
  s_sync_time : Packet Time Pose Color
  s_hit_result : ℕ → Packet Time Pose Color
  s_spawn_actor : ℕ → List (ActorInfo Pose Color) → Packet Time Pose Color
  s_sync_actor : Time → List (ActorInfo Pose Color) → Packet Time Pose Color

module _ {Time Keys Pose View Color : Type 0} (unseen : View) (no_color : Color)
    (before : Time → Time → Bool) (cutoff : Time → Time) (apply : Pose → Input Keys → View → View)
    (correct : Pose → View → View) where
  unfoldable pub handle_packet :
      Caller
      → Packet Time Pose Color
      → Client Time Keys Pose View Color
      → Outcome (Bool × Client Time Keys Pose View Color)
  unfolding handle_s_login handle_s_room handle_s_sync_roomlist handle_s_enter_game
      handle_s_handshake handle_s_ack handle_s_sync_time handle_s_hit_result handle_s_spawn_actor
      handle_s_sync_actor
  handle_packet caller (s_login user_id) c = ok (handle_s_login user_id c)
  handle_packet caller (s_room success room_id) c = ok (handle_s_room success room_id c)
  handle_packet caller (s_sync_roomlist infos) c = ok (handle_s_sync_roomlist infos c)
  handle_packet caller (s_enter_game success ip port) c =
      handle_s_enter_game caller success ip port c
  handle_packet caller (s_handshake success) c = handle_s_handshake caller success c
  handle_packet caller (s_ack latest_sequence bitfield) c =
      handle_s_ack caller latest_sequence bitfield c
  handle_packet caller s_sync_time c = handle_s_sync_time c
  handle_packet caller (s_hit_result position) c = handle_s_hit_result position c
  handle_packet caller (s_spawn_actor player_id infos) c =
      handle_s_spawn_actor unseen no_color player_id infos c
  handle_packet caller (s_sync_actor timestamp infos) c =
      handle_s_sync_actor before cutoff apply correct timestamp infos c

  -- Each handler runs after the one before it has ended.
  unfoldable pub run_packets :
      List (Caller × Packet Time Pose Color)
      → Client Time Keys Pose View Color
      → Outcome (Client Time Keys Pose View Color)
  unfolding handle_packet
  run_packets [] c = ok c
  run_packets ((caller, packet) ∷ packets) c =
      handle_packet caller packet c >>= λ r. run_packets packets r.1
