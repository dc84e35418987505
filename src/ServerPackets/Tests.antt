-- ===== src/ServerPackets/Tests.antt =====
-- A concrete run of packets in the game.
use jam_client_prototype.Player.{Input, Player}
use jam_client_prototype.GameScene.{ActorInfo}
use jam_client_prototype.ServerPackets.{
  Caller, SessionRef, tcp_session, udp_session, s_enter_game, s_handshake, s_ack, game_scene,
  Client, Packet, s_room, s_spawn_actor, s_sync_actor, s_sync_time, s_hit_result,
}
use jam_client_prototype.Prelude.{ℕ, ◌+◌, ◌*◌, ◌^◌, true, false, none, some, List, [], ◌∷◌}

abbrev described : ℕ → ActorInfo ℕ ℕ
described id = record { id = id; transform = 100; color = none; sequence = some 2 }

abbrev hero : Player ℕ ℕ ℕ
hero = record {
  player_id = 1;
  pending_inputs = [];
  last_sequence_number = 3;
  pose = 0;
  view = 0;
  sent = [];
}

abbrev client : Client ℕ ℕ ℕ ℕ ℕ
client = record {
  user_id = 9;
  scene = some (record { actors = []; player = some hero });
  scene_type = game_scene;
  room_id = 0;
  is_in_room = false;
  is_in_game = false;
  mouse_visible = true;
  room_list = [];
  log = [];
}

abbrev walks : ℕ → Input ℕ → ℕ → ℕ
walks pose i view = view + i.keys

abbrev from : SessionRef → Caller
from session = record {
  session = session;
  has_service = true;
  creates_session = true;
  make_address = λ ip. some ip;
}

abbrev packets : List (Caller × Packet ℕ ℕ ℕ)
packets =
    (from tcp_session, s_room true 4)
    ∷ ((from tcp_session, s_enter_game true 8 7777)
        ∷ ((from udp_session, s_handshake true)
            ∷ ((from udp_session, s_ack 70000 1)
                ∷ ((
                  from udp_session,
                  s_spawn_actor 1 (described 1 ∷ (described (3 * 2 ^ 28) ∷ (described 5 ∷ []))),
                )
                    ∷ ((from udp_session, s_sync_actor 9 (described 1 ∷ (described 5 ∷ [])))
                        ∷ ((from udp_session, s_sync_time)
                            ∷ ((from udp_session, s_hit_result 8) ∷ [])))))))
