-- ===== src/RoomMenu/Tests.antt =====
-- A user who starts the game twice, with a refusal between.
use jam_client_prototype.Prelude.{
  ℕ, ◌+◌, ◌≤◌, ◌≡◌, refl, Bool, true, false, none, some, List, [], ◌∷◌,
}
use jam_client_prototype.Prelude.Maps.{find}
use jam_client_prototype.SendBuffer.{Outcome, ok, crash}
use jam_client_prototype.GameScene.{GameScene}
use jam_client_prototype.ServerPackets.{tcp_session, game_scene, handle_s_room, handle_s_enter_game}
use jam_client_prototype.RoomMenu.{
  draw_rooms, Menu, MenuEvent, MenuPacket, c_create_room, c_enter_game, frame, s_room, s_enter_game,
  run_menu, step_menu, draw_ui, draw_debuggin_ui, draw_room_ui, draw_create, draw_start,
  send_packet, list_players,
}
use jam_client_prototype.RoomMenu.Once.{entered, run_menu_once}

abbrev arena : GameScene ℕ ℕ ℕ ℕ ℕ
arena = record { actors = []; player = none }

abbrev lobby : Menu ℕ ℕ ℕ ℕ ℕ
lobby = record {
  client = record {
    user_id = 1;
    scene = some arena;
    scene_type = game_scene;
    room_id = 0;
    is_in_room = false;
    is_in_game = false;
    mouse_visible = true;
    room_list = (7, 1 ∷ []) ∷ [];
    log = [];
  };
  sent = [];
  running = true;
}

abbrev presses : Bool → Bool → MenuEvent
presses create start =
    frame (record { room_create = create; game_start = start; enter = λ _. false; exit = false })

abbrev evening : List MenuEvent
evening =
    presses true false
    ∷ (s_room true 7
        ∷ (presses false true
            ∷ (s_enter_game
                  (record {
                    session = tcp_session;
                    has_service = true;
                    creates_session = true;
                    make_address = λ ip. none;
                  })
                  false 0 0
                ∷ (presses false true ∷ []))))

sent_in_evening : Outcome (Menu ℕ ℕ ℕ ℕ ℕ) → List MenuPacket
sent_in_evening (ok m) = m.sent
sent_in_evening crash = []

refused_for_good : sent_in_evening (run_menu evening lobby) ≡ c_create_room ∷ (c_enter_game ∷ [])
unfolding sent_in_evening run_menu step_menu draw_ui draw_debuggin_ui draw_room_ui draw_create
    send_packet draw_rooms handle_s_room draw_start handle_s_enter_game list_players find
refused_for_good = refl

run_menu_once_example :
    (r : Menu ℕ ℕ ℕ ℕ ℕ) × (run_menu evening lobby ≡ ok r)
    × (entered r.sent ≤ entered lobby.sent + 1)
    × (lobby.client.is_in_game ≡ true → entered r.sent ≤ entered lobby.sent)
run_menu_once_example = run_menu_once evening lobby arena (tt, (tt, (tt, (tt, (tt, tt))))) refl
