-- ===== src/RoomMenu.antt =====
-- `DrawDebugginUI` and `DrawRoomUI` of DummyClient/Renderer.cpp: the buttons by which the user enters
-- rooms and the game, on the client of ServerPackets. Which buttons are pressed in a frame is an
-- argument, as is whether `SessionManager` has a TCP session. A frame is one step, and so is a handler:
-- the source takes no lock around either, and they run on two threads.
pub mod Once
mod Tests
use jam_client_prototype.Prelude.{
  ℕ, Bool, true, false, none, some, List, [], ◌∷◌, ◌++◌, if◌then◌else◌,
}
use jam_client_prototype.Prelude.Maps.{assign, find}
use jam_client_prototype.SendBuffer.{Outcome, ok, crash, ◌>>=◌}
use jam_client_prototype.ServerPackets.{
  Caller, Client, handle_s_room, handle_s_enter_game, handle_s_sync_roomlist,
}

pub data MenuPacket : Type 0 where
  c_create_room : MenuPacket
  c_enter_room : ℕ → MenuPacket
  c_enter_game : MenuPacket

-- What `ImGui::Button` returns for each button in one frame.
pub record Clicks : Type 0 where
  pub room_create : Bool
  pub game_start : Bool
  pub enter : ℕ → Bool
  pub exit : Bool

pub record Menu (Time Keys Pose View Color : Type 0) : Type 0 where
  pub client : Client Time Keys Pose View Color
  pub sent : List MenuPacket
  pub running : Bool

module _ {Time Keys Pose View Color : Type 0} where
  -- `GetTcpSession()->Send(...)`, on a null pointer without a session
  unfoldable pub send_packet :
      Bool → MenuPacket → Menu Time Keys Pose View Color → Outcome (Menu Time Keys Pose View Color)
  send_packet true packet m = ok (record m { sent = m.sent ++ (packet ∷ []) })
  send_packet false packet m = crash

  unfoldable pub draw_create :
      Bool → Clicks → Menu Time Keys Pose View Color → Outcome (Menu Time Keys Pose View Color)
  draw_create session clicks m =
      if m.client.is_in_room
      then ok m
      else if clicks.room_create
      then send_packet session c_create_room m
      else ok m

  unfoldable pub draw_start :
      Bool → Clicks → Menu Time Keys Pose View Color → Outcome (Menu Time Keys Pose View Color)
  draw_start session clicks m =
      if clicks.game_start
      then (send_packet session c_enter_game m >>= λ sent.
          ok (record sent { client = record sent.client { is_in_game = true } }))
      else ok m

  -- `_roomList[_roomId]` makes an empty room where there is none.
  unfoldable pub list_players : Menu Time Keys Pose View Color → Menu Time Keys Pose View Color
  list_players m = elim (find m.client.room_id m.client.room_list) [
    | some _ ↦ m
    | none ↦ record m {
      client = record m.client { room_list = assign m.client.room_id [] m.client.room_list };
    }
  ]

  unfoldable pub draw_rooms :
      Bool
      → Clicks
      → List (ℕ × List ℕ)
      → Menu Time Keys Pose View Color
      → Outcome (Menu Time Keys Pose View Color)
  draw_rooms session clicks [] m = ok m
  draw_rooms session clicks ((room_id, players) ∷ rooms) m =
      if clicks.enter room_id
      then (send_packet session (c_enter_room room_id) m >>= draw_rooms session clicks rooms)
      else draw_rooms session clicks rooms m

  unfoldable pub draw_room_ui :
      Bool → Clicks → Menu Time Keys Pose View Color → Outcome (Menu Time Keys Pose View Color)
  draw_room_ui session clicks m = draw_create session clicks m >>= λ m.
      if m.client.is_in_room
      then if m.client.is_in_game then ok (list_players m) else draw_start session clicks m
      else draw_rooms session clicks m.client.room_list m

  -- `GetPlayer` of the current scene, without a test for null
  unfoldable pub draw_debuggin_ui :
      Clicks → Menu Time Keys Pose View Color → Outcome (Menu Time Keys Pose View Color)
  draw_debuggin_ui clicks m = elim m.client.scene [
    | none ↦ crash
    | some _ ↦ ok (if clicks.exit then record m { running = false } else m)
  ]

  unfoldable pub draw_ui :
      Bool → Clicks → Menu Time Keys Pose View Color → Outcome (Menu Time Keys Pose View Color)
  draw_ui session clicks m = draw_debuggin_ui clicks m >>= draw_room_ui session clicks

-- A whole frame, or the whole handler of a packet of the server that the menu depends on. The source
-- takes no lock around either.
pub data MenuEvent : Type 0 where
  frame : Clicks → MenuEvent
  s_room : Bool → ℕ → MenuEvent
  s_sync_roomlist : List (ℕ × List ℕ) → MenuEvent
  s_enter_game : Caller → Bool → ℕ → ℕ → MenuEvent

module _ {Time Keys Pose View Color : Type 0} where
  abbrev pub on_client :
      Bool × Client Time Keys Pose View Color
      → Menu Time Keys Pose View Color
      → Menu Time Keys Pose View Color
  on_client answer m = record m { client = answer.1 }

  unfoldable pub step_menu :
      MenuEvent → Menu Time Keys Pose View Color → Outcome (Menu Time Keys Pose View Color)
  step_menu (frame clicks) m = draw_ui true clicks m
  step_menu (s_room success room_id) m = ok (on_client (handle_s_room success room_id m.client) m)
  step_menu (s_sync_roomlist infos) m = ok (on_client (handle_s_sync_roomlist infos m.client) m)
  step_menu (s_enter_game caller success ip port) m =
      handle_s_enter_game caller success ip port m.client >>= λ answer. ok (on_client answer m)

  unfoldable pub run_menu :
      List MenuEvent → Menu Time Keys Pose View Color → Outcome (Menu Time Keys Pose View Color)
  run_menu [] m = ok m
  run_menu (e ∷ es) m = step_menu e m >>= run_menu es
