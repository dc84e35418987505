-- ===== src/ServerPackets/Handled.antt =====
-- Sequences of packets in the game, and what keeps their handlers from a crash.
use jam_client_prototype.Player.{Player}
use jam_client_prototype.SendBuffer.{Outcome, ok}
use jam_client_prototype.GameScene.{Actor, GameScene}
use jam_client_prototype.GameScene.Typed.{IsTyped, NoFloorId}
use jam_client_prototype.ServerPackets.{
  connects_udp, sends_handshake, Caller, tcp_session, is_null, s_ack, ClientEffect, Client, Packet,
  s_enter_game, s_handshake, s_sync_actor, handle_s_enter_game,
}
use jam_client_prototype.Prelude.{
  ℕ, ◌%◌, ◌^◌, ◌≡◌, refl, ◌≢◌, Bool, true, false, some, List, [], ◌∷◌, ◌++◌,
}

module _ {Time Keys Pose View Color : Type 0} where
  -- There is a scene with a player, and each actor is of the class of its id.
  abbrev pub IsReady : Client Time Keys Pose View Color → Type 0
  IsReady c =
      (actors : List (ℕ × Actor Time Pose Color)) × ((p : Player Keys Pose View) × ((c.scene
            ≡ some (record { actors = actors; player = some p }))
          × IsTyped actors))

  -- A handler ended, and the client is ready.
  abbrev pub Handles : Outcome (Bool × Client Time Keys Pose View Color) → Type 0
  Handles r = (b : Bool) × ((d : Client Time Keys Pose View Color) × ((r ≡ ok (b, d)) × IsReady d))

-- The caller has what an accepted `S_ENTER_GAME` with this address uses without a test.
abbrev pub IsServed : Caller → ℕ → Type 0
IsServed caller ip =
    (is_null caller.session ≡ false)
    × (caller.has_service ≡ true)
    × (caller.creates_session ≡ true)
    × ((address : ℕ) × (caller.make_address ip ≡ some address))

-- What a packet needs: it describes no floor as moving, an accepted handshake and an acknowledgement
-- do not come on a TCP session, and an accepted entry into the game is served.
abbrev pub IsFit : {Time Pose Color : Type 0} → Caller → Packet Time Pose Color → Type 0
IsFit caller (s_sync_actor timestamp infos) = NoFloorId infos
IsFit caller (s_enter_game true ip port) = IsServed caller ip
IsFit caller (s_handshake true) = caller.session ≢ tcp_session
IsFit caller (s_ack latest_sequence bitfield) = caller.session ≢ tcp_session
IsFit caller packet = Unit {0}

abbrev pub AreFit : {Time Pose Color : Type 0} → List (Caller × Packet Time Pose Color) → Type 0
AreFit [] = Unit {0}
AreFit ((caller, packet) ∷ packets) = IsFit caller packet × AreFit packets

-- A service that lacks nothing lets the client connect.
pub handle_s_enter_game-IsServed {ℓ} :
    {Time Keys Pose View Color : Type 0} (P : Client Time Keys Pose View Color → Type ℓ)
    (caller : Caller) (ip port : ℕ) (c : Client Time Keys Pose View Color)
    → IsServed caller ip
    → ((log : List ClientEffect) → P (record c { log = log }))
    → (d : Client Time Keys Pose View Color) × ((handle_s_enter_game caller true ip port c
          ≡ ok (true, d))
        × P d)
unfolding handle_s_enter_game
handle_s_enter_game-IsServed P caller ip port c (there, service, creates, (address, parses)) k =
    let log = c.log ++ (connects_udp address (port % 2 ^ 16) ∷ (sends_handshake c.user_id ∷ [])) in
    (
      record c { log = log },
      (rw (handle_s_enter_game, there, service, parses, creates) refl, k log),
    )
