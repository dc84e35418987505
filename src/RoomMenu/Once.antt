-- ===== src/RoomMenu/Once.antt =====
-- How often the room menu of DummyClient/Renderer.cpp asks to enter the game.
use jam_client_prototype.ServerPackets.Handled.{IsServed, handle_s_enter_game-IsServed}
use jam_client_prototype.Prelude.{
  ℕ, suc, ◌+◌, ◌≤◌, ◌≡◌, refl, ap, ◌∙◌, inl, inr, Bool, true, false, none, some, List, [], ◌∷◌,
  ◌++◌, arith, if◌then◌else◌, Bool-cases, Option-cases,
}
use jam_client_prototype.Prelude.Maps.{find}
use jam_client_prototype.SendBuffer.{Outcome, ok, crash, ◌>>=◌}
use jam_client_prototype.GameScene.{GameScene}
use jam_client_prototype.ServerPackets.{handle_s_room, handle_s_enter_game, handle_s_sync_roomlist}
use jam_client_prototype.RoomMenu.{
  Menu, Clicks, MenuPacket, c_create_room, c_enter_room, c_enter_game, MenuEvent, frame, s_room,
  s_sync_roomlist, s_enter_game, send_packet, draw_create, draw_start, list_players, draw_rooms,
  draw_room_ui, draw_debuggin_ui, draw_ui, step_menu, run_menu,
}

-- The computation does not crash, and its result has the property.
abbrev pub Yields {ℓ κ} : {A : Type ℓ} → (A → Type κ) → Outcome A → Type (ℓ ⊔ κ)
Yields P r = (a : _) × (r ≡ ok a) × P a

Yields-bind {ℓ κ ℓ' κ'} :
    {A : Type ℓ} {B : Type ℓ'} (P : A → Type κ) (Q : B → Type κ') (r : Outcome A)
    (f : A → Outcome B)
    → Yields P r
    → ((a : A) → P a → Yields Q (f a))
    → Yields Q (r >>= f)
Yields-bind P Q r f (a, e, p) k = rw e (k a p)

-- The requests to enter the game among the packets sent
unfoldable pub entered : List MenuPacket → ℕ
entered [] = 0
entered (c_enter_game ∷ ps) = suc (entered ps)
entered (c_create_room ∷ ps) = entered ps
entered (c_enter_room room_id ∷ ps) = entered ps

entered-append :
    (ps : List MenuPacket) (p : MenuPacket)
    → entered (ps ++ (p ∷ [])) ≡ entered ps + entered (p ∷ [])
unfolding entered
entered-append [] p = omega arith
entered-append (c_enter_game ∷ ps) p = omega (arith, entered-append ps p)
entered-append (c_create_room ∷ ps) p = entered-append ps p
entered-append (c_enter_room room_id ∷ ps) p = entered-append ps p

-- An accepted entry into the game is served.
abbrev pub IsPlain : MenuEvent → Type 0
IsPlain (s_enter_game caller true ip port) = IsServed caller ip
IsPlain e = Unit {0}

abbrev pub ArePlain : List MenuEvent → Type 0
ArePlain [] = Unit {0}
ArePlain (e ∷ es) = IsPlain e × ArePlain es

abbrev remaining : Bool → ℕ
remaining true = 0
remaining false = 1

remaining_le : (b : Bool) → remaining b ≤ 1
remaining_le true = omega arith
remaining_le false = omega arith

module _ {Time Keys Pose View Color : Type 0} where
  -- There is a scene, and the requests sent, with the one that may still come, are at most `n`.
  abbrev pub IsWithin : ℕ → Menu Time Keys Pose View Color → Type 0
  IsWithin n m =
      ((s : GameScene Time Keys Pose View Color) × (m.client.scene ≡ some s))
      × (entered m.sent + remaining m.client.is_in_game ≤ n)

  send_packet-IsWithin :
      (n : ℕ) (p : MenuPacket) (m : Menu Time Keys Pose View Color)
      → entered (p ∷ []) ≡ 0
      → IsWithin n m
      → Yields (IsWithin n) (send_packet true p m)
  unfolding send_packet
  send_packet-IsWithin n p m e (scene, h) = (
    record m { sent = m.sent ++ (p ∷ []) },
    refl,
    (scene, omega (arith, entered-append m.sent p)),
  )

  draw_create-IsWithin :
      (n : ℕ) (clicks : Clicks) (m : Menu Time Keys Pose View Color)
      → IsWithin n m
      → Yields (IsWithin n) (draw_create true clicks m)
  unfolding draw_create entered
  draw_create-IsWithin n clicks m h = elim (Bool-cases m.client.is_in_room) [
    | inl e ↦ simp e (m, refl, h)
    | inr e ↦ elim (Bool-cases clicks.room_create) [
      | inl e' ↦ simp (e, e') (send_packet-IsWithin n c_create_room m refl h)
      | inr e' ↦ simp (e, e') (m, refl, h)
    ]
  ]

  draw_rooms-IsWithin :
      (n : ℕ) (clicks : Clicks) (rooms : List (ℕ × List ℕ)) (m : Menu Time Keys Pose View Color)
      → IsWithin n m
      → Yields (IsWithin n) (draw_rooms true clicks rooms m)
  unfolding draw_rooms entered
  draw_rooms-IsWithin n clicks [] m h = (m, refl, h)
  draw_rooms-IsWithin n clicks ((room_id, players) ∷ rooms) m h =
      elim (Bool-cases (clicks.enter room_id)) [
        | inl e ↦ simp e (
            Yields-bind (IsWithin n) (IsWithin n) (send_packet true (c_enter_room room_id) m)
              (draw_rooms true clicks rooms)
              (send_packet-IsWithin n (c_enter_room room_id) m refl h)
              (draw_rooms-IsWithin n clicks rooms))
        | inr e ↦ simp e (draw_rooms-IsWithin n clicks rooms m h)
      ]

  draw_start-IsWithin :
      (n : ℕ) (clicks : Clicks) (m : Menu Time Keys Pose View Color)
      → m.client.is_in_game ≡ false
      → IsWithin n m
      → Yields (IsWithin n) (draw_start true clicks m)
  unfolding draw_start send_packet entered
  draw_start-IsWithin n clicks m out (scene, h) = elim (Bool-cases clicks.game_start) [
    | inl e ↦ simp e (
      record m {
        sent = m.sent ++ (c_enter_game ∷ []);
        client = record m.client { is_in_game = true };
      },
      refl,
      (
        scene,
        let may : remaining m.client.is_in_game ≡ 1 = ap remaining out in
            omega (arith, h, may, entered-append m.sent c_enter_game),
      ),
    )
    | inr e ↦ simp e (m, refl, (scene, h))
  ]

  list_players-IsWithin :
      (n : ℕ) (m : Menu Time Keys Pose View Color) → IsWithin n m → IsWithin n (list_players m)
  unfolding list_players
  list_players-IsWithin n m h = elim (Option-cases (find m.client.room_id m.client.room_list)) [
    | inl e ↦ rw (list_players, e) h
    | inr (players, e) ↦ rw (list_players, e) h
  ]

  draw_room_ui-IsWithin :
      (n : ℕ) (clicks : Clicks) (m : Menu Time Keys Pose View Color)
      → IsWithin n m
      → Yields (IsWithin n) (draw_room_ui true clicks m)
  unfolding draw_room_ui
  draw_room_ui-IsWithin n clicks m h =
      Yields-bind (IsWithin n) (IsWithin n) (draw_create true clicks m) _
        (draw_create-IsWithin n clicks m h)
        λ m k. elim (Bool-cases m.client.is_in_room) [
          | inl e ↦ elim (Bool-cases m.client.is_in_game) [
            | inl e' ↦ simp (e, e') (list_players m, refl, list_players-IsWithin n m k)
            | inr e' ↦ simp (e, e') (draw_start-IsWithin n clicks m e' k)
          ]
          | inr e ↦ simp e (draw_rooms-IsWithin n clicks m.client.room_list m k)
        ]

  draw_debuggin_ui-IsWithin :
      (n : ℕ) (clicks : Clicks) (m : Menu Time Keys Pose View Color)
      → IsWithin n m
      → Yields (IsWithin n) (draw_debuggin_ui clicks m)
  unfolding draw_debuggin_ui
  draw_debuggin_ui-IsWithin n clicks m ((s, e), h) =
      let after : Menu Time Keys Pose View Color =
        if clicks.exit then record m { running = false } else m in
      let passes : draw_debuggin_ui clicks m ≡ ok after =
        ap (λ o. elim o [ none ↦ crash | some _ ↦ ok after ]) e in
      elim (Bool-cases clicks.exit) [
        | inl e' ↦ (record m { running = false }, passes ∙ simp e' refl, ((s, e), h))
        | inr e' ↦ (m, passes ∙ simp e' refl, ((s, e), h))
      ]

  step_menu-IsWithin :
      (n : ℕ) (e : MenuEvent) (m : Menu Time Keys Pose View Color)
      → IsPlain e
      → IsWithin n m
      → Yields (IsWithin n) (step_menu e m)
  unfolding step_menu draw_ui handle_s_room handle_s_enter_game handle_s_sync_roomlist
  step_menu-IsWithin n (frame clicks) m plain h =
      Yields-bind (IsWithin n) (IsWithin n) (draw_debuggin_ui clicks m) (draw_room_ui true clicks)
        (draw_debuggin_ui-IsWithin n clicks m h) (draw_room_ui-IsWithin n clicks)
  step_menu-IsWithin n (s_room true room_id) m plain h = (_, refl, h)
  step_menu-IsWithin n (s_room false room_id) m plain h = (_, refl, h)
  step_menu-IsWithin n (s_sync_roomlist infos) m plain h = (_, refl, h)
  step_menu-IsWithin n (s_enter_game caller true ip port) m served h =
      let (d, (e, k)) =
        handle_s_enter_game-IsServed (λ d. IsWithin n (record m { client = d })) caller ip port
          m.client served (λ log. h) in
      (record m { client = d }, rw e refl, k)
  step_menu-IsWithin n (s_enter_game caller false ip port) m served h = (_, refl, h)

  run_menu-keeps :
      (n : ℕ) (es : List MenuEvent) (m : Menu Time Keys Pose View Color)
      → ArePlain es
      → IsWithin n m
      → Yields (IsWithin n) (run_menu es m)
  unfolding run_menu
  run_menu-keeps n [] m plain h = (m, refl, h)
  run_menu-keeps n (e ∷ es) m plain h =
      Yields-bind (IsWithin n) (IsWithin n) (step_menu e m) (run_menu es)
        (step_menu-IsWithin n e m plain.0 h) (λ t. run_menu-keeps n es t plain.1)

  -- With a TCP session and a scene, a sequence of whole frames, whatever is pressed in them, and of
  -- whole handlers of the server's answers to the menu's requests, none during another, in which each
  -- accepted S_ENTER_GAME has an address that parses, a session, its service and a new UDP session,
  -- ends without a crash, and in all of it the client asks at most once to enter the game: not again
  -- after a refusal either.
  pub run_menu_once :
      (es : List MenuEvent) (m : Menu Time Keys Pose View Color)
      (s : GameScene Time Keys Pose View Color)
      → ArePlain es
      → m.client.scene ≡ some s
      → (r : Menu Time Keys Pose View Color) × (run_menu es m ≡ ok r)
        × (entered r.sent ≤ entered m.sent + 1)
        × (m.client.is_in_game ≡ true → entered r.sent ≤ entered m.sent)
  run_menu_once es m s plain e =
      let start = entered m.sent + remaining m.client.is_in_game in
      let (r, run, (scene, h)) = run_menu-keeps start es m plain ((s, e), omega arith) in
      (
        r,
        run,
        omega (arith, h, remaining_le m.client.is_in_game),
        λ inside.
            let none_left : remaining m.client.is_in_game ≡ 0 = ap remaining inside in
            omega (arith, h, none_left),
      )
