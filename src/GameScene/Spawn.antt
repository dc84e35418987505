-- ===== src/GameScene/Spawn.antt =====
-- Which actors and which player `Handle_S_SPAWN_ACTOR` leaves.
use jam_client_prototype.Prelude.Maps.{assign, find, find-assign}
use jam_client_prototype.Player.{Player}
use jam_client_prototype.GameScene.{
  Actor, ActorInfo, GameScene, add_actor, make_player, make_actor, spawn, spawn_all,
}
use jam_client_prototype.Prelude.{
  ℕ, ◌≡◌, refl, sym, ap, ◌∙◌, inl, inr, Bool, true, false, Option, none, some, List, [], ◌∷◌, arith,
  ◌==◌, if◌then◌else◌, ==_iff, ==-refl, Bool-cases, Option-cases,
}

abbrev pub or_else {ℓ} : {A : Type ℓ} → Option A → Option A → Option A
or_else (some a) o = some a
or_else none o = o

or_else_assoc {ℓ} :
    {A : Type ℓ} (o p q : Option A) → or_else (or_else o p) q ≡ or_else o (or_else p q)
or_else_assoc (some a) p q = refl
or_else_assoc none p q = refl

or_else-none {ℓ} : {A : Type ℓ} (o : Option A) → or_else o none ≡ o
or_else-none (some a) = refl
or_else-none none = refl

or_else-if {ℓ} :
    {A : Type ℓ} (b c : Bool) (a : A) (o : Option A)
    → or_else (if b then none else if c then some a else none) (if b then none else o)
      ≡ (if b then none else if c then some a else o)
or_else-if true c a o = refl
or_else-if false true a o = refl
or_else-if false false a o = refl

-- The actor of the first description of an id, and the player of the last one.
abbrev pub first_actor :
    {Time Pose Color : Type 0}
    → Color
    → ℕ
    → List (ActorInfo Pose Color)
    → Option (Actor Time Pose Color)
first_actor no_color j [] = none
first_actor no_color j (info ∷ infos) =
    if info.id == j then some (make_actor no_color info) else first_actor no_color j infos

abbrev pub last_player :
    {Keys Pose View Color : Type 0}
    → View
    → ℕ
    → List (ActorInfo Pose Color)
    → Option (Player Keys Pose View)
    → Option (Player Keys Pose View)
last_player unseen j [] o = o
last_player unseen j (info ∷ infos) o =
    last_player unseen j infos (if info.id == j then some (make_player unseen info) else o)

module _ {Time Keys Pose View Color : Type 0} (unseen : View) (no_color : Color) where
  -- The branches of one round.
  pub spawn-there :
      (player_id : ℕ) (info : ActorInfo Pose Color) (s : GameScene Time Keys Pose View Color)
      (a : Actor Time Pose Color)
      → find info.id s.actors ≡ some a
      → spawn unseen no_color player_id info s ≡ s
  unfolding spawn
  spawn-there player_id info s a e = rw (spawn, e) refl

  pub spawn-player :
      (player_id : ℕ) (info : ActorInfo Pose Color) (s : GameScene Time Keys Pose View Color)
      → find info.id s.actors ≡ none
      → (info.id == player_id) ≡ true
      → spawn unseen no_color player_id info s
        ≡ record s { player = some (make_player unseen info) }
  unfolding spawn
  spawn-player player_id info s e q = rw (spawn, e, q) refl

  pub spawn-actor :
      (player_id : ℕ) (info : ActorInfo Pose Color) (s : GameScene Time Keys Pose View Color)
      → find info.id s.actors ≡ none
      → (info.id == player_id) ≡ false
      → spawn unseen no_color player_id info s
        ≡ record s { actors = assign info.id (make_actor no_color info) s.actors }
  unfolding spawn add_actor
  spawn-actor player_id info s e q = rw (spawn, e, q, add_actor, e) refl

  find-spawn :
      (player_id j : ℕ) (info : ActorInfo Pose Color) (s : GameScene Time Keys Pose View Color)
      → find j (spawn unseen no_color player_id info s).actors
        ≡ or_else (find j s.actors) (
            if j == player_id
            then none
            else if info.id == j
            then some (make_actor no_color info)
            else none)
  find-spawn player_id j info s = elim (Option-cases (find info.id s.actors)) [
    | inr there ↦
        rw (spawn-there player_id info s there.0 there.1) (elim (Option-cases (find j s.actors)) [
          | inr e ↦ rw e.1 refl
          | inl e ↦ rw e (ground (arith, there.1))
        ])
    | inl absent ↦ elim (Bool-cases (info.id == player_id)) [
      | inl q ↦ rw (spawn-player player_id info s absent q) (elim (Option-cases (find j s.actors)) [
        | inr e ↦ rw e.1 refl
        | inl e ↦ rw e (ground arith)
      ])
      | inr q ↦
          rw
            (
              spawn-actor player_id info s absent q,
              find-assign info.id j (make_actor no_color info) s.actors,
            )
            (elim (Option-cases (find j s.actors)) [
              | inr e ↦ rw e.1 (ground arith)
              | inl e ↦ rw e (ground arith)
            ])
    ]
  ]

  player-spawn :
      (player_id : ℕ) (info : ActorInfo Pose Color) (s : GameScene Time Keys Pose View Color)
      → find player_id s.actors ≡ none
      → (spawn unseen no_color player_id info s).player
        ≡ (if info.id == player_id then some (make_player unseen info) else s.player)
  player-spawn player_id info s free = elim (Bool-cases (info.id == player_id)) [
    | inl q ↦
        let same : info.id ≡ player_id = (==_iff info.id player_id).0 q in
        rw (spawn-player player_id info s (ap (λ j. find j s.actors) same ∙ free) q, q) refl
    | inr q ↦ elim (Option-cases (find info.id s.actors)) [
      | inr there ↦ rw (spawn-there player_id info s there.0 there.1, q) refl
      | inl absent ↦ rw (spawn-actor player_id info s absent q, q) refl
    ]
  ]

  -- After `Handle_S_SPAWN_ACTOR` an id that had an actor has the same; the id of the player gets
  -- none, and each other id gets that of its first description. The player, where its id is not that
  -- of an actor, is made anew from its last description, even if it is there already.
  pub spawn_all_lem :
      (player_id j : ℕ) (infos : List (ActorInfo Pose Color))
      (s : GameScene Time Keys Pose View Color)
      → find player_id s.actors ≡ none
      → let t = spawn_all unseen no_color player_id infos s in
        (find j t.actors
          ≡ or_else
              (find j s.actors)
              (if j == player_id then none else first_actor no_color j infos))
        × (t.player ≡ last_player unseen player_id infos s.player)
  unfolding spawn_all
  spawn_all_lem player_id j [] s free =
      (sym (or_else-none (find j s.actors)) ∙ ap (or_else (find j s.actors)) (ground arith), refl)
  spawn_all_lem player_id j (info ∷ infos) s free =
      let t = spawn unseen no_color player_id info s in
      let still : find player_id t.actors ≡ none =
        find-spawn player_id player_id info s ∙ rw (free, ==-refl player_id) refl in
      let (actors, player) = spawn_all_lem player_id j infos t still in
      (
        actors
            ∙ ap (λ o. or_else o (if j == player_id then none else first_actor no_color j infos))
                (find-spawn player_id j info s)
            ∙ or_else_assoc (find j s.actors) _ _
            ∙ ap (or_else (find j s.actors)) (or_else-if (j == player_id) (info.id == j) _ _),
        player ∙ ap (last_player unseen player_id infos) (player-spawn player_id info s free),
      )
