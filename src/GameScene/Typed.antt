-- ===== src/GameScene/Typed.antt =====
-- Every actor is of the class that its id stands for, so that no cast of `OnReceiveServerTime` fails.
use jam_client_prototype.Prelude.Maps.{assign, find}
use jam_client_prototype.Player.{Player, Input}
use jam_client_prototype.SendBuffer.{ok, ◌>>=◌}
use jam_client_prototype.GameScene.{
  ActorKind, remote_actor, floor_prefix, actor_type, kind_of, Actor, ActorInfo, GameScene,
  make_actor, spawn, spawn_all, update_snapshot, sync, sync_all, on_receive_server_time,
}
use jam_client_prototype.GameScene.Spawn.{spawn-there, spawn-player, spawn-actor}
use jam_client_prototype.GameScene.Sync.{sync-player, sync-absent, sync-remote, remote-branch}
use jam_client_prototype.Prelude.{
  ℕ, ◌≡◌, refl, sym, ap, ◌∙◌, inl, inr, Bool, false, Option, none, some, List, [], ◌∷◌, arith, ◌==◌,
  ==_iff, Bool-cases, Option-cases,
}

abbrev pub IsTyped : {Time Pose Color : Type 0} → List (ℕ × Actor Time Pose Color) → Type 0
IsTyped [] = Unit {0}
IsTyped ((j, a) ∷ actors) = (a.kind ≡ kind_of j) × IsTyped actors

-- The ids of the descriptions are not those of floors.
abbrev pub NoFloorId : {Pose Color : Type 0} → List (ActorInfo Pose Color) → Type 0
NoFloorId [] = Unit {0}
NoFloorId (info ∷ infos) = ((actor_type info.id == floor_prefix) ≡ false) × NoFloorId infos

module _ {Time Pose Color : Type 0} where
  pub find-IsTyped :
      (j : ℕ) (actors : List (ℕ × Actor Time Pose Color)) (a : Actor Time Pose Color)
      → IsTyped actors
      → find j actors ≡ some a
      → a.kind ≡ kind_of j
  unfolding find
  find-IsTyped j [] a t h = absurd (cc)
  find-IsTyped j ((i, b) ∷ actors) a t h = elim (Bool-cases (i == j)) [
    | inl e ↦
        let found : find j ((i, b) ∷ actors) ≡ some b = rw (find, e) refl in
        let kind_in : Option (Actor Time Pose Color) → ActorKind =
          λ o. elim o [ none ↦ b.kind | some x ↦ x.kind ] in
        sym (ap kind_in (sym found ∙ h)) ∙ t.0 ∙ ap kind_of ((==_iff i j).0 e)
    | inr e ↦ find-IsTyped j actors a t.1 (ground (arith, h, e))
  ]

  pub assign-IsTyped :
      (j : ℕ) (a : Actor Time Pose Color) (actors : List (ℕ × Actor Time Pose Color))
      → a.kind ≡ kind_of j
      → IsTyped actors
      → IsTyped (assign j a actors)
  unfolding assign
  assign-IsTyped j a [] k t = (k, tt)
  assign-IsTyped j a ((i, b) ∷ actors) k t = elim (Bool-cases (i == j)) [
    | inl e ↦ rw e (k, t.1)
    | inr e ↦ rw e (t.0, assign-IsTyped j a actors k t.1)
  ]

  -- Where each actor is of the class of its id, `OnReceiveServerTime` reaches no floor.
  pub on_receive_server_time-ok :
      (actors : List (ℕ × Actor Time Pose Color))
      → IsTyped actors
      → (ids : List ℕ) × (on_receive_server_time actors ≡ ok ids)
  unfolding on_receive_server_time kind_of
  on_receive_server_time-ok [] t = ([], refl)
  on_receive_server_time-ok ((j, a) ∷ actors) t =
      let (ids, rest) = on_receive_server_time-ok actors t.1 in
      elim (Bool-cases (actor_type j == floor_prefix)) [
        | inl e ↦ (ids, rw e rest)
        | inr e ↦ (
          j ∷ ids,
          rw e (
              remote-branch a.kind _ (t.0 ∙ rw (kind_of, e) refl)
              ∙ ap (λ r. r >>= λ found. ok (j ∷ found)) rest),
        )
      ]

module _ {Time Keys Pose View Color : Type 0} (unseen : View) (no_color : Color) where
  -- Spawning keeps the classes, and a player where there is one.
  spawn-IsTyped :
      (player_id : ℕ) (info : ActorInfo Pose Color) (actors : List (ℕ × Actor Time Pose Color))
      (p : Player Keys Pose View)
      → IsTyped actors
      → (next : List (ℕ × Actor Time Pose Color)) × ((q : Player Keys Pose View) × ((spawn unseen
                no_color player_id info
                (record { actors = actors; player = some p })
              ≡ record { actors = next; player = some q })
            × IsTyped next))
  spawn-IsTyped player_id info actors p t =
      let s : GameScene Time Keys Pose View Color = record { actors = actors; player = some p } in
      elim (Option-cases (find info.id actors)) [
        | inr there ↦
            (actors, (p, (spawn-there unseen no_color player_id info s there.0 there.1, t)))
        | inl absent ↦ elim (Bool-cases (info.id == player_id)) [
          | inl e ↦ (actors, (_, (spawn-player unseen no_color player_id info s absent e, t)))
          | inr e ↦ (
            _,
            (
              p,
              (
                spawn-actor unseen no_color player_id info s absent e,
                assign-IsTyped info.id (make_actor no_color info) actors (unfold make_actor in refl)
                    t,
              ),
            ),
          )
        ]
      ]

  pub spawn_all-IsTyped :
      (player_id : ℕ) (infos : List (ActorInfo Pose Color))
      (actors : List (ℕ × Actor Time Pose Color)) (p : Player Keys Pose View)
      → IsTyped actors
      → (next : List (ℕ × Actor Time Pose Color)) × ((q : Player Keys Pose View) × ((spawn_all
                unseen no_color player_id infos
                (record { actors = actors; player = some p })
              ≡ record { actors = next; player = some q })
            × IsTyped next))
  unfolding spawn_all
  spawn_all-IsTyped player_id [] actors p t = (actors, (p, (refl, t)))
  spawn_all-IsTyped player_id (info ∷ infos) actors p t =
      let (next, (q, (e, t'))) = spawn-IsTyped player_id info actors p t in
      let (last, (r, (e', u))) = spawn_all-IsTyped player_id infos next q t' in
      (last, (r, (ap (spawn_all unseen no_color player_id infos) e ∙ e', u)))

module _ {Time Keys Pose View Color : Type 0} (before : Time → Time → Bool) (cutoff : Time → Time)
    (apply : Pose → Input Keys → View → View) (correct : Pose → View → View) where
  sync-IsTyped :
      (timestamp : Time) (info : ActorInfo Pose Color) (actors : List (ℕ × Actor Time Pose Color))
      (p : Player Keys Pose View)
      → IsTyped actors
      → (actor_type info.id == floor_prefix) ≡ false
      → (next : List (ℕ × Actor Time Pose Color)) × ((q : Player Keys Pose View) × ((sync before
                cutoff apply correct timestamp info
                (record { actors = actors; player = some p })
              ≡ ok (record { actors = next; player = some q }))
            × IsTyped next))
  unfolding kind_of
  sync-IsTyped timestamp info actors p t n = elim (Bool-cases (info.id == p.player_id)) [
    | inl mine ↦
        (actors, (_, (sync-player before cutoff apply correct timestamp info actors p mine, t)))
    | inr other ↦ elim (Option-cases (find info.id actors)) [
      | inl absent ↦ (
        actors,
        (p, (sync-absent before cutoff apply correct timestamp info actors p other absent, t)),
      )
      | inr there ↦
          let a = there.0 in
          let typed : a.kind ≡ kind_of info.id = find-IsTyped info.id actors a t there.1 in
          let remote : a.kind ≡ remote_actor = typed ∙ rw (kind_of, n) refl in
          let b = update_snapshot before cutoff timestamp info a in
          let kept : b.kind ≡ kind_of info.id = unfold update_snapshot in typed in
          (
            assign info.id b actors,
            (
              p,
              (
                sync-remote before cutoff apply correct timestamp info actors p a other there.1
                    remote,
                assign-IsTyped info.id b actors kept t,
              ),
            ),
          )
    ]
  ]

  pub sync_all-IsTyped :
      (timestamp : Time) (infos : List (ActorInfo Pose Color))
      (actors : List (ℕ × Actor Time Pose Color)) (p : Player Keys Pose View)
      → IsTyped actors
      → NoFloorId infos
      → (next : List (ℕ × Actor Time Pose Color)) × ((q : Player Keys Pose View) × ((sync_all before
                cutoff apply correct timestamp infos
                (record { actors = actors; player = some p })
              ≡ ok (record { actors = next; player = some q }))
            × IsTyped next))
  unfolding sync_all
  sync_all-IsTyped timestamp [] actors p t n = (actors, (p, (refl, t)))
  sync_all-IsTyped timestamp (info ∷ infos) actors p t n =
      let (next, (q, (e, t'))) = sync-IsTyped timestamp info actors p t n.0 in
      let (last, (r, (e', u))) = sync_all-IsTyped timestamp infos next q t' n.1 in
      (last, (r, (ap (λ o. o >>= sync_all before cutoff apply correct timestamp infos) e ∙ e', u)))
