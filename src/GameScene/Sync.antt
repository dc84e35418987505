-- ===== src/GameScene/Sync.antt =====
-- What `Handle_S_SYNC_ACTOR` does to each actor and to the player.
use mathlib.Core.Path.{subst}
use jam_client_prototype.Prelude.Maps.{assign, find, find-assign}
use jam_client_prototype.Player.{Input, Player, reconcile}
use jam_client_prototype.SendBuffer.{Outcome, ok, crash, ◌>>=◌}
use jam_client_prototype.GameScene.{
  ActorKind, floor, remote_actor, Actor, ActorInfo, GameScene, update_snapshot, sync, sync_all,
}
use jam_client_prototype.Prelude.{
  ℕ, ◌≡◌, refl, sym, ap, ◌∙◌, inl, inr, Bool, true, false, Option, none, some, List, [], ◌∷◌, arith,
  ◌==◌, if◌then◌else◌, ==_iff, Bool-cases, Option-cases,
}

abbrev pub on_some {ℓ κ} : {A : Type ℓ} {B : Type κ} → (A → B) → Option A → Option B
on_some f none = none
on_some f (some a) = some (f a)

on_some-on_some {ℓ} :
    {A : Type ℓ} (f g : A → A) (o : Option A) → on_some f (on_some g o) ≡ on_some (λ a. f (g a)) o
on_some-on_some f g none = refl
on_some-on_some f g (some a) = refl

pub remote-branch {ℓ} :
    {A : Type ℓ} (k : ActorKind) (o : Outcome A)
    → k ≡ remote_actor
    → elim k as (λ _. Outcome A) [ floor ↦ crash | remote_actor ↦ o ] ≡ o
remote-branch floor o h = absurd (cc)
remote-branch remote_actor o h = refl

module _ {Time Keys Pose View Color : Type 0} (before : Time → Time → Bool) (cutoff : Time → Time)
    (apply : Pose → Input Keys → View → View) (correct : Pose → View → View) where
  -- What one description does to the player, and to the actor with the id `j`.
  abbrev pub reconciled : ActorInfo Pose Color → Player Keys Pose View → Player Keys Pose View
  reconciled info p =
      if info.id == p.player_id
      then elim info.sequence [ none ↦ p | some seq ↦ reconcile apply correct info.transform seq p ]
      else p

  abbrev pub reconcile_all :
      List (ActorInfo Pose Color) → Player Keys Pose View → Player Keys Pose View
  reconcile_all [] p = p
  reconcile_all (info ∷ infos) p = reconcile_all infos (reconciled info p)

  reconciled-id :
      (info : ActorInfo Pose Color) (p : Player Keys Pose View)
      → (reconciled info p).player_id ≡ p.player_id
  unfolding reconcile
  reconciled-id info p = elim (Bool-cases (info.id == p.player_id)) [
    | inr e ↦ rw (reconciled, e) refl
    | inl e ↦ elim (Option-cases info.sequence) [
      | inl q ↦ rw (reconciled, e, q) refl
      | inr q ↦ rw (reconciled, e, q.1) refl
    ]
  ]

  -- The branches of one round.
  module _ (timestamp : Time) (info : ActorInfo Pose Color)
      (actors : List (ℕ × Actor Time Pose Color)) (p : Player Keys Pose View) where
    abbrev scene : GameScene Time Keys Pose View Color
    scene = record { actors = actors; player = some p }

    pub sync-player :
        (info.id == p.player_id) ≡ true
        → sync before cutoff apply correct timestamp info scene
          ≡ ok (record { actors = actors; player = some (reconciled info p) })
    unfolding sync
    sync-player e = elim (Option-cases info.sequence) [
      | inl q ↦ rw (sync, e, q) refl
      | inr q ↦ rw (sync, e, q.1) refl
    ]

    pub sync-absent :
        (info.id == p.player_id) ≡ false
        → find info.id actors ≡ none
        → sync before cutoff apply correct timestamp info scene ≡ ok scene
    unfolding sync
    sync-absent e q = rw (sync, e, q) refl

    pub sync-remote :
        (a : Actor Time Pose Color)
        → (info.id == p.player_id) ≡ false
        → find info.id actors ≡ some a
        → a.kind ≡ remote_actor
        → sync before cutoff apply correct timestamp info scene
          ≡ ok (record {
            actors = assign info.id (update_snapshot before cutoff timestamp info a) actors;
            player = some p;
          })
    unfolding sync
    sync-remote a e q k = rw (sync, e, q) (remote-branch a.kind _ k)

  -- What one description, and all of them, do to the actor with the id `j`.
  abbrev pub updated :
      Time → ℕ → ActorInfo Pose Color → Actor Time Pose Color → Actor Time Pose Color
  updated timestamp j info a =
      if info.id == j then update_snapshot before cutoff timestamp info a else a

  abbrev pub update_all :
      Time → ℕ → List (ActorInfo Pose Color) → Actor Time Pose Color → Actor Time Pose Color
  update_all timestamp j [] a = a
  update_all timestamp j (info ∷ infos) a =
      update_all timestamp j infos (updated timestamp j info a)

  -- No description names a floor.
  abbrev pub NoFloor : ℕ → List (ActorInfo Pose Color) → List (ℕ × Actor Time Pose Color) → Type 0
  NoFloor player_id [] actors = Unit {0}
  NoFloor player_id (info ∷ infos) actors =
      ((a : Actor Time Pose Color)
        → (info.id == player_id) ≡ false
        → find info.id actors ≡ some a
        → a.kind ≡ remote_actor)
      × NoFloor player_id infos actors

  NoFloor-assign :
      (player_id i : ℕ) (infos : List (ActorInfo Pose Color))
      (actors : List (ℕ × Actor Time Pose Color)) (b : Actor Time Pose Color)
      → b.kind ≡ remote_actor
      → NoFloor player_id infos actors
      → NoFloor player_id infos (assign i b actors)
  NoFloor-assign player_id i [] actors b k n = tt
  NoFloor-assign player_id i (info ∷ infos) actors b k n = (
    λ a e q. elim (Bool-cases (i == info.id)) [
      | inl same ↦ ground (arith, find-assign i info.id b actors)
      | inr other ↦ n.0 a e (ground (arith, find-assign i info.id b actors))
    ],
    NoFloor-assign player_id i infos actors b k n.1,
  )

  -- The player is that of all the descriptions with its id, and each other actor too.
  abbrev pub Synced :
      Time
      → ℕ
      → List (ActorInfo Pose Color)
      → List (ℕ × Actor Time Pose Color)
      → Player Keys Pose View
      → Outcome (GameScene Time Keys Pose View Color)
      → Type 0
  Synced timestamp player_id infos actors p r =
      (synced : List (ℕ × Actor Time Pose Color)) × ((r
          ≡ ok (record { actors = synced; player = some (reconcile_all infos p) }))
        × ((j : ℕ)
            → find j synced ≡ (
                if j == player_id
                then find j actors
                else on_some (update_all timestamp j infos) (find j actors))))

  Synced-step :
      (timestamp : Time) (player_id : ℕ) (info : ActorInfo Pose Color)
      (infos : List (ActorInfo Pose Color)) (actors next : List (ℕ × Actor Time Pose Color))
      (p : Player Keys Pose View) (r : Outcome (GameScene Time Keys Pose View Color))
      → ((j : ℕ)
          → find j next ≡ (
              if j == player_id
              then find j actors
              else on_some (updated timestamp j info) (find j actors)))
      → Synced timestamp player_id infos next (reconciled info p) r
      → Synced timestamp player_id (info ∷ infos) actors p r
  Synced-step timestamp player_id info infos actors next p r h (synced, (ends, all)) = (
    synced,
    (
      ends,
      λ j. elim (Bool-cases (j == player_id)) [
        | inl e ↦ rw e (all j ∙ rw e (h j ∙ rw e refl))
        | inr e ↦ rw e (
            all j
            ∙ rw e (
                ap (on_some (update_all timestamp j infos)) (h j ∙ rw e refl)
                ∙ on_some-on_some (update_all timestamp j infos) (updated timestamp j info)
                    (find j actors)))
      ],
    ),
  )

  player-round :
      (timestamp : Time) (info : ActorInfo Pose Color) (actors : List (ℕ × Actor Time Pose Color))
      (player_id j : ℕ)
      → (info.id == player_id) ≡ true
      → find j actors ≡ (
          if j == player_id
          then find j actors
          else on_some (updated timestamp j info) (find j actors))
  player-round timestamp info actors player_id j e = elim (Option-cases (find j actors)) [
    | inl o ↦ rw o (ground arith)
    | inr o ↦ rw o.1 (ground arith)
  ]

  absent-round :
      (timestamp : Time) (info : ActorInfo Pose Color) (actors : List (ℕ × Actor Time Pose Color))
      (player_id j : ℕ)
      → find info.id actors ≡ none
      → find j actors ≡ (
          if j == player_id
          then find j actors
          else on_some (updated timestamp j info) (find j actors))
  absent-round timestamp info actors player_id j e = elim (Option-cases (find j actors)) [
    | inl o ↦ rw o (ground arith)
    | inr o ↦ let w = o.1 in rw o.1 (ground (arith, w))
  ]

  remote-round :
      (timestamp : Time) (info : ActorInfo Pose Color) (actors : List (ℕ × Actor Time Pose Color))
      (player_id j : ℕ) (a : Actor Time Pose Color)
      → (info.id == player_id) ≡ false
      → find info.id actors ≡ some a
      → find j (assign info.id (update_snapshot before cutoff timestamp info a) actors) ≡ (
          if j == player_id
          then find j actors
          else on_some (updated timestamp j info) (find j actors))
  remote-round timestamp info actors player_id j a e q =
      let b = update_snapshot before cutoff timestamp info a in
      find-assign info.id j b actors ∙ elim (Bool-cases (info.id == j)) [
        | inl same ↦
            let s : info.id ≡ j = (==_iff info.id j).0 same in
            let other : (j == player_id) ≡ false = ground arith in
            let held : find j actors ≡ some a = ap (λ i. find i actors) (sym s) ∙ q in
            rw (same, other, held, same) refl
        | inr other ↦ elim (Option-cases (find j actors)) [
          | inl o ↦ rw o (ground arith)
          | inr o ↦ rw o.1 (ground arith)
        ]
      ]

  -- Where the scene has a player with the id `player_id` and no description names a floor that is in
  -- the scene, `Handle_S_SYNC_ACTOR` ends: the player is corrected by each description with its id and
  -- a sequence number, each other actor gets exactly the snapshots of the descriptions with its id,
  -- and no actor comes or goes.
  pub sync_all_lem :
      (timestamp : Time) (player_id : ℕ) (infos : List (ActorInfo Pose Color))
      (actors : List (ℕ × Actor Time Pose Color)) (p : Player Keys Pose View)
      → p.player_id ≡ player_id
      → NoFloor player_id infos actors
      → Synced timestamp player_id infos actors p (
          sync_all before cutoff apply correct timestamp infos
            (record { actors = actors; player = some p }))
  unfolding sync_all
  sync_all_lem timestamp player_id [] actors p e n = (
    actors,
    (
      refl,
      λ j. elim (Option-cases (find j actors)) [
        | inl o ↦ rw o (ground arith)
        | inr o ↦ rw o.1 (ground arith)
      ],
    ),
  )
  sync_all_lem timestamp player_id (info ∷ infos) actors p e n =
      let rest = λ (r : Outcome (GameScene Time Keys Pose View Color)).
        r >>= sync_all before cutoff apply correct timestamp infos in
      let ends : (next : List (ℕ × Actor Time Pose Color)) → Type 0 = λ next.
        (sync before cutoff apply correct timestamp info
            (record { actors = actors; player = some p })
          ≡ ok (record { actors = next; player = some (reconciled info p) })) in
      let close =
        λ (next : List (ℕ × Actor Time Pose Color)) (q : ends next)
            (h : (j : ℕ)
              → find j next ≡ (
                  if j == player_id
                  then find j actors
                  else on_some (updated timestamp j info) (find j actors)))
            (k : NoFloor player_id infos next).
          subst (λ r. Synced timestamp player_id (info ∷ infos) actors p (rest r)) (sym q)
            (Synced-step timestamp player_id info infos actors next p _ h (
              sync_all_lem timestamp player_id infos next (reconciled info p)
                (reconciled-id info p ∙ e) k)) in
      elim (Bool-cases (info.id == player_id)) [
        | inl mine ↦
            close actors (sync-player timestamp info actors p (ground (arith, e)))
              (λ j. player-round timestamp info actors player_id j mine) n.1
        | inr other ↦
            let apart : (info.id == p.player_id) ≡ false = ground (arith, e) in
            let same : p ≡ reconciled info p = rw (reconciled, apart) refl in
            let with_player : List (ℕ × Actor Time Pose Color)
                → Player Keys Pose View
                → Outcome (GameScene Time Keys Pose View Color) =
              λ next x. ok (record { actors = next; player = some x }) in
            elim (Option-cases (find info.id actors)) [
              | inl absent ↦
                  close actors
                    (sync-absent timestamp info actors p (ground (arith, e)) absent
                      ∙ ap (with_player actors) same)
                    (λ j. absent-round timestamp info actors player_id j absent) n.1
              | inr there ↦
                  let a = there.0 in
                  let k = n.0 a other there.1 in
                  close (assign info.id (update_snapshot before cutoff timestamp info a) actors)
                    (sync-remote timestamp info actors p a (ground (arith, e)) there.1 k
                      ∙ ap
                          (with_player (
                            assign info.id (update_snapshot before cutoff timestamp info a) actors))
                          same)
                    (λ j. remote-round timestamp info actors player_id j a other there.1)
                    (NoFloor-assign player_id info.id infos actors _ (unfold update_snapshot in k)
                      n.1)
            ]
      ]
