-- ===== src/ThreadManager/Rounds.antt =====
-- `DoGlobalQueueWork` of ClientNetworkCore/ThreadManager.cpp: it ends, and what it has executed by then.
use mathlib.Core.Path.{subst}
use jam_client_prototype.Prelude.{
  ℕ, zero, suc, ◌+◌, ◌≤◌, ◌<◌, ◌≡◌, refl, sym, ap, ◌∙◌, ◌≢◌, ◌⊎◌, inl, inr, true, false, Option,
  none, some, List, [], ◌∷◌, ◌++◌, map, append_assoc, append-nil, arith, dec_lt, ltb, ltb→lt,
  ltb→le, Bool-cases, length, length-append,
}
use jam_client_prototype.ThreadManager.{Work, pop, execute_next, do_global_queue_work}

module _ {Q : Type 0} where
  abbrev pub NoNull : List (Option Q) → Type 0
  NoNull [] = Unit {0}
  NoNull (none ∷ items) = ⊥
  NoNull (some q ∷ items) = NoNull items

  NoNull-append : (xs ys : List (Option Q)) → NoNull xs → NoNull ys → NoNull (xs ++ ys)
  NoNull-append [] ys h k = k
  NoNull-append (none ∷ xs) ys h k = absurd h
  NoNull-append (some q ∷ xs) ys h k = NoNull-append xs ys h k

  map-append_some :
      (es : List Q) (q : Q) (rest : List (Option Q))
      → map some (es ++ (q ∷ [])) ++ rest ≡ map some es ++ (some q ∷ rest)
  map-append_some [] q rest = refl
  map-append_some (e ∷ es) q rest = ap (λ t. some e ∷ t) (map-append_some es q rest)

module _ {Q World : Type 0} where
  -- The items of the queue at the start and those put into it since are those executed, in this
  -- order, and then those that still wait.
  abbrev pub IsInOrder : List (Option Q) → Work Q World → Type 0
  IsInOrder before w = map some w.executed ++ w.queue ≡ before ++ w.pushed

  -- One job queue was executed in each round that did not begin late; after them a round began late
  -- or found the queue empty.
  abbrev pub EndsInTime : (ℕ → ℕ) → ℕ → Work Q World → Type 0
  EndsInTime clock end_tick w =
      ((j : ℕ) → j < length w.executed → clock j ≤ end_tick)
      × ((end_tick < clock (length w.executed)) ⊎ (w.queue ≡ []))

  abbrev IsRound : List (Option Q) → (ℕ → ℕ) → ℕ → ℕ → Work Q World → Type 0
  IsRound before clock end_tick k w =
      IsInOrder before w
      × NoNull w.queue
      × (length w.executed ≡ k)
      × ((j : ℕ) → j < k → clock j ≤ end_tick)

module _ {Q World : Type 0} (execute : Q → World → World × List (Option Q))
    (pushes-NoNull : (q : Q) (world : World) → NoNull (execute q world).1) where
  execute_next-IsInOrder :
      (before : List (Option Q)) (q : Q) (rest : List (Option Q)) (w : Work Q World)
      → w.queue ≡ some q ∷ rest
      → IsInOrder before w
      → IsInOrder before (execute_next execute q rest w)
  unfolding execute_next
  execute_next-IsInOrder before q rest w e h =
      let more = (execute q w.world).1 in
      map-append_some w.executed q (rest ++ more)
      ∙ sym (append_assoc (map some w.executed) (some q ∷ rest) more)
      ∙ ap (λ t. (map some w.executed ++ t) ++ more) (sym e)
      ∙ ap (λ t. t ++ more) h
      ∙ append_assoc before w.pushed more

  rounds-late :
      (clock : ℕ → ℕ) (end_tick fuel k : ℕ) (w : Work Q World)
      → ltb end_tick (clock k) ≡ true
      → do_global_queue_work execute clock end_tick (suc fuel) k w ≡ some w
  unfolding do_global_queue_work
  rounds-late clock end_tick fuel k w e = rw (do_global_queue_work, e) refl

  rounds-empty :
      (clock : ℕ → ℕ) (end_tick fuel k : ℕ) (w : Work Q World)
      → ltb end_tick (clock k) ≡ false
      → w.queue ≡ []
      → do_global_queue_work execute clock end_tick (suc fuel) k w ≡ some (record w { queue = [] })
  unfolding do_global_queue_work pop
  rounds-empty clock end_tick fuel k w e f =
      let first : (pop w.queue).0 ≡ none = ap (λ t. (pop t).0) f in
      let left : (pop w.queue).1 ≡ [] = ap (λ t. (pop t).1) f in
      rw (do_global_queue_work, e, first, left) refl

  rounds-next :
      (clock : ℕ → ℕ) (end_tick fuel k : ℕ) (w : Work Q World) (q : Q) (rest : List (Option Q))
      → ltb end_tick (clock k) ≡ false
      → w.queue ≡ some q ∷ rest
      → do_global_queue_work execute clock end_tick (suc fuel) k w
        ≡ do_global_queue_work execute clock end_tick fuel (k + 1) (execute_next execute q rest w)
  unfolding do_global_queue_work pop
  rounds-next clock end_tick fuel k w q rest e f =
      let first : (pop w.queue).0 ≡ some q = ap (λ t. (pop t).0) f in
      let left : (pop w.queue).1 ≡ rest = ap (λ t. (pop t).1) f in
      rw (do_global_queue_work, e, first, left) refl

  execute_next-IsRound :
      (before : List (Option Q)) (clock : ℕ → ℕ) (end_tick k : ℕ) (q : Q) (rest : List (Option Q))
      (w : Work Q World)
      → ltb end_tick (clock k) ≡ false
      → w.queue ≡ some q ∷ rest
      → IsRound before clock end_tick k w
      → IsRound before clock end_tick (k + 1) (execute_next execute q rest w)
  unfolding execute_next
  execute_next-IsRound before clock end_tick k q rest w e f (order, full, size, early) = (
    execute_next-IsInOrder before q rest w f order,
    NoNull-append rest (execute q w.world).1 (subst NoNull f full) (pushes-NoNull q w.world),
    length-append w.executed (q ∷ []) ∙ omega (arith, size),
    λ j h. elim (dec_lt j k) [
      | yes l ↦ early j l
      | no l ↦ let same : j ≡ k = omega arith in rw same (ltb→le end_tick (clock k) e)
    ],
  )

  abbrev Finishes : List (Option Q) → (ℕ → ℕ) → ℕ → Option (Work Q World) → Type 0
  Finishes before clock end_tick result =
      (r : Work Q World) × (result ≡ some r) × IsInOrder before r × EndsInTime clock end_tick r

  late-Finishes :
      (before : List (Option Q)) (clock : ℕ → ℕ) (end_tick fuel k : ℕ) (w : Work Q World)
      → ltb end_tick (clock k) ≡ true
      → IsRound before clock end_tick k w
      → Finishes before clock end_tick (do_global_queue_work execute clock end_tick (suc fuel) k w)
  late-Finishes before clock end_tick fuel k w e (order, full, size, early) = (
    w,
    rounds-late clock end_tick fuel k w e,
    order,
    (λ j l. early j (omega (arith, size)), inl (rw size (ltb→lt end_tick (clock k) e))),
  )

  empty-Finishes :
      (before : List (Option Q)) (clock : ℕ → ℕ) (end_tick fuel k : ℕ) (w : Work Q World)
      → ltb end_tick (clock k) ≡ false
      → w.queue ≡ []
      → IsRound before clock end_tick k w
      → Finishes before clock end_tick (do_global_queue_work execute clock end_tick (suc fuel) k w)
  empty-Finishes before clock end_tick fuel k w e f (order, full, size, early) = (
    record w { queue = [] },
    rounds-empty clock end_tick fuel k w e f,
    ap (λ t. map some w.executed ++ t) (sym f) ∙ order,
    (λ j l. early j (omega (arith, size)), inr refl),
  )

  -- The rounds end with the one that `clock` calls late, at the latest.
  rounds-IsRound :
      (before : List (Option Q)) (clock : ℕ → ℕ) (end_tick last fuel k : ℕ) (w : Work Q World)
      (items : List (Option Q))
      → w.queue ≡ items
      → end_tick < clock last
      → k ≤ last
      → last < fuel + k
      → IsRound before clock end_tick k w
      → Finishes before clock end_tick (do_global_queue_work execute clock end_tick fuel k w)
  rounds-IsRound before clock end_tick last zero k w items q late h enough inv =
      absurd (omega arith)
  rounds-IsRound before clock end_tick last (suc fuel) k w [] q late h enough inv =
      elim (Bool-cases (ltb end_tick (clock k))) [
        | inl e ↦ late-Finishes before clock end_tick fuel k w e inv
        | inr e ↦ empty-Finishes before clock end_tick fuel k w e q inv
      ]
  rounds-IsRound before clock end_tick last (suc fuel) k w (none ∷ rest) q late h enough inv =
      let (order, full, size, early) = inv in absurd (subst NoNull q full)
  rounds-IsRound before clock end_tick last (suc fuel) k w (some a ∷ rest) q late h enough inv =
      elim (Bool-cases (ltb end_tick (clock k))) [
        | inl e ↦ late-Finishes before clock end_tick fuel k w e inv
        | inr e ↦
            let not_last : k ≢ last = λ same.
              absurd (let on : clock k ≡ clock last = ap clock same in ground (arith, on, e)) in
            let next = execute_next execute a rest w in
            rw (rounds-next clock end_tick fuel k w a rest e q) (
              rounds-IsRound before clock end_tick last fuel (k + 1) next next.queue refl late
                (omega (arith, not_last)) (omega arith)
                (execute_next-IsRound before clock end_tick k a rest w e q inv))
      ]

  -- On a global queue without null, and where the tick count passes the end in some round, the work
  -- ends: job queues were executed in the order of the queue, those put into it meanwhile behind it,
  -- none twice and none lost, each in a round that began in time, until a round began late or found
  -- the queue empty.
  pub do_global_queue_work_lem :
      (clock : ℕ → ℕ) (end_tick last : ℕ) (queue : List (Option Q)) (world : World)
      → NoNull queue
      → end_tick < clock last
      → let start : Work Q World = record {
        queue = queue;
        world = world;
        executed = [];
        pushed = [];
      } in
        (r : Work Q World) × (do_global_queue_work execute clock end_tick (last + 1) 0 start
          ≡ some r)
        × IsInOrder queue r
        × EndsInTime clock end_tick r
  do_global_queue_work_lem clock end_tick last queue world full late =
      rounds-IsRound queue clock end_tick last (last + 1) 0
        (record { queue = queue; world = world; executed = []; pushed = [] }) queue refl late
        (omega arith) (omega arith)
        (sym (append-nil queue), full, refl, λ j h. absurd (omega arith))
