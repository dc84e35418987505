-- ===== src/TcpSession/Senders/Order.antt =====
-- Any schedule of the senders of a `TcpSession`.
use jam_client_prototype.TcpSession.Senders.{
  Senders, Event, pushes, registers, completes, step_senders, run_senders, sent, HaveBytes, idle,
  registered, on_its_way, Holds, IsOrderly,
}
use jam_client_prototype.TcpSession.Senders.Turns.{
  keep-HaveBytes, Keeps, push-Keeps, register-Keeps, complete-Keeps,
}
use jam_client_prototype.Prelude.{
  ◌+◌, ◌≤◌, ◌≡◌, refl, sym, ap, ◌∙◌, true, List, [], ◌∷◌, ◌++◌, append_assoc, append-nil, arith,
}
use jam_client_prototype.TcpSession.Sending.{accepted, written}

step-Keeps :
    (e : Event) (st : Senders)
    → HaveBytes (sent (e ∷ []))
    → IsOrderly st
    → Keeps e st (step_senders e st)
step-Keeps (pushes b) st full h = push-Keeps b st full.0 h
step-Keeps registers st full h = register-Keeps st h
step-Keeps completes st full h = complete-Keeps st h

sent-cons : (e : Event) (es : List Event) → sent (e ∷ es) ≡ sent (e ∷ []) ++ sent es
sent-cons (pushes b) es = refl
sent-cons registers es = refl
sent-cons completes es = refl

HaveBytes-cons :
    (e : Event) (es : List Event)
    → HaveBytes (sent (e ∷ es))
    → HaveBytes (sent (e ∷ [])) × HaveBytes (sent es)
HaveBytes-cons (pushes b) es h = ((h.0, tt), h.1)
HaveBytes-cons registers es h = (tt, h)
HaveBytes-cons completes es h = (tt, h)

run_senders-Keeps :
    (es : List Event) (st : Senders)
    → HaveBytes (sent es)
    → IsOrderly st
    → IsOrderly (run_senders es st)
      × (accepted (run_senders es st).session ≡ accepted st.session ++ sent es)
unfolding run_senders
run_senders-Keeps [] st full h = (h, sym (append-nil (accepted st.session)))
run_senders-Keeps (e ∷ es) st full h =
    let (one, more) = HaveBytes-cons e es full in
    let (next, kept) = step-Keeps e st one h in
    let (last, rest) = run_senders-Keeps es (step_senders e st) more next in
    (
      last,
      rest
          ∙ ap (λ t. t ++ sent es)
              (kept ∙ ap (λ bs. accepted st.session ++ bs) (keep-HaveBytes (sent (e ∷ [])) one))
          ∙ append_assoc (accepted st.session) (sent (e ∷ [])) (sent es)
          ∙ ap (λ bs. accepted st.session ++ bs) (sym (sent-cons e es)),
    )

-- At most one thread or write, and one where something is queued.
IsOrderly-turn :
    (st : Senders)
    → IsOrderly st
    → (st.registering + st.writing ≤ 1)
      × (st.registering + st.writing ≡ 0 → st.session.send_queue ≡ [])
IsOrderly-turn st h =
    elim h.turn
        as (λ turn.
          Holds turn st
          → (st.registering + st.writing ≤ 1)
            × (st.registering + st.writing ≡ 0 → st.session.send_queue ≡ [])) [
              | idle ↦ λ k. (omega (arith, k.0, k.1), λ e. k.3)
              | registered ↦ λ k. (omega (arith, k.0, k.1), λ e. absurd (omega (arith, e, k.0)))
              | on_its_way ↦ λ k. (omega (arith, k.0, k.1), λ e. absurd (omega (arith, e, k.1)))
            ]
      h.holds

-- From a connected session with its socket open in which buffers with bytes are queued only for a
-- thread that is to register or a write on its way (`IsOrderly`; one at rest with nothing queued is
-- such), over any schedule of blocks of `Send` with buffers that have bytes, of `RegisterSend` of the
-- threads that are to call it, and of completions of the writes on their way with all their bytes,
-- no write failing and nothing disconnecting: at most one thread is to register or one write on its
-- way, never both; the buffers handed to the socket followed by those still queued are those before
-- the run followed by the buffers sent, in the order of their blocks; where no thread is to register
-- and no write is on its way, nothing is queued; and the session is connected.
pub run_senders_lem :
    (es : List Event) (st : Senders)
    → IsOrderly st
    → HaveBytes (sent es)
    → let t = run_senders es st in
      (t.registering + t.writing ≤ 1)
      × (written t.session.log ++ t.session.send_queue
          ≡ (written st.session.log ++ st.session.send_queue) ++ sent es)
      × (t.registering + t.writing ≡ 0 → t.session.send_queue ≡ [])
      × (t.session.connected ≡ true)
run_senders_lem es st h full =
    let (last, same) = run_senders-Keeps es st full h in
    let t = run_senders es st in
    let turn = IsOrderly-turn t last in
    (
      turn.0,
      sym (ap (λ q. written t.session.log ++ q) (keep-HaveBytes t.session.send_queue last.full))
          ∙ same
          ∙ ap (λ q. (written st.session.log ++ q) ++ sent es)
              (keep-HaveBytes st.session.send_queue h.full),
      turn.1,
      last.connected,
    )
