-- ===== src/TcpSession/Senders/Turns.antt =====
-- What each step of the senders of a `TcpSession` does to whose turn it is and to the order of buffers.
use jam_client_prototype.TcpSession.Senders.{
  Senders, Event, pushes, registers, completes, size, total, starts, step_senders, sent, HaveBytes,
  HaveBytes-append, Turn, idle, registered, on_its_way, Holds, IsOrderly,
}
use jam_client_prototype.Prelude.{
  ◌+◌, ◌<◌, ◌≡◌, refl, sym, ap, ◌∙◌, inl, inr, true, false, List, [], ◌∷◌, ◌++◌, append_assoc,
  append-nil, arith, ◌==◌, if◌then◌else◌, ==_iff, Bool-cases, length, length-append, nil_of_length,
  keep,
}
use jam_client_prototype.TcpSession.{
  TcpSession, Outgoing, on_send, has_bytes, enqueue, register_send, write_done,
}
use jam_client_prototype.TcpSession.Sending.{
  accepted, written, written-append, keep-append, register_send-accepted,
}

pub keep-HaveBytes : (bs : List Outgoing) → HaveBytes bs → keep has_bytes bs ≡ bs
keep-HaveBytes [] h = refl
keep-HaveBytes (b ∷ bs) h = ground (arith, h.0, keep-HaveBytes bs h.1)

size_pos : (b : Outgoing) → has_bytes b ≡ true → 0 < size b
unfolding has_bytes
size_pos b e = ground (arith, e)

total_pos : (bs : List Outgoing) → HaveBytes bs → 0 < length bs → 0 < total bs
total_pos [] h l = l
total_pos (b ∷ bs) h l = omega (arith, size_pos b h.0)

-- `RegisterSend` with something in the queue takes all of it and starts one write.
register_send-Writes :
    (s : TcpSession)
    → s.connected ≡ true
    → s.socket_open ≡ true
    → HaveBytes s.send_queue
    → 0 < length s.send_queue
    → let t = register_send s in
      (t.send_queue ≡ [])
      × (0 < total t.current_send_buffers)
      × (t.connected ≡ true)
      × (t.socket_open ≡ true)
      × (t.send_registered ≡ s.send_registered)
      × (starts s ≡ 1)
unfolding register_send
register_send-Writes s c o full some_there =
    ground (arith, c, o, keep-HaveBytes s.send_queue full, total_pos s.send_queue full some_there)

-- A step keeps the order and adds at most the buffer sent.
abbrev pub Keeps : Event → Senders → Senders → Type 0
Keeps e st t =
    IsOrderly t × (accepted t.session ≡ accepted st.session ++ keep has_bytes (sent (e ∷ [])))

Keeps-same : (e : Event) (st : Senders) → sent (e ∷ []) ≡ [] → IsOrderly st → Keeps e st st
Keeps-same e st none_sent h = (h, rw none_sent (sym (append-nil (accepted st.session))))

push-Holds :
    (b : Outgoing) (turn : Turn) (st : Senders)
    → st.session.connected ≡ true
    → Holds turn st
    → (next : Turn) × Holds next (step_senders (pushes b) st)
unfolding step_senders enqueue
push-Holds b idle st c h = (registered, ground (arith, c, h.0, h.1, h.2, h.3))
push-Holds b registered st c h = (
  registered,
  ground (arith, c, h.0, h.1, h.2, h.3, length-append st.session.send_queue (b ∷ [])),
)
push-Holds b on_its_way st c h = (on_its_way, ground (arith, c, h.0, h.1, h.2, h.3))

pub push-Keeps :
    (b : Outgoing) (st : Senders)
    → has_bytes b ≡ true
    → IsOrderly st
    → Keeps (pushes b) st (step_senders (pushes b) st)
unfolding step_senders enqueue
push-Keeps b st e h =
    let (next, holds) = push-Holds b h.turn st h.connected h.holds in
    let s = st.session in
    let queued = record s { send_queue = s.send_queue ++ (b ∷ []); send_registered = true } in
    let code : (step_senders (pushes b) st).session ≡ queued = ground (arith, h.connected) in
    (
      record {
        connected = rw code h.connected;
        socket = rw code h.socket;
        full = rw code (HaveBytes-append s.send_queue b h.full e);
        turn = next;
        holds = holds;
      },
      rw code (
          ap (λ q. written s.log ++ q) (keep-append has_bytes s.send_queue (b ∷ []))
          ∙ sym (
              append_assoc (written s.log) (keep has_bytes s.send_queue)
                (keep has_bytes (b ∷ [])))),
    )

-- What a call of `RegisterSend` leaves when it was its turn.
write-IsOrderly :
    (s : TcpSession)
    → s.connected ≡ true
    → s.socket_open ≡ true
    → s.send_registered ≡ true
    → HaveBytes s.send_queue
    → 0 < length s.send_queue
    → IsOrderly (record { session = register_send s; registering = 0; writing = 0 + starts s })
write-IsOrderly s c o r full some_there =
    let w = register_send-Writes s c o full some_there in
    record {
      connected = w.2;
      socket = w.3;
      full = rw w.0 tt;
      turn = on_its_way;
      holds = (refl, omega (arith, w.5), w.4 ∙ r, w.1);
    }

register-idle : (st : Senders) → st.registering ≡ 0 → step_senders registers st ≡ st
unfolding step_senders
register-idle st e = ground (arith, e)

pub register-Keeps : (st : Senders) → IsOrderly st → Keeps registers st (step_senders registers st)
register-Keeps st h =
    elim h.turn as (λ turn. Holds turn st → Keeps registers st (step_senders registers st)) [
      | idle ↦ λ k. rw (register-idle st k.0) (Keeps-same registers st refl h)
      | on_its_way ↦ λ k. rw (register-idle st k.0) (Keeps-same registers st refl h)
      | registered ↦ λ k.
          let s = st.session in
          let code : step_senders registers st
              ≡ record { session = register_send s; registering = 0; writing = 0 + starts s } =
            unfold step_senders in rw (step_senders, k.0, k.1) refl in
          rw code (
            write-IsOrderly s h.connected h.socket k.2 h.full k.3,
            register_send-accepted s ∙ sym (append-nil (accepted s)),
          )
    ]
      h.holds

complete-idle : (st : Senders) → st.writing ≡ 0 → step_senders completes st ≡ st
unfolding step_senders
complete-idle st e = ground (arith, e)

-- The session when its handler has called `OnSend`.
abbrev told : TcpSession → TcpSession
told s = record s { log = s.log ++ (on_send (total s.current_send_buffers) ∷ []) }

accepted-told : (s : TcpSession) → accepted (told s) ≡ accepted s
accepted-told s = ground (
  arith,
  written-append s.log (on_send (total s.current_send_buffers) ∷ []),
  append-nil (written s.log),
)

write_done-told :
    (s : TcpSession)
    → 0 < total s.current_send_buffers
    → write_done false (total s.current_send_buffers) s ≡ (
        if length s.send_queue == 0
        then record (told s) { send_registered = false }
        else register_send (told s))
unfolding write_done
write_done-told s h = ground arith

pub complete-Keeps : (st : Senders) → IsOrderly st → Keeps completes st (step_senders completes st)
complete-Keeps st h =
    elim h.turn as (λ turn. Holds turn st → Keeps completes st (step_senders completes st)) [
      | idle ↦ λ k. rw (complete-idle st k.1) (Keeps-same completes st refl h)
      | registered ↦ λ k. rw (complete-idle st k.1) (Keeps-same completes st refl h)
      | on_its_way ↦ λ k.
          let s = st.session in
          let some_bytes : (total s.current_send_buffers == 0) ≡ false = ground (arith, k.3) in
          let code : step_senders completes st ≡ record {
            session = write_done false (total s.current_send_buffers) s;
            registering = 0;
            writing = 0 + starts s;
          } =
            unfold step_senders in rw (step_senders, k.1, k.0, some_bytes) refl in
          elim (Bool-cases (length s.send_queue == 0)) [
            | inl none_left ↦
                rw (code, write_done-told s k.3, none_left)
                  (
                    record {
                      connected = h.connected;
                      socket = h.socket;
                      full = h.full;
                      turn = idle;
                      holds = (
                        refl,
                        ground (arith, h.connected, h.socket, none_left),
                        refl,
                        nil_of_length s.send_queue ((==_iff (length s.send_queue) 0).0 none_left),
                      );
                    },
                    accepted-told s ∙ sym (append-nil (accepted s)),
                  )
            | inr some_left ↦
                let done : write_done false (total s.current_send_buffers) s
                    ≡ register_send (told s) =
                  rw (write_done-told s k.3, some_left) refl in
                rw (code, done)
                  (
                    write-IsOrderly (told s) h.connected h.socket k.2 h.full
                        (ground (arith, some_left)),
                    register_send-accepted (told s)
                        ∙ accepted-told s
                        ∙ sym (append-nil (accepted s)),
                  )
          ]
    ]
      h.holds
