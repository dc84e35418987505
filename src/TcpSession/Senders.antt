-- ===== src/TcpSession/Senders.antt =====
-- The send side of a connected `TcpSession` with any number of threads in `Send`: each is between its
-- block under the lock and `RegisterSend` for as long as the schedule likes. `RegisterSend` is one step:
-- what it does outside its block is with the buffers that it took, and with the socket, on which no
-- other write is then on its way (TcpSession/Senders/Order). The handler of a write calls it inside the lock.
pub mod Turns
pub mod Order
use jam_client_prototype.Prelude.{
  ℕ, zero, suc, ◌+◌, ◌<◌, ◌≡◌, Bool, true, false, ◌&&◌, not, none, some, List, [], ◌∷◌, ◌++◌, ◌==◌,
  if◌then◌else◌, length,
}
use jam_client_prototype.TcpSession.{
  TcpSession, Outgoing, on_send, has_bytes, enqueue, register_send, write_done,
}
use jam_client_prototype.TcpSession.Sending.{
  accepted, written, written-append, keep-append, register_send-accepted,
}

pub record Senders : Type 0 where
  pub session : TcpSession
  -- the threads between their block and `RegisterSend`
  pub registering : ℕ
  -- the writes on their way
  pub writing : ℕ

-- The block of a `Send`, the `RegisterSend` of a thread that is to call it, and the completion of a
-- write with all its bytes.
pub data Event : Type 0 where
  pushes : Outgoing → Event
  registers : Event
  completes : Event

abbrev pub size : Outgoing → ℕ
size b = elim b.bytes [ none ↦ 0 | some xs ↦ length xs ]

abbrev pub total : List Outgoing → ℕ
total [] = 0
total (b ∷ bs) = size b + total bs

abbrev pub one_if : Bool → ℕ
one_if true = 1
one_if false = 0

-- The writes that a call of `RegisterSend` starts.
abbrev pub starts : TcpSession → ℕ
starts s = one_if (s.connected && (s.socket_open && not (length s.send_queue == 0)))

unfoldable pub step_senders : Event → Senders → Senders
unfolding enqueue register_send write_done
step_senders (pushes b) st =
    if not st.session.connected
    then st
    else (let (register, queued) = enqueue b st.session in
        record st { session = queued; registering = st.registering + one_if register })
step_senders registers st = elim st.registering [
  | zero ↦ st
  | suc n ↦ record {
    session = register_send st.session;
    registering = n;
    writing = st.writing + starts st.session;
  }
]
step_senders completes st = elim st.writing [
  | zero ↦ st
  | suc n ↦
      let bytes = total st.session.current_send_buffers in
      record st {
        session = write_done false bytes st.session;
        writing = n + (if bytes == 0 then 0 else starts st.session);
      }
]

unfoldable pub run_senders : List Event → Senders → Senders
unfolding step_senders
run_senders [] st = st
run_senders (e ∷ es) st = run_senders es (step_senders e st)

-- The buffers sent, in order.
abbrev pub sent : List Event → List Outgoing
sent [] = []
sent (pushes b ∷ es) = b ∷ sent es
sent (registers ∷ es) = sent es
sent (completes ∷ es) = sent es

-- No buffer sent is empty or null.
abbrev pub HaveBytes : List Outgoing → Type 0
HaveBytes [] = Unit {0}
HaveBytes (b ∷ bs) = (has_bytes b ≡ true) × HaveBytes bs

pub HaveBytes-append :
    (bs : List Outgoing) (b : Outgoing)
    → HaveBytes bs
    → has_bytes b ≡ true
    → HaveBytes (bs ++ (b ∷ []))
HaveBytes-append [] b h e = (e, tt)
HaveBytes-append (c ∷ bs) b h e = (h.0, HaveBytes-append bs b h.1 e)

-- Who is responsible for what is queued: no one where nothing is, the thread that is to register the
-- send, or the write on its way.
pub data Turn : Type 0 where
  idle : Turn
  registered : Turn
  on_its_way : Turn

abbrev pub Holds : Turn → Senders → Type 0
Holds idle st =
    (st.registering ≡ 0)
    × (st.writing ≡ 0)
    × (st.session.send_registered ≡ false)
    × (st.session.send_queue ≡ [])
Holds registered st =
    (st.registering ≡ 1)
    × (st.writing ≡ 0)
    × (st.session.send_registered ≡ true)
    × (0 < length st.session.send_queue)
Holds on_its_way st =
    (st.registering ≡ 0)
    × (st.writing ≡ 1)
    × (st.session.send_registered ≡ true)
    × (0 < total st.session.current_send_buffers)

pub record IsOrderly (st : Senders) : Type 0 where
  pub connected : st.session.connected ≡ true
  pub socket : st.session.socket_open ≡ true
  pub full : HaveBytes st.session.send_queue
  pub turn : Turn
  pub holds : Holds turn st
