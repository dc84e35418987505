-- ===== src/TcpSession/Sending.antt =====
-- The send side of `TcpSession`: order, and what a failed write does.
use jam_client_prototype.Prelude.{
  ℕ, zero, suc, ◌≡◌, refl, sym, ap, ◌∙◌, Bool, true, false, List, [], ◌∷◌, ◌++◌, append_assoc,
  append-nil, arith, nil_of_length, keep,
}
use jam_client_prototype.TcpSession.{
  TcpSession, Outgoing, Effect, connects, writes, receives, adds, releases, on_connected,
  on_disconnected, on_send, on_recv, has_bytes, register_send, send, write_done, write_failed,
}

-- While connected, nothing waits in the queue unless a send is registered.
abbrev pub IsServed : TcpSession → Type 0
IsServed s =
    s.connected ≡ true → s.socket_open ≡ true → s.send_registered ≡ false → s.send_queue ≡ []

-- `Send` and the completion of a write keep it.
pub send-IsServed : (b : Outgoing) (s : TcpSession) → IsServed s → IsServed (send b s)
unfolding send
send-IsServed b s h c o r = ground (arith, h)

pub write_done-IsServed :
    (f : Bool) (n : ℕ) (s : TcpSession) → IsServed s → IsServed (write_done f n s)
unfolding write_done
write_done-IsServed f zero s h c o r = ground (arith, h)
write_done-IsServed f (suc n) s h c o r = ground (arith, h)

-- A completed write leaves the queue of an open connection empty: what waited is written at once.
pub send_queue-write_done :
    (f : Bool) (n : ℕ) (s : TcpSession)
    → s.connected ≡ true
    → s.socket_open ≡ true
    → (write_done f (suc n) s).send_queue ≡ []
unfolding write_done
send_queue-write_done f n s c o = ground (arith, nil_of_length s.send_queue)

-- The buffers of the writes, in order.
abbrev pub written : List Effect → List Outgoing
written [] = []
written (writes bs ∷ es) = bs ++ written es
written (on_recv p ∷ es) = written es
written (connects ∷ es) = written es
written (receives _ ∷ es) = written es
written (adds ∷ es) = written es
written (releases ∷ es) = written es
written (on_connected ∷ es) = written es
written (on_disconnected ∷ es) = written es
written (on_send _ ∷ es) = written es

pub written-append : (es fs : List Effect) → written (es ++ fs) ≡ written es ++ written fs
written-append [] fs = refl
written-append (writes bs ∷ es) fs =
    ap (λ t. bs ++ t) (written-append es fs) ∙ sym (append_assoc bs (written es) (written fs))
written-append (on_recv p ∷ es) fs = written-append es fs
written-append (connects ∷ es) fs = written-append es fs
written-append (receives _ ∷ es) fs = written-append es fs
written-append (adds ∷ es) fs = written-append es fs
written-append (releases ∷ es) fs = written-append es fs
written-append (on_connected ∷ es) fs = written-append es fs
written-append (on_disconnected ∷ es) fs = written-append es fs
written-append (on_send _ ∷ es) fs = written-append es fs

pub keep-append {ℓ} :
    {A : Type ℓ} (p : A → Bool) (xs ys : List A) → keep p (xs ++ ys) ≡ keep p xs ++ keep p ys
keep-append p [] ys = refl
keep-append p (x ∷ xs) ys = ground (arith, keep-append p xs ys)

-- Everything handed to the socket, and then what still waits: the non-empty buffers of `Send`.
abbrev pub accepted : TcpSession → List Outgoing
accepted s = written s.log ++ keep has_bytes s.send_queue

pub register_send-accepted : (s : TcpSession) → accepted (register_send s) ≡ accepted s
unfolding register_send
register_send-accepted s = ground (
  arith,
  written-append s.log (writes (keep has_bytes s.send_queue) ∷ []),
  append-nil (keep has_bytes s.send_queue),
  append-nil (written s.log ++ keep has_bytes s.send_queue),
)

-- Sends one after the other.
unfoldable pub send_all : List Outgoing → TcpSession → TcpSession
send_all [] s = s
send_all (b ∷ bs) s = send_all bs (send b s)

send_all-registered :
    (bs : List Outgoing) (s : TcpSession)
    → s.connected ≡ true
    → s.send_registered ≡ true
    → send_all bs s ≡ record s { send_queue = s.send_queue ++ bs }
unfolding send_all
send_all-registered [] s c r = ground (arith, append-nil s.send_queue)
send_all-registered (b ∷ bs) s c r =
    let one : send b s ≡ record s { send_queue = s.send_queue ++ (b ∷ []) } =
      unfold send in ground arith in
    rw one (
      send_all-registered bs (record s { send_queue = s.send_queue ++ (b ∷ []) }) c r
      ∙ ap (λ q. record s { send_queue = q }) (append_assoc s.send_queue (b ∷ []) bs))

-- After a failed write on a connected session whose send is registered, no number of later sends
-- starts a write: the registration stays, and the queue is what was queued before the failure, then
-- the failed buffers, then those sent since.
pub write_failed_stalls :
    (bs : List Outgoing) (s : TcpSession)
    → s.connected ≡ true
    → s.send_registered ≡ true
    → let t = send_all bs (write_failed s) in
      (t.log ≡ s.log)
      × (t.send_registered ≡ true)
      × (t.send_queue ≡ (s.send_queue ++ s.current_send_buffers) ++ bs)
unfolding write_failed
write_failed_stalls bs s c r =
    let failed = record s {
      send_queue = s.send_queue ++ s.current_send_buffers;
      current_send_buffers = [];
    } in
    rw (send_all-registered bs failed c r) (refl, r, refl)
