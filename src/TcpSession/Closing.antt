-- ===== src/TcpSession/Closing.antt =====
-- `TcpSession::Disconnect` and the paths into it.
use jam_client_prototype.Prelude.{ℕ, ◌<◌, ◌≡◌, refl, Bool, true, false, [], ◌∷◌, ◌++◌, arith}
use jam_client_prototype.RecvBuffer.{Memcpy, on_write, free_size}
use jam_client_prototype.TcpSession.{
  TcpSession, Outgoing, on_disconnected, releases, disconnect, send, process_send, process_recv,
  receive_failed,
}

-- What a disconnect whose `close` succeeded leaves: nothing queued, nothing registered, and the
-- service told once.
pub record IsClosed (s t : TcpSession) : Type 0 where
  pub connected : t.connected ≡ false
  pub socket : t.socket_open ≡ false
  pub queue : t.send_queue ≡ []
  pub current : t.current_send_buffers ≡ []
  pub registered : t.send_registered ≡ false
  pub told : t.log ≡ (s.log ++ (on_disconnected ∷ [])) ++ (releases ∷ [])

-- A disconnect of an open connection whose `close` succeeds leaves the session disconnected and its
-- socket closed, nothing queued and nothing registered, and tells the derived class and then the
-- service, once each.
pub disconnect-IsClosed :
    (s : TcpSession) → s.connected ≡ true → s.socket_open ≡ true → IsClosed s (disconnect false s)
unfolding disconnect
disconnect-IsClosed s c o = ground arith

-- A second disconnect does nothing, whatever `close` answers in either, and a send after a
-- disconnect does nothing.
pub disconnect_once :
    (f g : Bool) (b : Outgoing) (s : TcpSession)
    → (disconnect g (disconnect f s) ≡ disconnect f s) × (send b (disconnect f s) ≡ disconnect f s)
unfolding disconnect send
disconnect_once f g b s = (ground arith, ground arith)

-- Zero bytes sent, zero bytes received, a receive error and an overlong receive are one outcome.
pub all_disconnect :
    ⦃mc : Memcpy⦄
    → (f : Bool) (n : ℕ) (s : TcpSession) → free_size s.recv_buffer < n
    → (process_send f 0 s ≡ disconnect f s)
      × (process_recv f 0 s ≡ disconnect f s)
      × (receive_failed f s ≡ disconnect f s)
      × (process_recv f n s ≡ disconnect f s)
unfolding process_send process_recv receive_failed on_write
all_disconnect f n s h = (refl, refl, refl, ground arith)

-- When `close` reports an error in the disconnect of an open connection, the session is left
-- disconnected with its send queue and its registration as they were, neither the service nor the
-- derived class is told, and a later disconnect changes nothing.
pub disconnect-close_failed :
    (g : Bool) (s : TcpSession)
    → s.connected ≡ true
    → s.socket_open ≡ true
    → let t = disconnect true s in
      (t.connected ≡ false)
      × (t.send_queue ≡ s.send_queue)
      × (t.send_registered ≡ s.send_registered)
      × (t.log ≡ s.log)
      × (disconnect g t ≡ t)
unfolding disconnect
disconnect-close_failed g s c o = ground arith
