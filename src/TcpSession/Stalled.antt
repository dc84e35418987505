-- ===== src/TcpSession/Stalled.antt =====
-- A TCP session that has received a header whose size is below a header's.
use jam_client_prototype.RecvBuffer.{Memcpy}
use jam_client_prototype.Prelude.{
  ℕ, ◌≤◌, ◌<◌, ◌≡◌, ap, ◌∙◌, Bool, true, false, List, [], ◌∷◌, ◌++◌, append-nil, arith, length,
}
use jam_client_prototype.RecvBuffer.Stream.{unread}
use jam_client_prototype.Framing.{read_u16, tcp_header_size}
use jam_client_prototype.Framing.Split.{stop, Splits-unique, Complete, concat, read_u16-append}
use jam_client_prototype.TcpSession.{receive_done, Memcpy, TcpSession}
use jam_client_prototype.TcpSession.Receive.{IsLive}
use jam_client_prototype.TcpSession.Chunks.{receive_all, Fits, delivered, receive_all-Streamed}

-- When at least two bytes wait in a live session and they start with a size below that of a header,
-- a run of receives whose segments fit, with no overlapping copy, delivers no packet and leaves the
-- session connected with its socket open; an empty receive after it, which is all that a full buffer
-- offers, disconnects the session.
pub receive_all_stalls :
    ⦃mc : Memcpy⦄
    → (close_failed : Bool) (bytes : List ℕ) (more : List (List ℕ)) (s : TcpSession) → IsLive s
    → Fits close_failed (bytes ∷ more) s
    → 2 ≤ length (unread s.recv_buffer)
    → read_u16 (unread s.recv_buffer) 0 < tcp_header_size
    → let t = receive_all close_failed (bytes ∷ more) s in
      (delivered t.log ≡ delivered s.log)
      × (t.connected ≡ true)
      × (t.socket_open ≡ true)
      × ((receive_done close_failed [] t).connected ≡ false)
receive_all_stalls close_failed bytes more s live fits some_size bad =
    let r = receive_all-Streamed close_failed bytes more s live fits in
    let same = read_u16-append (unread s.recv_buffer) (concat (bytes ∷ more)) some_size in
    let none_there : ¬ Complete tcp_header_size (unread s.recv_buffer ++ concat (bytes ∷ more)) =
      λ c. absurd (omega (arith, c.1, same)) in
    let empty = (Splits-unique r.1 (stop none_there)).0 in
    (
      r.2 ∙ ap (λ ps. delivered s.log ++ ps) empty ∙ append-nil (delivered s.log),
      r.3.connected,
      r.3.socket,
      unfold receive_done in ground (arith, r.3.connected, r.3.socket),
    )
