-- ===== src/TcpSession/Chunks.antt =====
-- A TCP session over many receives, and the packets that `OnRecv` is given.
use jam_client_prototype.Framing.Intake.{overlaps}
use jam_client_prototype.Prelude.{
  ℕ, ◌≤◌, ◌<◌, ◌≡◌, refl, sym, ap, ◌∙◌, Bool, false, List, [], ◌∷◌, ◌++◌, map, append_assoc,
  append-nil, arith, length,
}
use jam_client_prototype.RecvBuffer.{Memcpy, free_size}
use jam_client_prototype.RecvBuffer.Stream.{unread}
use jam_client_prototype.Framing.{tcp_header_size}
use jam_client_prototype.Framing.Split.{Splits, Splits-append, Splits-unique, concat}
use jam_client_prototype.TcpSession.{
  TcpSession, Effect, connects, writes, receives, adds, releases, on_connected, on_disconnected,
  on_send, on_recv, receive_done,
}
use jam_client_prototype.TcpSession.Receive.{IsLive, Received, receive_done-Received}

-- One receive after the other.
unfoldable pub receive_all : ⦃mc : Memcpy⦄ → Bool → List (List ℕ) → TcpSession → TcpSession
receive_all close_failed [] s = s
receive_all close_failed (bytes ∷ more) s =
    receive_all close_failed more (receive_done close_failed bytes s)

-- Every segment has a byte and fits into the space that the receive offered, and `Clean` copies no
-- overlapping ranges after it.
abbrev pub Fits : ⦃mc : Memcpy⦄ → Bool → List (List ℕ) → TcpSession → Type 0
Fits close_failed [] s = Unit {0}
Fits close_failed (bytes ∷ more) s =
    (0 < length bytes)
    × (length bytes ≤ free_size s.recv_buffer)
    × (overlaps tcp_header_size bytes s.recv_buffer ≡ false)
    × Fits close_failed more (receive_done close_failed bytes s)

-- The packets among the effects.
abbrev pub delivered : List Effect → List (List ℕ)
delivered [] = []
delivered (on_recv p ∷ es) = p ∷ delivered es
delivered (connects ∷ es) = delivered es
delivered (writes _ ∷ es) = delivered es
delivered (receives _ ∷ es) = delivered es
delivered (adds ∷ es) = delivered es
delivered (releases ∷ es) = delivered es
delivered (on_connected ∷ es) = delivered es
delivered (on_disconnected ∷ es) = delivered es
delivered (on_send _ ∷ es) = delivered es

delivered-append : (es fs : List Effect) → delivered (es ++ fs) ≡ delivered es ++ delivered fs
delivered-append [] fs = refl
delivered-append (on_recv p ∷ es) fs = ap (λ t. p ∷ t) (delivered-append es fs)
delivered-append (connects ∷ es) fs = delivered-append es fs
delivered-append (writes _ ∷ es) fs = delivered-append es fs
delivered-append (receives _ ∷ es) fs = delivered-append es fs
delivered-append (adds ∷ es) fs = delivered-append es fs
delivered-append (releases ∷ es) fs = delivered-append es fs
delivered-append (on_connected ∷ es) fs = delivered-append es fs
delivered-append (on_disconnected ∷ es) fs = delivered-append es fs
delivered-append (on_send _ ∷ es) fs = delivered-append es fs

delivered-map : (ps : List (List ℕ)) → delivered (map on_recv ps) ≡ ps
delivered-map [] = refl
delivered-map (p ∷ ps) = ap (λ t. p ∷ t) (delivered-map ps)

-- The packets of one receive.
delivered-Received :
    (s t : TcpSession) (bytes : List ℕ) (r : Received s bytes t)
    → delivered t.log ≡ delivered s.log ++ r.packets
delivered-Received s t bytes r =
    ap delivered r.told
    ∙ delivered-append (s.log ++ map on_recv r.packets) (receives (free_size t.recv_buffer) ∷ [])
    ∙ append-nil (delivered (s.log ++ map on_recv r.packets))
    ∙ delivered-append s.log (map on_recv r.packets)
    ∙ ap (λ d. delivered s.log ++ d) (delivered-map r.packets)

-- What a session has delivered and kept after bytes `xs` beyond the state `s`.
abbrev pub Streamed : TcpSession → List ℕ → TcpSession → Type 0
Streamed s xs t =
    (ps : List (List ℕ)) × Splits tcp_header_size (unread s.recv_buffer ++ xs) ps
      (unread t.recv_buffer)
    × (delivered t.log ≡ delivered s.log ++ ps)
    × IsLive t

-- A run of receives that starts between packets delivers the packets at the front of the stream.
pub receive_all-Streamed :
    ⦃mc : Memcpy⦄
    → (close_failed : Bool) (bytes : List ℕ) (more : List (List ℕ)) (s : TcpSession) → IsLive s
    → Fits close_failed (bytes ∷ more) s
    → Streamed s (concat (bytes ∷ more)) (receive_all close_failed (bytes ∷ more) s)
unfolding receive_all
receive_all-Streamed close_failed bytes [] s live fits =
    let r = receive_done-Received close_failed bytes s live fits.0 fits.1 fits.2 in
    (r.packets, rw (append-nil bytes) r.splits, delivered-Received s _ bytes r, r.live)
receive_all-Streamed close_failed bytes (next ∷ more) s live fits =
    let s' = receive_done close_failed bytes s in
    let r = receive_done-Received close_failed bytes s live fits.0 fits.1 fits.2 in
    let rest = receive_all-Streamed close_failed next more s' r.live fits.3 in
    (
      r.packets ++ rest.0,
      rw (← append_assoc (unread s.recv_buffer) bytes (concat (next ∷ more)))
          (Splits-append (omega arith) r.splits (concat (next ∷ more)) rest.1),
      rest.2
          ∙ ap (λ d. d ++ rest.0) (delivered-Received s s' bytes r)
          ∙ append_assoc (delivered s.log) r.packets rest.0,
      rest.3,
    )

-- Two runs from one live session over the same non-empty stream, cut into non-empty segments
-- in any two ways where each segment fits into the space that its receive offered and `Clean` copies
-- no overlapping ranges after it, deliver the same packets in the same order and leave the same
-- bytes unread.
pub receive_all_same :
    ⦃mc : Memcpy⦄
    → (close_failed : Bool) (a b : List ℕ) (more other : List (List ℕ)) (s : TcpSession) → IsLive s
    → Fits close_failed (a ∷ more) s
    → Fits close_failed (b ∷ other) s
    → concat (a ∷ more) ≡ concat (b ∷ other)
    → (delivered (receive_all close_failed (a ∷ more) s).log
        ≡ delivered (receive_all close_failed (b ∷ other) s).log)
      × (unread (receive_all close_failed (a ∷ more) s).recv_buffer
          ≡ unread (receive_all close_failed (b ∷ other) s).recv_buffer)
receive_all_same close_failed a b more other s live fa fb e =
    let ra = receive_all-Streamed close_failed a more s live fa in
    let rb = receive_all-Streamed close_failed b other s live fb in
    let same = Splits-unique (rw (← e) ra.1) rb.1 in
    (ra.2 ∙ ap (λ d. delivered s.log ++ d) same.0 ∙ sym rb.2, same.1)
