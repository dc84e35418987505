-- ===== src/GameSession/Stream.antt =====
-- From the packets that one side makes to the handlers that the other side calls: MakeSendBufferImpl,
-- the TCP stream in segments, the parsing loop and the dispatch.
use jam_client_prototype.RecvBuffer.{Memcpy}
use mathlib.Core.Path.{subst}
use mathlib.Core.List.{map-append}
use jam_client_prototype.Prelude.{
  ℕ, ◌+◌, ◌≤◌, ◌<◌, ◌≡◌, refl, sym, ap, ◌∙◌, Bool, Option, List, [], ◌∷◌, ◌++◌, map, append-nil,
  arith, length,
}
use jam_client_prototype.RecvBuffer.Stream.{unread}
use jam_client_prototype.Framing.{tcp_header_size}
use jam_client_prototype.Framing.Split.{Splits, Splits-unique, Complete, concat}
use jam_client_prototype.Framing.Encode.{ArePackets, Splits-concat}
use jam_client_prototype.SendBuffer.{Outcome, ok, crash, chunk_size, SendBufferManager, ◌>>=◌}
use jam_client_prototype.SendBuffer.Manage.{IsReady}
use jam_client_prototype.TcpSession.{TcpSession}
use jam_client_prototype.TcpSession.Receive.{IsLive}
use jam_client_prototype.TcpSession.Chunks.{receive_all, Fits, delivered, receive_all-Streamed}
use jam_client_prototype.PacketHandler.{Handler, handler_at, handle_tcp}
use jam_client_prototype.PacketHandler.Make.{make_send_buffer, contents}
use jam_client_prototype.PacketHandler.Make.Made.{make_send_buffer-Made}
use jam_client_prototype.GameSession.{tcp_on_recv}

-- A message: the id and the payload.
abbrev pub Message : Type 0
Message = ℕ × List ℕ

-- The bytes of the packets made of messages, one after the other, on one manager.
unfoldable pub make_all : List Message → SendBufferManager → Outcome (List (List ℕ))
make_all [] m = ok []
make_all ((id, payload) ∷ messages) m = make_send_buffer tcp_header_size id payload m >>= λ made.
    make_all messages made.1 >>= λ packets. ok (contents made.0 made.1 ∷ packets)

-- Each fits with a header into a chunk, and its id into 16 bits.
abbrev pub AreSmall : List Message → Type 0
AreSmall [] = Unit {0}
AreSmall ((id, payload) ∷ messages) =
    (tcp_header_size + length payload ≤ chunk_size) × (id < 65536) × AreSmall messages

-- What `OnRecv` does with the packet of a message
abbrev pub meant : (ℕ → Handler) → Message → Option Handler × List ℕ
meant table (id, payload) = (handler_at table id, payload)

-- Packets that are whole, and that mean the messages.
abbrev Carries : (ℕ → Handler) → List Message → List (List ℕ) → Type 0
Carries table messages packets =
    ArePackets tcp_header_size packets
    × (map (tcp_on_recv table) packets ≡ map (meant table) messages)

make_all-Carries :
    (table : ℕ → Handler) (messages : List Message) (m : SendBufferManager)
    → IsReady m
    → AreSmall messages
    → (packets : List (List ℕ)) × (make_all messages m ≡ ok packets)
      × Carries table messages packets
unfolding make_all tcp_on_recv handle_tcp
make_all-Carries table [] m ready small = ([], refl, (tt, refl))
make_all-Carries table ((id, payload) ∷ messages) m ready (fits, range, small) =
    let (b, (t, run, made)) =
      make_send_buffer-Made tcp_header_size id payload m ready (omega arith) fits range in
    let (packets, rest, carried) = make_all-Carries table messages t made.ready small in
    (
      contents b t ∷ packets,
      rw (run, rest) refl,
      (
        (made.packet, carried.0),
        λ i. (handler_at table (made.id_ i), made.payload_ i) ∷ carried.1 i,
      ),
    )

-- What the sender hands to the network.
abbrev pub bytes_of : Outcome (List (List ℕ)) → List ℕ
bytes_of (ok packets) = concat packets
bytes_of crash = []

-- On a ready manager, messages whose ids and sizes fit are made into packets without a crash. When
-- these bytes reach a live session that has nothing unread in non-empty segments, each fitting into
-- the space offered and with no overlapping copy by `Clean` after it, `OnRecv` calls for each message, in order, the handler of its id on its
-- payload, nothing is left unread, and the session is live.
pub receive_all-make_all :
    ⦃mc : Memcpy⦄
    → (table : ℕ → Handler) (messages : List Message) (m : SendBufferManager) (close_failed : Bool)
      (bytes : List ℕ) (more : List (List ℕ)) (s : TcpSession)
    → IsReady m
    → AreSmall messages
    → IsLive s
    → unread s.recv_buffer ≡ []
    → Fits close_failed (bytes ∷ more) s
    → concat (bytes ∷ more) ≡ bytes_of (make_all messages m)
    → let r = receive_all close_failed (bytes ∷ more) s in
      ((packets : List (List ℕ)) × (make_all messages m ≡ ok packets))
      × (map (tcp_on_recv table) (delivered r.log)
          ≡ map (tcp_on_recv table) (delivered s.log) ++ map (meant table) messages)
      × (unread r.recv_buffer ≡ [])
      × IsLive r
receive_all-make_all table messages m close_failed bytes more s ready small live empty fits same =
    let r = receive_all close_failed (bytes ∷ more) s in
    let (packets', run, carried) = make_all-Carries table messages m ready small in
    let (ps, splits, told, live') = receive_all-Streamed close_failed bytes more s live fits in
    let stream : unread s.recv_buffer ++ concat (bytes ∷ more) ≡ concat packets' ++ [] =
      ap (λ t. t ++ concat (bytes ∷ more)) empty
      ∙ same
      ∙ ap bytes_of run
      ∙ sym (append-nil (concat packets')) in
    let none_left : ¬ Complete tcp_header_size [] = λ c. absurd (omega (arith, c.0)) in
    let found =
      Splits-unique
        (subst (λ xs. Splits tcp_header_size xs ps (unread r.recv_buffer)) stream splits)
        (Splits-concat tcp_header_size packets' [] (omega arith) carried.0 none_left) in
    (
      (packets', run),
      ap (map (tcp_on_recv table)) told
          ∙ map-append (tcp_on_recv table) (delivered s.log) ps
          ∙ ap (λ t. map (tcp_on_recv table) (delivered s.log) ++ t)
              (ap (map (tcp_on_recv table)) found.0 ∙ carried.1),
      found.1,
      live',
    )
