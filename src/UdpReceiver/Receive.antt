-- ===== src/UdpReceiver/Receive.antt =====
-- `UdpReceiver::ProcessRecv`: what one datagram delivers, and what stops the receiver.
use jam_client_prototype.Prelude.{
  ℕ, ◌≤◌, ◌<◌, ◌≡◌, refl, ap, ◌∙◌, true, false, Option, none, some, List, [], ◌∷◌, ◌++◌, map,
  append-nil, arith, length,
}
use jam_client_prototype.RecvBuffer.{Memcpy, free_size, on_write, store}
use jam_client_prototype.RecvBuffer.Bounds.{IsValid}
use jam_client_prototype.RecvBuffer.Stream.{unread}
use jam_client_prototype.Framing.{udp_header_size, read_u16}
use jam_client_prototype.Framing.Split.{Splits, stop, Splits-unique, Complete, read_u16-append}
use jam_client_prototype.Framing.Intake.{overlaps, parsed, cleaned, intake-Taken}
use jam_client_prototype.Service.{find_or_create_udp_session}
use jam_client_prototype.UdpReceiver.{UdpReceiver, receives, on_recv, receive_done}

-- What a datagram of `bytes` does.
pub record Received (from : ℕ) (created : Option ℕ) (bytes : List ℕ) (r t : UdpReceiver)
    : Type 0 where
  pub packets : List (List ℕ)
  pub splits : Splits udp_header_size (unread r.recv_buffer ++ bytes) packets (unread t.recv_buffer)
  pub valid : IsValid t.recv_buffer
  pub service : t.service ≡ (find_or_create_udp_session from created r.service).1
  pub told :
      t.log
      ≡ (r.log ++ map (on_recv (find_or_create_udp_session from created r.service).0) packets)
        ++ (receives (free_size t.recv_buffer) ∷ [])

-- A non-empty datagram that fits into the free space of a valid buffer, on an open socket, after
-- which `Clean` copies no overlapping ranges, is
-- handled without a failure: the packets at the front of what was unread, whoever had sent that,
-- and the new bytes are given to `OnRecv` with the session of the new datagram's sender; the rest
-- stays unread, and the next receive is started on the free space.
pub datagram-Received :
    ⦃mc : Memcpy⦄
    → (from : ℕ) (created : Option ℕ) (bytes : List ℕ) (r : UdpReceiver) → r.socket_open ≡ true
    → IsValid r.recv_buffer
    → 0 < length bytes
    → length bytes ≤ free_size r.recv_buffer
    → overlaps udp_header_size bytes r.recv_buffer ≡ false
    → Received from created bytes r (receive_done from created (some bytes) r)
unfolding receive_done
datagram-Received from created bytes r open_ v some_bytes fits apart =
    let taken = intake-Taken udp_header_size bytes r.recv_buffer (omega arith) v fits apart in
    let new = cleaned udp_header_size bytes r.recv_buffer in
    let found = find_or_create_udp_session from created r.service in
    let packets = (parsed udp_header_size bytes r.recv_buffer).packets in
    let code : receive_done from created (some bytes) r ≡ record r {
      recv_buffer = new;
      service = found.1;
      log = (r.log ++ map (on_recv found.0) packets) ++ (receives (free_size new) ∷ []);
    } =
      ground (arith, taken.accepted, taken.short, taken.read, open_) in
    rw code (record {
      packets = packets;
      splits = taken.splits;
      valid = taken.valid;
      service = refl;
      told = refl;
    })

-- On an open socket with a valid buffer, when at least two bytes wait and they start with a size
-- below that of a header, a further non-empty datagram that fits, with no overlapping copy, delivers nothing and is kept
-- behind the waiting bytes, and the next receive is started.
pub datagram_stalls :
    ⦃mc : Memcpy⦄
    → (from : ℕ) (created : Option ℕ) (bytes : List ℕ) (r : UdpReceiver) → r.socket_open ≡ true
    → IsValid r.recv_buffer
    → 0 < length bytes
    → length bytes ≤ free_size r.recv_buffer
    → overlaps udp_header_size bytes r.recv_buffer ≡ false
    → 2 ≤ length (unread r.recv_buffer)
    → read_u16 (unread r.recv_buffer) 0 < udp_header_size
    → let t = receive_done from created (some bytes) r in
      (t.log ≡ r.log ++ (receives (free_size t.recv_buffer) ∷ []))
      × (unread t.recv_buffer ≡ unread r.recv_buffer ++ bytes)
datagram_stalls from created bytes r open_ v some_bytes fits apart two bad =
    let got = datagram-Received from created bytes r open_ v some_bytes fits apart in
    let same = read_u16-append (unread r.recv_buffer) bytes two in
    let none_there : ¬ Complete udp_header_size (unread r.recv_buffer ++ bytes) =
      λ c. absurd (omega (arith, c.1, same)) in
    let split = Splits-unique got.splits (stop none_there) in
    let session = (find_or_create_udp_session from created r.service).0 in
    let t = receive_done from created (some bytes) r in
    (
      got.told
          ∙ ap
              (λ ps.
                (r.log ++ map (on_recv session) ps) ++ (receives (free_size t.recv_buffer) ∷ []))
              split.0
          ∙ ap (λ l. l ++ (receives (free_size t.recv_buffer) ∷ [])) (append-nil r.log),
      split.1,
    )

-- After a receive error, an empty datagram, or one longer than the free space, nothing is delivered
-- and no receive is started.
pub receiver_stops :
    ⦃mc : Memcpy⦄
    → (from : ℕ) (created : Option ℕ) (bytes : List ℕ) (r : UdpReceiver)
    → free_size r.recv_buffer < length bytes
    → (receive_done from created none r ≡ r)
      × (receive_done from created (some []) r ≡ r)
      × ((receive_done from created (some bytes) r).log ≡ r.log)
unfolding receive_done on_write store free_size
receiver_stops from created bytes r long = (refl, refl, ground arith)
