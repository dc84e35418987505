-- ===== src/Framing.antt =====
-- `TcpSession::IsParsingPacket` (ClientNetworkCore/Session.cpp) and `UdpReceiver::IsParsingPacket`
-- (ClientNetworkCore/UdpReceiver.cpp): one loop over the received bytes, for the two header sizes.
-- A packet starts with `uint16 size; uint16 id;`, little endian; `size` counts the header too.
-- The calls of `OnRecv` are listed, in order, with the bytes that they are given.
pub mod Split
pub mod Loop
pub mod Encode
pub mod Intake
mod Tests
use jam_client_prototype.Prelude.{
  ℕ, zero, suc, ◌+◌, ◌-◌, ◌*◌, ◌||◌, List, [], ◌∷◌, ltb, if◌then◌else◌, get_or, take, drop,
}

-- sizeof(TcpPacketHeader) and sizeof(UdpPacketHeader)
abbrev pub tcp_header_size : ℕ
tcp_header_size = 4

abbrev pub udp_header_size : ℕ
udp_header_size = 6

-- The `uint16` at an offset.
unfoldable pub read_u16 : List ℕ → ℕ → ℕ
read_u16 buffer at = get_or buffer at 0 + 256 * get_or buffer (at + 1) 0

-- What the loop has found: the bytes processed, and the packets given to `OnRecv`.
pub record Parsed : Type 0 where
  pub process_len : ℕ
  pub packets : List (List ℕ)

-- `while (true)` from `processLen` on. Fuel above `len - processLen` is enough (Loop).
unfoldable pub parse_from : ℕ → ℕ → List ℕ → ℕ → ℕ → Parsed
parse_from header zero buffer len process_len = record { process_len = process_len; packets = [] }
parse_from header (suc fuel) buffer len process_len =
    let data_size = len - process_len in
    let size = read_u16 buffer process_len in
    let rest = parse_from header fuel buffer len (process_len + size) in
    if ltb data_size header
    then record { process_len = process_len; packets = [] }
    else if ltb data_size size || ltb size header
    then record { process_len = process_len; packets = [] }
    else record rest { packets = take size (drop process_len buffer) ∷ rest.packets }

unfoldable pub is_parsing_packet : ℕ → List ℕ → ℕ → Parsed
unfolding parse_from
is_parsing_packet header buffer len = parse_from header (suc len) buffer len 0
