-- ===== src/PacketHandler/Make.antt =====
-- `ServerPacketHandler::MakeSendBufferImpl`: a packet is written into a send buffer.
pub mod Window
pub mod Made
use jam_client_prototype.Prelude.{
  ℕ, ◌+◌, ◌/◌, ◌%◌, Option, none, some, List, [], ◌∷◌, ◌++◌, leb, length, take, drop, overwrite,
}
use jam_client_prototype.Framing.{read_u16, tcp_header_size, udp_header_size}
use jam_client_prototype.Framing.Encode.{IsPacket}
use jam_client_prototype.PacketHandler.{PacketId, code}
use jam_client_prototype.SendBuffer.{
  Outcome, ok, crash, ◌>>=◌, ◌>>◌, assert_crash, chunk_size, SendBufferChunk, SendBuffer,
  SendBufferManager, open_buffer, close_buffer, put,
}
use jam_client_prototype.SendBuffer.Regions.{IsValid}
use jam_client_prototype.SendBuffer.Manage.{IsReady, Served, open_buffer-Served}

-- The two bytes of a `uint16`.
abbrev pub bytes_u16 : ℕ → List ℕ
bytes_u16 n = (n % 256) ∷ (n / 256 % 256) ∷ []

-- What is written into the chunk: the fields `size` and `id`, and the payload behind the header.
-- The `sequence` field of a UDP header is not written.
unfoldable pub write_packet : ℕ → ℕ → ℕ → List ℕ → ℕ → SendBufferChunk → SendBufferChunk
write_packet header size id payload offset c = record c {
  buffer =
      overwrite (overwrite c.buffer offset (bytes_u16 size ++ bytes_u16 id)) (offset + header)
        payload;
}

-- The part behind `Open`: `none` is the null pointer. `SerializeToArray` fails when the payload does
-- not fit into the given size.
unfoldable pub fill :
    ℕ
    → ℕ
    → List ℕ
    → Option SendBuffer × SendBufferManager
    → Outcome (SendBuffer × SendBufferManager)
unfolding write_packet close_buffer
fill header id payload (none, m) = crash
fill header id payload (some b, m) =
    let data_size = length payload % 65536 in
    let packet_size = (data_size + header) % 65536 in
    do
      assert_crash (leb (length payload) data_size)
      (closed, c) ←
          close_buffer packet_size b
            (write_packet header packet_size id payload b.offset (m.chunks b.owner))
      ok (closed, put b.owner c m)

unfoldable pub make_send_buffer :
    ℕ → ℕ → List ℕ → SendBufferManager → Outcome (SendBuffer × SendBufferManager)
unfolding fill open_buffer
make_send_buffer header id payload m =
    open_buffer ((length payload % 65536 + header) % 65536) m >>= fill header id payload

-- `MakeSendBufferTcp` and `MakeSendBufferUdp` of a packet with this serialised payload.
unfoldable pub make_send_buffer_tcp :
    PacketId → List ℕ → SendBufferManager → Outcome (SendBuffer × SendBufferManager)
unfolding code
make_send_buffer_tcp p payload m = make_send_buffer tcp_header_size (code p) payload m

unfoldable pub make_send_buffer_udp :
    PacketId → List ℕ → SendBufferManager → Outcome (SendBuffer × SendBufferManager)
unfolding code
make_send_buffer_udp p payload m = make_send_buffer udp_header_size (code p) payload m

-- The bytes of a closed buffer.
abbrev pub contents : SendBuffer → SendBufferManager → List ℕ
contents b m = take b.write_size (drop b.offset (m.chunks b.owner).buffer)
