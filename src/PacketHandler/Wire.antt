-- ===== src/PacketHandler/Wire.antt =====
-- From the sender's `MakeSendBufferImpl` to the receiver's parsing and dispatch.
use jam_client_prototype.Prelude.{
  ℕ, ◌+◌, ◌≤◌, ◌<◌, ◌≡◌, ap, Bool, false, Option, none, some, List, [], ◌∷◌, ◌++◌, append-nil,
  arith, length, drop,
}
use jam_client_prototype.Framing.{is_parsing_packet}
use jam_client_prototype.Framing.Split.{Complete}
use jam_client_prototype.Framing.Encode.{is_parsing_packet-concat}
use jam_client_prototype.SendBuffer.{ok, chunk_size, SendBuffer, SendBufferManager}
use jam_client_prototype.SendBuffer.Manage.{IsReady}
use jam_client_prototype.PacketHandler.{Handler, handler_at, handle_tcp, handle_payload}
use jam_client_prototype.PacketHandler.Make.{make_send_buffer, contents}
use jam_client_prototype.PacketHandler.Make.Made.{make_send_buffer-Made}

-- On a ready manager, a payload that fits with a header of at least 4 bytes into 6000 bytes is made
-- into a buffer without a crash; its bytes are parsed as one packet with nothing left, dispatched
-- by the id, and the handler's parser is given the payload.
pub make_send_buffer-parsed :
    (header id : ℕ) (payload : List ℕ) (m : SendBufferManager) (table : ℕ → Handler)
    (parse : List ℕ → Option (List ℕ)) (func : List ℕ → Bool)
    → IsReady m
    → 4 ≤ header
    → header + length payload ≤ chunk_size
    → id < 65536
    → (b : SendBuffer) × ((t : SendBufferManager) × (make_send_buffer header id payload m
          ≡ ok (b, t))
        × (let bytes = contents b t in
            let r = is_parsing_packet header bytes (length bytes) in
            (r.packets ≡ bytes ∷ [])
            × (drop r.process_len bytes ≡ [])
            × (handle_tcp table bytes ≡ handler_at table id)
            × (handle_payload parse func header bytes
                ≡ elim (parse payload) [ none ↦ false | some p ↦ func p ])))
unfolding handle_tcp handle_payload
make_send_buffer-parsed header id payload m table parse func ready lo hi range =
    let (b, (t, run, made)) = make_send_buffer-Made header id payload m ready lo hi range in
    let bytes = contents b t in
    let none_left : ¬ Complete header [] = λ c. absurd (omega (arith, c.0)) in
    let alone : bytes ++ [] ≡ bytes = append-nil bytes in
    let parsed =
      rw (alone, alone) at
        (is_parsing_packet-concat header (bytes ∷ []) [] (omega arith) (made.packet, tt)
          none_left) in
    (
      b,
      (
        t,
        run,
        (
          parsed.0,
          parsed.1,
          ap (handler_at table) made.id_,
          ap (λ x. elim (parse x) [ none ↦ false | some p ↦ func p ]) made.payload_,
        ),
      ),
    )
