-- ===== src/PacketHandler/Make/Window.antt =====
-- The bytes of a made packet, read back from the chunk that they were written into.
use jam_client_prototype.Prelude.{
  ℕ, ◌+◌, ◌-◌, ◌≤◌, ◌<◌, ◌≡◌, refl, sym, ap, ◌∙◌, List, ◌++◌, arith, length, get_or, take, drop,
  length-take, length-drop, take-length, drop-length, drop-drop, drop-take, get_or-drop,
  get_or-take, overwrite, length-overwrite, get_or-overwrite_in, get_or-overwrite_before,
  get_or-overwrite_after,
}
use jam_client_prototype.Framing.{read_u16}
use jam_client_prototype.Framing.Encode.{IsPacket}
use jam_client_prototype.SendBuffer.{chunk_size, SendBufferChunk}
use jam_client_prototype.PacketHandler.Make.{bytes_u16, write_packet}

-- Bytes `front` at `offset`, and the payload `header` bytes behind: the window reads both back.
module _ (header offset : ℕ) (front payload array : List ℕ) where
  unfoldable pub window : List ℕ
  window =
      take (header + length payload)
        (drop offset (overwrite (overwrite array offset front) (offset + header) payload))

  get_or-window :
      (i : ℕ)
      → i < length front
      → length front ≤ header
      → offset + header + length payload ≤ length array
      → get_or window i 0 ≡ get_or front i 0
  unfolding window
  get_or-window i h k fits =
      let inner = overwrite array offset front in
      get_or-take (header + length payload) i
        (drop offset (overwrite inner (offset + header) payload)) 0 (omega arith)
      ∙ get_or-drop offset i (overwrite inner (offset + header) payload) 0
      ∙ get_or-overwrite_before inner payload (offset + header) (offset + i) 0
          (omega (arith, length-overwrite array front offset (omega arith))) (omega arith)
      ∙ get_or-overwrite_in array front offset i 0 (omega arith) h

  pub drop-window :
      length front ≤ header
      → offset + header + length payload ≤ length array
      → drop header window ≡ payload
  unfolding window
  drop-window k fits =
      let inner = overwrite array offset front in
      let size : length (take (offset + header) inner) ≡ offset + header = omega (
        arith,
        length-take (offset + header) inner,
        length-overwrite array front offset (omega arith),
      ) in
      let rest = drop (offset + header + length payload) inner in
      let n : header + length payload - header ≡ length payload = omega arith in
      drop-take header (header + length payload)
        (drop offset (overwrite inner (offset + header) payload)) (omega arith)
      ∙ ap (λ j. take j (drop header (drop offset (overwrite inner (offset + header) payload)))) n
      ∙ ap (take (length payload)) (
          drop-drop offset header (overwrite inner (offset + header) payload)
          ∙ drop-length (take (offset + header) inner) (payload ++ rest) (offset + header)
              (sym size))
      ∙ take-length payload rest (length payload) refl

  length-window :
      length front ≤ header
      → offset + header + length payload ≤ length array
      → length window ≡ header + length payload
  unfolding window
  length-window k fits =
      let inner = overwrite array offset front in
      omega (
        arith,
        length-take (header + length payload)
            (drop offset (overwrite inner (offset + header) payload)),
        length-drop offset (overwrite inner (offset + header) payload),
        length-overwrite inner payload (offset + header)
            (omega (arith, length-overwrite array front offset (omega arith))),
        length-overwrite array front offset (omega arith),
      )

-- The fields `size` and `id` of the window.
module _ (header offset id : ℕ) (payload array : List ℕ) where
  unfoldable pub fields : List ℕ
  fields = bytes_u16 (header + length payload) ++ bytes_u16 id

  pub IsPacket-window :
      4 ≤ header
      → header + length payload ≤ chunk_size
      → offset + header + length payload ≤ length array
      → IsPacket header (window header offset fields payload array)
  unfolding fields read_u16
  IsPacket-window lo hi fits =
      let size = length-window header offset fields payload array lo fits in
      (
        omega (arith, size),
        omega (
          arith,
          size,
          get_or-window header offset fields payload array 0 (omega arith) lo fits,
          get_or-window header offset fields payload array 1 (omega arith) lo fits,
        ),
      )

  pub id-window :
      4 ≤ header
      → id < 65536
      → offset + header + length payload ≤ length array
      → read_u16 (window header offset fields payload array) 2 ≡ id
  unfolding fields read_u16
  id-window lo range fits = omega (
    arith,
    get_or-window header offset fields payload array 2 (omega arith) lo fits,
    get_or-window header offset fields payload array 3 (omega arith) lo fits,
  )

-- The `sequence` field of a UDP packet keeps the bytes that stood in the chunk.
pub sequence-write_packet :
    (size id offset : ℕ) (payload : List ℕ) (c : SendBufferChunk)
    → offset + 6 + length payload ≤ length c.buffer
    → read_u16 (write_packet 6 size id payload offset c).buffer (offset + 4)
      ≡ read_u16 c.buffer (offset + 4)
unfolding read_u16 write_packet
sequence-write_packet size id offset payload c fits =
    let front = bytes_u16 size ++ bytes_u16 id in
    let inner = overwrite c.buffer offset front in
    let wide : offset + 6 ≤ length inner =
      omega (arith, length-overwrite c.buffer front offset (omega arith)) in
    omega (
      arith,
      get_or-overwrite_before inner payload (offset + 6) (offset + 4) 0 wide (omega arith),
      get_or-overwrite_before inner payload (offset + 6) (offset + 4 + 1) 0 wide (omega arith),
      get_or-overwrite_after c.buffer front offset (offset + 4) 0 (omega arith) (omega arith),
      get_or-overwrite_after c.buffer front offset (offset + 4 + 1) 0 (omega arith) (omega arith),
    )
