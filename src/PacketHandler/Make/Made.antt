-- ===== src/PacketHandler/Make/Made.antt =====
-- `MakeSendBufferImpl` on a ready manager: no crash, and the packet stands in the buffer.
use jam_client_prototype.Prelude.{
  ℕ, ◌+◌, ◌%◌, ◌≤◌, ◌<◌, ◌≡◌, refl, sym, ◌∙◌, inl, inr, false, some, List, ◌++◌, arith, ◌==◌,
  ==-refl, Bool-cases, length, drop, overwrite, length-overwrite,
}
use jam_client_prototype.Framing.{read_u16}
use jam_client_prototype.Framing.Encode.{IsPacket}
use jam_client_prototype.SendBuffer.{
  ok, chunk_size, SendBufferChunk, SendBuffer, SendBufferManager, put,
}
use jam_client_prototype.SendBuffer.Regions.{IsValid}
use jam_client_prototype.SendBuffer.Manage.{IsReady, Served, open_buffer-Served}
use jam_client_prototype.PacketHandler.Make.{
  bytes_u16, write_packet, fill, make_send_buffer, contents,
}
use jam_client_prototype.PacketHandler.Make.Window.{
  window, drop-window, fields, IsPacket-window, id-window,
}

-- What a sender gets: a closed buffer with a packet of this id and payload, and a manager that is
-- ready again.
pub record Made (header id : ℕ) (payload : List ℕ) (b : SendBuffer) (t : SendBufferManager)
    : Type 0 where
  pub packet : IsPacket header (contents b t)
  pub id_ : read_u16 (contents b t) 2 ≡ id
  pub payload_ : drop header (contents b t) ≡ payload
  pub ready : IsReady t

-- Closing what was opened puts the written chunk back, closed.
put-IsReady :
    (size : ℕ) (b : SendBuffer) (m : SendBufferManager) (c : SendBufferChunk)
    → Served size b m
    → IsValid c
    → c.is_open ≡ false
    → IsReady (put b.owner c m)
put-IsReady size b m c v w shut = record {
  valid = λ j. elim (Bool-cases (j == b.owner)) [ inl e ↦ rw e w | inr e ↦ rw e (v.valid j) ];
  closed = λ j e.
      let same : some j ≡ some b.owner = sym e ∙ v.local_ in
      let eq_ : j ≡ b.owner = cc in rw (eq_, ==-refl b.owner) shut;
}

module _ (header id : ℕ) (payload : List ℕ) where
  fill-eq :
      (b : SendBuffer) (m : SendBufferManager)
      → header + length payload ≤ chunk_size
      → Served (header + length payload) b m
      → let size = header + length payload in
        let c = write_packet header size id payload b.offset (m.chunks b.owner) in
        fill header id payload (some b, m)
        ≡ ok (
          record b { write_size = size },
          put b.owner (record c { is_open = false; used_size = c.used_size + size }) m,
        )
  unfolding fill
  fill-eq b m hi v =
      let e : length payload % 65536 ≡ length payload = omega arith in
      let f : (length payload + header) % 65536 ≡ header + length payload = omega arith in
      rw (e, f) (ground (arith, v.opened, v.alloc))

  fill-Made :
      (b : SendBuffer) (m : SendBufferManager)
      → 4 ≤ header
      → header + length payload ≤ chunk_size
      → id < 65536
      → Served (header + length payload) b m
      → (c : SendBuffer) × ((t : SendBufferManager) × (fill header id payload (some b, m)
            ≡ ok (c, t))
          × Made header id payload c t)
  unfolding read_u16 write_packet window fields
  fill-Made b m lo hi range v =
      let size = header + length payload in
      let array = (m.chunks b.owner).buffer in
      let front = bytes_u16 size ++ bytes_u16 id in
      let fits : b.offset + header + length payload ≤ length array =
        omega (arith, v.within, (v.valid b.owner).sized) in
      let c1 = write_packet header size id payload b.offset (m.chunks b.owner) in
      let c2 = record c1 { is_open = false; used_size = c1.used_size + size } in
      let closed = record b { write_size = size } in
      let t = put b.owner c2 m in
      let bytes : contents closed t ≡ window header b.offset front payload array =
        rw (==-refl b.owner) refl in
      let inner = overwrite array b.offset front in
      (
        closed,
        (
          t,
          fill-eq b m hi v,
          record {
            packet = rw bytes (IsPacket-window header b.offset id payload array lo hi fits);
            id_ = rw bytes (id-window header b.offset id payload array lo range fits);
            payload_ = rw bytes (drop-window header b.offset front payload array lo fits);
            ready =
                put-IsReady size b m c2 v
                  (record {
                    sized = omega (
                      arith,
                      (v.valid b.owner).sized,
                      length-overwrite array front b.offset (omega arith),
                      length-overwrite inner payload (b.offset + header)
                          (omega (arith, length-overwrite array front b.offset (omega arith))),
                    );
                    within = omega (arith, v.within, v.start);
                  })
                  refl;
          },
        ),
      )

-- A payload that fits with its header into a chunk is made into a packet: nothing crashes, the
-- closed buffer holds a packet with the id and the payload, of the size that its header says, and
-- the manager is ready for the next one.
pub make_send_buffer-Made :
    (header id : ℕ) (payload : List ℕ) (m : SendBufferManager)
    → IsReady m
    → 4 ≤ header
    → header + length payload ≤ chunk_size
    → id < 65536
    → (b : SendBuffer) × ((t : SendBufferManager) × (make_send_buffer header id payload m
          ≡ ok (b, t))
        × Made header id payload b t)
unfolding make_send_buffer
make_send_buffer-Made header id payload m ready lo hi range =
    let size : (length payload % 65536 + header) % 65536 ≡ header + length payload = omega arith in
    let (b, (t, opened, served)) = open_buffer-Served (header + length payload) m ready hi in
    let (c, (t', filled, made)) = fill-Made header id payload b t lo hi range served in
    (c, (t', rw (size, opened) filled, made))
