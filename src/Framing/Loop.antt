-- ===== src/Framing/Loop.antt =====
-- The loop of `IsParsingPacket` splits the first `len` bytes as the reference says, and ends.
use jam_client_prototype.Prelude.{
  ℕ, zero, suc, ◌+◌, ◌-◌, ◌≤◌, ◌<◌, ◌≡◌, ap, ◌∙◌, inl, inr, true, ◌||◌, List, ◌∷◌, arith, ltb,
  ltb→lt, ltb→le, Bool-cases, length, get_or, take, drop, length-take, length-drop, drop-drop,
  drop-take, take-take, get_or-drop, get_or-take,
}
use native.Mathlib.Nat.{add-zero}
use jam_client_prototype.Framing.{Parsed, read_u16, parse_from, is_parsing_packet}
use jam_client_prototype.Framing.Split.{Complete, Splits, stop, packet}

-- The bytes that the loop has in front of it.
abbrev left : List ℕ → ℕ → ℕ → List ℕ
left buffer len at = drop at (take len buffer)

length-left :
    (buffer : List ℕ) (len at : ℕ) → len ≤ length buffer → length (left buffer len at) ≡ len - at
length-left buffer len at h =
    omega (arith, length-drop at (take len buffer), length-take len buffer)

read_u16-left :
    (buffer : List ℕ) (len at : ℕ)
    → at + 2 ≤ len
    → read_u16 (left buffer len at) 0 ≡ read_u16 buffer at
unfolding read_u16
read_u16-left buffer len at h = omega (
  arith,
  get_or-drop at 0 (take len buffer) 0,
  get_or-drop at 1 (take len buffer) 0,
  get_or-take len (at + 0) buffer 0,
  get_or-take len (at + 1) buffer 0,
  ap (λ k. get_or buffer k 0) (add-zero at),
)

take-left :
    (buffer : List ℕ) (len at n : ℕ)
    → at + n ≤ len
    → take n (left buffer len at) ≡ take n (drop at buffer)
take-left buffer len at n h =
    let open_ : left buffer len at ≡ take (len - at) (drop at buffer) =
      drop-take at len buffer (omega arith) in
    ap (take n) open_ ∙ take-take n (len - at) (drop at buffer) (omega arith)

-- The tests of the loop, read off the bytes in front of it.
module _ (header : ℕ) (buffer : List ℕ) (len at : ℕ) (h : 2 ≤ header)
    (fits : len ≤ length buffer) where
  not-Complete-short : len - at < header → ¬ Complete header (left buffer len at)
  not-Complete-short short c = omega (arith, length-left buffer len at fits)

  not-Complete-size :
      header ≤ len - at
      → (ltb (len - at) (read_u16 buffer at) || ltb (read_u16 buffer at) header) ≡ true
      → ¬ Complete header (left buffer len at)
  not-Complete-size long bad c =
      let same : read_u16 (left buffer len at) 0 ≡ read_u16 buffer at =
        read_u16-left buffer len at (omega arith) in
      ground (arith, same, length-left buffer len at fits)

  packet-left :
      {ps : List (List ℕ)} {rest : List ℕ}
      → header ≤ len - at
      → header ≤ read_u16 buffer at
      → read_u16 buffer at ≤ len - at
      → Splits header (left buffer len (at + read_u16 buffer at)) ps rest
      → Splits header (left buffer len at) (take (read_u16 buffer at) (drop at buffer) ∷ ps) rest
  packet-left {ps} {rest} long covers whole s =
      let same : read_u16 (left buffer len at) 0 ≡ read_u16 buffer at =
        read_u16-left buffer len at (omega arith) in
      let next : drop (read_u16 buffer at) (left buffer len at)
          ≡ left buffer len (at + read_u16 buffer at) =
        drop-drop at (read_u16 buffer at) (take len buffer) in
      let found : Splits header (left buffer len at)
          (take (read_u16 (left buffer len at) 0) (left buffer len at) ∷ ps) rest =
        packet (omega (arith, same, length-left buffer len at fits)) (rw (same, next) s) in
      let front : take (read_u16 (left buffer len at) 0) (left buffer len at)
          ≡ take (read_u16 buffer at) (drop at buffer) =
        ap (λ k. take k (left buffer len at)) same
        ∙ take-left buffer len at (read_u16 buffer at) (omega arith) in
      rw front at found

-- What a run from `at` has to show.
abbrev pub IsSplit : ℕ → List ℕ → ℕ → ℕ → Parsed → Type 0
IsSplit header buffer len at r =
    Splits header (left buffer len at) r.packets (left buffer len r.process_len)
    × (at ≤ r.process_len)
    × (r.process_len ≤ len)

-- With fuel above what is left, the loop stops by its tests.
pub parse_from-Splits :
    (header fuel : ℕ) (buffer : List ℕ) (len at : ℕ)
    → 2 ≤ header
    → len ≤ length buffer
    → at ≤ len
    → len - at < fuel
    → IsSplit header buffer len at (parse_from header fuel buffer len at)
unfolding parse_from
parse_from-Splits header zero buffer len at h fits k enough = absurd (omega arith)
parse_from-Splits header (suc fuel) buffer len at h fits k enough =
    elim (Bool-cases (ltb (len - at) header)) [
      | inl short ↦
          rw short (
            stop (not-Complete-short header buffer len at h fits (ltb→lt _ _ short)),
            omega arith,
            k,
          )
      | inr long ↦
          elim (Bool-cases
            (ltb (len - at) (read_u16 buffer at) || ltb (read_u16 buffer at) header)) [
              | inl bad ↦
                  rw (long, bad)
                    (
                      stop (not-Complete-size header buffer len at h fits (ltb→le _ _ long) bad),
                      omega arith,
                      k,
                    )
              | inr good ↦
                  let tests : (read_u16 buffer at ≤ len - at) × (header ≤ read_u16 buffer at) =
                    ground arith in
                  let more : IsSplit header buffer len (at + read_u16 buffer at)
                      (parse_from header fuel buffer len (at + read_u16 buffer at)) =
                    parse_from-Splits header fuel buffer len (at + read_u16 buffer at) h fits
                      (omega arith) (omega (arith, ltb→le _ _ long)) in
                  rw (long, good)
                    (
                      packet-left header buffer len at h fits (ltb→le _ _ long) tests.1 tests.0
                          more.0,
                      omega arith,
                      more.2,
                    )
            ]
    ]

-- For a header of at least two bytes and a length within the buffer, `IsParsingPacket` gives
-- `OnRecv` the packets that stand at the front of the `len` bytes, in order, each with its header,
-- and returns their total length, at most `len`; it stops where no packet stands.
pub is_parsing_packet-Splits :
    (header : ℕ) (buffer : List ℕ) (len : ℕ)
    → 2 ≤ header
    → len ≤ length buffer
    → let r = is_parsing_packet header buffer len in
      Splits header (take len buffer) r.packets (drop r.process_len (take len buffer))
      × (r.process_len ≤ len)
unfolding is_parsing_packet
is_parsing_packet-Splits header buffer len h fits =
    let r = parse_from-Splits header (suc len) buffer len 0 h fits (omega arith) (omega arith) in
    (r.0, r.2)
