-- ===== src/Framing/Encode.antt =====
-- Packets as the sender writes them are found again by `IsParsingPacket`.
use jam_client_prototype.Prelude.{
  ℕ, ◌+◌, ◌≤◌, ◌≡◌, refl, ◌∙◌, List, [], ◌∷◌, ◌++◌, append_assoc, arith, length, take, drop,
  length-append, take_all, take-length, drop-length, get_or-append,
}
use jam_client_prototype.Framing.{read_u16, is_parsing_packet}
use jam_client_prototype.Framing.Split.{Complete, Splits, stop, packet, concat, Splits-unique}
use jam_client_prototype.Framing.Loop.{is_parsing_packet-Splits}

-- A packet as sent: at least a header, and its first field is its length.
abbrev pub IsPacket : ℕ → List ℕ → Type 0
IsPacket header p = (header ≤ length p) × (read_u16 p 0 ≡ length p)

abbrev pub ArePackets : ℕ → List (List ℕ) → Type 0
ArePackets header [] = Unit {0}
ArePackets header (p ∷ ps) = IsPacket header p × ArePackets header ps

read_u16-front : (p xs : List ℕ) → 2 ≤ length p → read_u16 (p ++ xs) 0 ≡ read_u16 p 0
unfolding read_u16
read_u16-front p xs h = omega (arith, get_or-append p xs 0 0, get_or-append p xs (0 + 1) 0)

pub Splits-concat :
    (header : ℕ) (ps : List (List ℕ)) (rest : List ℕ)
    → 2 ≤ header
    → ArePackets header ps
    → ¬ Complete header rest
    → Splits header (concat ps ++ rest) ps rest
Splits-concat header [] rest h a n = stop n
Splits-concat header (p ∷ ps) rest h a n =
    let more = concat ps ++ rest in
    let size : read_u16 (p ++ more) 0 ≡ length p = read_u16-front p more (omega arith) ∙ a.0.1 in
    let found : Splits header (p ++ more) (take (read_u16 (p ++ more) 0) (p ++ more) ∷ ps) rest =
      packet (omega (arith, size, length-append p more))
        (rw (size, drop-length p more (length p) refl) (Splits-concat header ps rest h a.1 n)) in
    let first : take (read_u16 (p ++ more) 0) (p ++ more) ≡ p =
      rw size (take-length p more (length p) refl) in
    rw (append_assoc p (concat ps) rest) (rw first at found)

-- Packets of a header of at least two bytes, one after the other, and then bytes at which no packet
-- stands, are given to `OnRecv` packet by packet, in order, and the bytes behind them are left.
pub is_parsing_packet-concat :
    (header : ℕ) (ps : List (List ℕ)) (rest : List ℕ)
    → 2 ≤ header
    → ArePackets header ps
    → ¬ Complete header rest
    → let xs = concat ps ++ rest in
      let r = is_parsing_packet header xs (length xs) in
      (r.packets ≡ ps) × (drop r.process_len xs ≡ rest)
is_parsing_packet-concat header ps rest h a n =
    let xs = concat ps ++ rest in
    let whole = take_all xs (length xs) (omega arith) in
    let code = is_parsing_packet-Splits header xs (length xs) h (omega arith) in
    let sent = Splits-concat header ps rest h a n in
    let same = Splits-unique (rw whole at code.0) sent in (same.0, same.1)
