-- ===== src/Framing/Tests.antt =====
-- Framing: two packets and a part of a third.
use jam_client_prototype.Prelude.{ℕ, ◌≤◌, ◌≡◌, refl, List, [], ◌∷◌, ◌++◌, arith, take, drop}
use jam_client_prototype.Framing.{read_u16, is_parsing_packet}
use jam_client_prototype.Framing.Split.{Splits, concat}
use jam_client_prototype.Framing.Loop.{is_parsing_packet-Splits}
use jam_client_prototype.Framing.Encode.{is_parsing_packet-concat}

abbrev first : List ℕ
first = 5 ∷ 0 ∷ 1 ∷ 0 ∷ 9 ∷ []

abbrev second : List ℕ
second = 4 ∷ 0 ∷ 2 ∷ 0 ∷ []

abbrev part : List ℕ
part = 6 ∷ 0 ∷ 3 ∷ []

abbrev received : List ℕ
received = concat (first ∷ second ∷ []) ++ part

parses : is_parsing_packet 4 received 12 ≡ record { process_len = 9; packets = first ∷ second ∷ [] }
unfolding is_parsing_packet read_u16
parses = refl

is_parsing_packet-Splits_example :
    Splits 4
      (take 12 received)
      (is_parsing_packet 4 received 12).packets
      (drop (is_parsing_packet 4 received 12).process_len (take 12 received))
    × ((is_parsing_packet 4 received 12).process_len ≤ 12)
is_parsing_packet-Splits_example =
    is_parsing_packet-Splits 4 received 12 (omega arith) (omega arith)

is_parsing_packet-concat_example :
    ((is_parsing_packet 4 received 12).packets ≡ first ∷ second ∷ [])
    × (drop (is_parsing_packet 4 received 12).process_len received ≡ part)
unfolding read_u16
is_parsing_packet-concat_example =
    is_parsing_packet-concat 4 (first ∷ second ∷ []) part (omega arith)
      ((omega arith, refl), ((omega arith, refl), tt)) (λ c. absurd (omega (arith, c.0)))
