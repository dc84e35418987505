-- ===== src/BufferReader/Tests.antt =====
-- BufferWriter and BufferReader: two fields in an array of eight bytes.
use jam_client_prototype.Prelude.{◌≡◌, refl, some, [], ◌∷◌, arith, take, replicate}
use jam_client_prototype.BufferWriter.{BufferWriter}
use jam_client_prototype.BufferReader.RoundTrip.{IsValid, write_all, read_all, read_all-write_all}

abbrev empty : BufferWriter
empty = record { buffer = replicate 8 0; size = 8; pos = 0 }

empty-IsValid : IsValid empty
empty-IsValid = record { sized = refl; small = omega arith; within = omega arith }

read_all-write_all_example :
    (t : BufferWriter) × ((write_all ((1 ∷ 2 ∷ []) ∷ (3 ∷ []) ∷ []) empty ≡ some t)
      × IsValid t
      × (take 0 t.buffer ≡ take 0 empty.buffer)
      × (read_all (2 ∷ 1 ∷ []) (record { buffer = t.buffer; size = t.size; pos = 0 })
          ≡ some ((1 ∷ 2 ∷ []) ∷ (3 ∷ []) ∷ [])))
read_all-write_all_example =
    read_all-write_all ((1 ∷ 2 ∷ []) ∷ (3 ∷ []) ∷ []) empty empty-IsValid (omega arith)
