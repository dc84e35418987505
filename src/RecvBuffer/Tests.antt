-- ===== src/RecvBuffer/Tests.antt =====
-- RecvBuffer: a small buffer on which the theorems apply.
use jam_client_prototype.Prelude.{◌≡◌, refl, [], ◌∷◌, arith, replicate}
use jam_client_prototype.RecvBuffer.{RecvBuffer, data_size}
use jam_client_prototype.RecvBuffer.Bounds.{IsValid}
use jam_client_prototype.RecvBuffer.Stream.{unread}

-- Three unread bytes in an array of eight, behind one that has been read.
abbrev roomy : RecvBuffer
roomy = record {
  capacity = 8;
  buffer_size = 2;
  read_pos = 1;
  write_pos = 4;
  buffer = 1 ∷ 2 ∷ 3 ∷ 4 ∷ replicate 4 0;
}

abbrev tight : RecvBuffer
tight = record roomy { write_pos = 6 }

roomy-IsValid : IsValid roomy
roomy-IsValid = record { sized = refl; ordered = omega arith; within = omega arith }

unread-roomy : unread roomy ≡ 2 ∷ 3 ∷ 4 ∷ []
unfolding data_size
unread-roomy = refl
