-- ===== src/RecvBuffer/Moving.antt =====
-- RecvBuffer: a `memcpy` that moves its bytes whatever the ranges are, which the tests run on.
use jam_client_prototype.Prelude.{refl}
use jam_client_prototype.RecvBuffer.{drop, take, overwrite, Memcpy}

abbrev pub moving : Memcpy
moving = record {
  copy = λ memory dest source n. overwrite memory dest (take n (drop source memory));
  moves = λ memory dest source n to from apart. refl;
}
