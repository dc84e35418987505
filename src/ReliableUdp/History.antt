-- ===== src/ReliableUdp/History.antt =====
-- The receive history of `ReliableUdpSession`: what `CheckAndRecordReceiveHistory` accepts.
use jam_client_prototype.Prelude.Maps.{get_or-set}
use jam_client_prototype.Prelude.{
  ℕ, zero, suc, ◌+◌, ◌%◌, ◌≤◌, ◌<◌, ◌≡◌, ◌↔◌, inl, inr, Bool, true, false, ◌&&◌, ◌||◌, List, [],
  ◌∷◌, arith, ◌==◌, if◌then◌else◌, Bool-cases, length, get_or, set, length-set,
}
use jam_client_prototype.Sequence.{sub16, is_seq_greater}
use jam_client_prototype.ReliableUdp.{
  ReliableUdpSession, history_size, recorded, check_and_record_receive_history,
}

-- The free slots of a history.
abbrev pub vacant : List Bool → ℕ
vacant [] = 0
vacant (b ∷ bs) = (if b then 0 else 1) + vacant bs

vacant-set :
    (h : List Bool) (i : ℕ)
    → i < length h
    → get_or h i false ≡ false
    → vacant (set h i true) + 1 ≡ vacant h
vacant-set [] i l e = absurd (omega arith)
vacant-set (b ∷ bs) zero l e = ground arith
vacant-set (b ∷ bs) (suc i) l e = omega (arith, vacant-set bs i (omega arith) e)

vacant-le : (h : List Bool) → vacant h ≤ length h
vacant-le [] = omega arith
vacant-le (b ∷ bs) = ground (arith, vacant-le bs)

module _ {Time : Type 0} where
  -- Calls one after the other, and how many were accepted.
  unfoldable pub record_all : List ℕ → ReliableUdpSession Time → ReliableUdpSession Time
  record_all [] s = s
  record_all (q ∷ qs) s = record_all qs (check_and_record_receive_history q s).1

  unfoldable pub accepts : List ℕ → ReliableUdpSession Time → ℕ
  accepts [] s = 0
  accepts (q ∷ qs) s =
      let rest = accepts qs (check_and_record_receive_history q s).1 in
      if (check_and_record_receive_history q s).0 then suc rest else rest

  -- With a history of 1024 slots, a call accepts exactly a number of the window whose slot is free;
  -- when it accepts, it fills that slot, and no call changes another slot; `latest_seq` becomes the
  -- accepted number exactly when that is greater.
  pub check_and_record_lem :
      (q r : ℕ) (s : ReliableUdpSession Time)
      → length s.receive_history ≡ history_size
      → let (ok, t) = check_and_record_receive_history q s in
        ((ok ≡ true) ↔ (
          (is_seq_greater q (sub16 s.latest_seq 1024) ≡ true)
          × (recorded s.receive_history q ≡ false)))
        × (recorded t.receive_history r ≡ (
            if q % history_size == r % history_size
            then ok || recorded s.receive_history r
            else recorded s.receive_history r))
        × (length t.receive_history ≡ history_size)
        × (t.latest_seq ≡ (if ok && is_seq_greater q s.latest_seq then q else s.latest_seq))
  unfolding check_and_record_receive_history
  check_and_record_lem q r s h = ground (
    arith,
    get_or-set s.receive_history (q % history_size) (r % history_size) true false,
    length-set s.receive_history (q % history_size) true,
  )

  -- One call keeps the size of the history, and the filled slots filled.
  size-check :
      (q : ℕ) (s : ReliableUdpSession Time)
      → length s.receive_history ≡ history_size
      → length (check_and_record_receive_history q s).1.receive_history ≡ history_size
  size-check q s h = (check_and_record_lem q q s h).2

  filled-check :
      (q r : ℕ) (s : ReliableUdpSession Time)
      → length s.receive_history ≡ history_size
      → recorded s.receive_history r ≡ true
      → recorded (check_and_record_receive_history q s).1.receive_history r ≡ true
  filled-check q r s h f = ground (arith, (check_and_record_lem q r s h).1)

  filled-record_all :
      (qs : List ℕ) (r : ℕ) (s : ReliableUdpSession Time)
      → length s.receive_history ≡ history_size
      → recorded s.receive_history r ≡ true
      → recorded (record_all qs s).receive_history r ≡ true
  unfolding record_all
  filled-record_all [] r s h f = f
  filled-record_all (q ∷ qs) r s h f =
      filled-record_all qs r (check_and_record_receive_history q s).1 (size-check q s h)
        (filled-check q r s h f)

  size-record_all :
      (qs : List ℕ) (s : ReliableUdpSession Time)
      → length s.receive_history ≡ history_size
      → length (record_all qs s).receive_history ≡ history_size
  unfolding record_all
  size-record_all [] s h = h
  size-record_all (q ∷ qs) s h =
      size-record_all qs (check_and_record_receive_history q s).1 (size-check q s h)

  -- With a history of 1024 slots, once a number is accepted, no number of its slot, itself and the
  -- one 1024 ahead among them, is accepted again, whatever is received in between.
  pub check_and_record_once :
      (q r : ℕ) (qs : List ℕ) (s : ReliableUdpSession Time)
      → length s.receive_history ≡ history_size
      → (check_and_record_receive_history q s).0 ≡ true
      → r % history_size ≡ q % history_size
      → (check_and_record_receive_history r
          (record_all qs (check_and_record_receive_history q s).1)).0
        ≡ false
  check_and_record_once q r qs s h ok e =
      let t = (check_and_record_receive_history q s).1 in
      let filled : recorded t.receive_history r ≡ true =
        ground (arith, (check_and_record_lem q r s h).1) in
      let later = filled-record_all qs r t (size-check q s h) filled in
      let exact =
        (check_and_record_lem r r (record_all qs t) (size-record_all qs t (size-check q s h))).0 in
      elim (Bool-cases (check_and_record_receive_history r (record_all qs t)).0) [
        | inl yes_ ↦ let free = (exact.0 yes_).1 in cc
        | inr no_ ↦ no_
      ]

  vacant-check :
      (q : ℕ) (s : ReliableUdpSession Time)
      → length s.receive_history ≡ history_size
      → vacant (check_and_record_receive_history q s).1.receive_history
          + (if (check_and_record_receive_history q s).0 then 1 else 0)
        ≡ vacant s.receive_history
  unfolding check_and_record_receive_history
  vacant-check q s h = ground (arith, vacant-set s.receive_history (q % history_size))

  accepts-vacant :
      (qs : List ℕ) (s : ReliableUdpSession Time)
      → length s.receive_history ≡ history_size
      → accepts qs s ≤ vacant s.receive_history
  unfolding accepts
  accepts-vacant [] s h = omega arith
  accepts-vacant (q ∷ qs) s h = ground (
    arith,
    vacant-check q s h,
    accepts-vacant qs (check_and_record_receive_history q s).1 (size-check q s h),
  )

  -- A session with a history of 1024 slots accepts at most 1024 of any sequence of packets, however
  -- long and however many different numbers it has.
  pub accepts_bounded :
      (qs : List ℕ) (s : ReliableUdpSession Time)
      → length s.receive_history ≡ history_size
      → accepts qs s ≤ history_size
  accepts_bounded qs s h = omega (arith, accepts-vacant qs s h, vacant-le s.receive_history)
