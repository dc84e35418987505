-- ===== src/ReliableUdp/Resend.antt =====
-- `SendReliable` and `Update`: sequence numbers of what is sent, and what a resend leaves pending.
use jam_client_prototype.Prelude.{
  ℕ, suc, ◌+◌, ◌%◌, ◌≤◌, ◌<◌, ◌≡◌, refl, ap, ◌≢◌, inl, inr, Bool, true, false, none, some, List, [],
  ◌∷◌, ◌++◌, arith, ◌==◌, if◌then◌else◌, ==-refl, Option-cases, length,
}
use jam_client_prototype.Sequence.{seq_mod}
use jam_client_prototype.ReliableUdp.{
  ReliableUdpSession, PendingPacket, transmits, find, assign, send_reliable, refresh, refresh_all,
  resend_list, gives_up, resend, update, disconnect,
}
use jam_client_prototype.ReliableUdp.Ack.{find-assign}

module _ {Time : Type 0} where
  -- With the socket open, `SendReliable` takes the next number, sends the buffer with it, and
  -- leaves it pending under that number with no retries; other numbers stay as they were, and the
  -- number after it, modulo 65536, comes next.
  pub send_reliable_lem :
      (buffer j : ℕ) (now : Time) (s : ReliableUdpSession Time)
      → let t = send_reliable true buffer now s in
        (t.log ≡ s.log ++ (transmits buffer s.send_seq ∷ []))
        × (t.send_seq ≡ (s.send_seq + 1) % seq_mod)
        × (find j t.pending_ack_map ≡ (
            if s.send_seq == j
            then some (record {
              buffer = buffer;
              sequence = s.send_seq;
              timestamp = now;
              retry_count = 0;
            })
            else find j s.pending_ack_map))
  unfolding send_reliable
  send_reliable_lem buffer j now s = (
    ground (arith, ==-refl buffer),
    refl,
    find-assign s.send_seq j
        (record { buffer = buffer; sequence = s.send_seq; timestamp = now; retry_count = 0 })
        s.pending_ack_map,
  )

module _ {V : Type 0} where
  length-assign :
      (k : ℕ) (v : V) (m : List (ℕ × V)) → find k m ≡ none → length (assign k v m) ≡ suc (length m)
  unfolding assign find
  length-assign k v [] h = refl
  length-assign k v ((j, w) ∷ m) h = ground (arith, length-assign k v m)

-- Every number of the list is pending.
abbrev pub AllPending : {Time : Type 0} → List ℕ → List (ℕ × PendingPacket Time) → Type 0
AllPending [] m = Unit {0}
AllPending (k ∷ ks) m = (find k m ≢ none) × AllPending ks m

module _ {Time : Type 0} where
  -- `SendReliable` drops no pending number.
  pub find-send_reliable :
      (open_ : Bool) (buffer j : ℕ) (now : Time) (s : ReliableUdpSession Time)
      → find j (send_reliable open_ buffer now s).pending_ack_map ≡ (
          if s.send_seq == j
          then some
              (record { buffer = buffer; sequence = s.send_seq; timestamp = now; retry_count = 0 })
          else find j s.pending_ack_map)
  unfolding send_reliable
  find-send_reliable open_ buffer j now s = ground (
    arith,
    find-assign s.send_seq j
        (record { buffer = buffer; sequence = s.send_seq; timestamp = now; retry_count = 0 })
        s.pending_ack_map,
  )

  pub AllPending-send_reliable :
      (ks : List ℕ) (open_ : Bool) (buffer : ℕ) (now : Time) (s : ReliableUdpSession Time)
      → AllPending ks s.pending_ack_map
      → AllPending ks (send_reliable open_ buffer now s).pending_ack_map
  AllPending-send_reliable [] open_ buffer now s h = tt
  AllPending-send_reliable (k ∷ ks) open_ buffer now s h = (
    ground (arith, h.0, find-send_reliable open_ buffer k now s),
    AllPending-send_reliable ks open_ buffer now s h.1,
  )

  pub send_seq-send_reliable :
      (open_ : Bool) (buffer : ℕ) (now : Time) (s : ReliableUdpSession Time)
      → (send_reliable open_ buffer now s).send_seq ≡ (s.send_seq + 1) % seq_mod
  unfolding send_reliable
  send_seq-send_reliable open_ buffer now s = ground arith

  length-send_reliable :
      (open_ : Bool) (buffer : ℕ) (now : Time) (s : ReliableUdpSession Time)
      → find s.send_seq s.pending_ack_map ≡ none
      → length (send_reliable open_ buffer now s).pending_ack_map ≡ suc (length s.pending_ack_map)
  unfolding send_reliable
  length-send_reliable open_ buffer now s h = ground (
    arith,
    length-assign s.send_seq
        (record { buffer = buffer; sequence = s.send_seq; timestamp = now; retry_count = 0 })
        s.pending_ack_map h,
  )

-- The next `n` numbers are not pending.
abbrev pub FreeAhead : {Time : Type 0} → ℕ → ReliableUdpSession Time → Type 0
FreeAhead n s = (i : ℕ) → i < n → find ((s.send_seq + i) % seq_mod) s.pending_ack_map ≡ none

module _ {Time : Type 0} (is_due : Time → Time → Bool) where
  pub FreeAhead-send_reliable :
      (n : ℕ) (open_ : Bool) (buffer : ℕ) (now : Time) (s : ReliableUdpSession Time)
      → suc n ≤ seq_mod
      → s.send_seq < seq_mod
      → FreeAhead (suc n) s
      → FreeAhead n (send_reliable open_ buffer now s)
  FreeAhead-send_reliable n open_ buffer now s small range free i h =
      let at : ((send_reliable open_ buffer now s).send_seq + i) % seq_mod
          ≡ (s.send_seq + suc i) % seq_mod =
        omega (arith, send_seq-send_reliable open_ buffer now s) in
      let other : (s.send_seq == (s.send_seq + suc i) % seq_mod) ≡ false = ground arith in
      rw (at, find-send_reliable open_ buffer ((s.send_seq + suc i) % seq_mod) now s, other)
        (free (suc i) (omega arith))

  pub resend-found :
      (open_ : Bool) (now : Time) (k : ℕ) (ks : List ℕ) (s : ReliableUdpSession Time)
      {p : PendingPacket Time}
      → find k s.pending_ack_map ≡ some p
      → resend is_due open_ now (k ∷ ks) s
        ≡ resend is_due open_ now ks (send_reliable open_ p.buffer now s)
  unfolding resend
  resend-found open_ now k ks s e =
      ap
        (λ o.
          resend is_due open_ now ks
            (elim o [ none ↦ s | some q ↦ send_reliable open_ q.buffer now s ]))
        e

  -- The second loop of `Update`.
  length-resend :
      (open_ : Bool) (now : Time) (ks : List ℕ) (s : ReliableUdpSession Time)
      → length ks ≤ seq_mod
      → s.send_seq < seq_mod
      → AllPending ks s.pending_ack_map
      → FreeAhead (length ks) s
      → length (resend is_due open_ now ks s).pending_ack_map ≡ length s.pending_ack_map + length ks
  length-resend open_ now [] s small range here free = unfold resend in omega arith
  length-resend open_ now (k ∷ ks) s small range here free =
      elim (Option-cases (find k s.pending_ack_map)) [
        | inl e ↦ absurd (here.0 e)
        | inr (p, e) ↦
            let s' = send_reliable open_ p.buffer now s in
            let now_free : find s.send_seq s.pending_ack_map ≡ none =
              let here_ : (s.send_seq + 0) % seq_mod ≡ s.send_seq = omega arith in
              rw here_ at (free 0 (omega arith)) in
            let grown = length-send_reliable open_ p.buffer now s now_free in
            let rest =
              length-resend open_ now ks s' (omega arith)
                (omega (arith, send_seq-send_reliable open_ p.buffer now s))
                (AllPending-send_reliable ks open_ p.buffer now s here.1)
                (FreeAhead-send_reliable (length ks) open_ p.buffer now s (omega arith) range
                  free) in
            rw (resend-found open_ now k ks s e) (omega (arith, rest, grown))
      ]

  pub find-refresh_all :
      (now : Time) (j : ℕ) (m : List (ℕ × PendingPacket Time))
      → find j (refresh_all is_due now m)
        ≡ elim (find j m) [ none ↦ none | some p ↦ some (refresh is_due now p) ]
  unfolding refresh_all find
  find-refresh_all now j [] = refl
  find-refresh_all now j ((k, p) ∷ m) = ground (arith, find-refresh_all now j m)

  length-refresh_all :
      (now : Time) (m : List (ℕ × PendingPacket Time))
      → length (refresh_all is_due now m) ≡ length m
  unfolding refresh_all
  length-refresh_all now [] = refl
  length-refresh_all now ((k, p) ∷ m) = ap suc (length-refresh_all now m)

  AllPending-cons :
      (ks : List ℕ) (j : ℕ) (p : PendingPacket Time) (m : List (ℕ × PendingPacket Time))
      → AllPending ks m
      → AllPending ks ((j, p) ∷ m)
  unfolding find
  AllPending-cons [] j p m h = tt
  AllPending-cons (k ∷ ks) j p m h = (ground (arith, h.0), AllPending-cons ks j p m h.1)

  AllPending-if :
      (b : Bool) (k : ℕ) (ks : List ℕ) (m : List (ℕ × PendingPacket Time))
      → find k m ≢ none
      → AllPending ks m
      → AllPending (if b then k ∷ ks else ks) m
  AllPending-if true k ks m h r = (h, r)
  AllPending-if false k ks m h r = r

  found_first :
      (k : ℕ) (p : PendingPacket Time) (m : List (ℕ × PendingPacket Time))
      → find k ((k, p) ∷ m) ≢ none
  unfolding find
  found_first k p m = ground (arith, ==-refl k)

  -- What is to be resent is pending, also after the first loop.
  pub AllPending-resend_list :
      (now : Time) (m : List (ℕ × PendingPacket Time))
      → AllPending (resend_list is_due now m) (refresh_all is_due now m)
  unfolding resend_list refresh_all
  AllPending-resend_list now [] = tt
  AllPending-resend_list now ((k, p) ∷ m) =
      let rest =
        AllPending-cons (resend_list is_due now m) k (refresh is_due now p)
          (refresh_all is_due now m) (AllPending-resend_list now m) in
      AllPending-if (is_due now p.timestamp) k (resend_list is_due now m)
        ((k, refresh is_due now p) ∷ refresh_all is_due now m)
        (found_first k (refresh is_due now p) (refresh_all is_due now m)) rest

  -- Where at most 65536 packets are due and as many numbers from the next one on are not pending,
  -- `Update` makes the map of pending packets grow by the number of due packets: a resend does not
  -- replace the entry that it resends.
  pub length-update :
      (open_ : Bool) (now : Time) (s : ReliableUdpSession Time)
      → s.send_seq < seq_mod
      → length (resend_list is_due now s.pending_ack_map) ≤ seq_mod
      → FreeAhead (length (resend_list is_due now s.pending_ack_map)) s
      → length (update is_due open_ now s).pending_ack_map
        ≡ length s.pending_ack_map + length (resend_list is_due now s.pending_ack_map)
  unfolding update
  length-update open_ now s range small free =
      let due = resend_list is_due now s.pending_ack_map in
      let refreshed = record s { pending_ack_map = refresh_all is_due now s.pending_ack_map } in
      let after =
        if gives_up is_due now s.pending_ack_map then disconnect refreshed else refreshed in
      let same : (after.pending_ack_map ≡ refreshed.pending_ack_map)
          × (after.send_seq ≡ s.send_seq) =
        ground arith in
      let pending : AllPending due after.pending_ack_map =
        rw same.0 (AllPending-resend_list now s.pending_ack_map) in
      let ahead : FreeAhead (length due) after = λ i h. rw (
        same.0,
        same.1,
        find-refresh_all now ((s.send_seq + i) % seq_mod) s.pending_ack_map,
        free i h,
      ) in
      omega (
        arith,
        length-resend open_ now due after small (rw same.1 range) pending ahead,
        ap length same.0,
        length-refresh_all now s.pending_ack_map,
      )
