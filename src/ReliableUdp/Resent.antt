-- ===== src/ReliableUdp/Resent.antt =====
-- `Update`: under which numbers a packet that was due is pending after it.
use jam_client_prototype.Prelude.{
  ℕ, zero, suc, ◌+◌, ◌%◌, ◌≤◌, ◌<◌, ◌≡◌, refl, inl, inr, Bool, none, some, List, [], ◌∷◌, arith,
  ◌==◌, if◌then◌else◌, ==_iff, ==-refl, Bool-cases, Option-cases, length, get_or,
}
use jam_client_prototype.Sequence.{seq_mod}
use jam_client_prototype.ReliableUdp.{
  ReliableUdpSession, PendingPacket, find, send_reliable, refresh, refresh_all, resend_list,
  gives_up, resend, update, disconnect,
}
use jam_client_prototype.ReliableUdp.Resend.{
  AllPending, FreeAhead, FreeAhead-send_reliable, AllPending-send_reliable, send_seq-send_reliable,
  find-send_reliable, resend-found, find-refresh_all, AllPending-resend_list, length-update,
}

-- A packet with this buffer that is sent now under this number.
abbrev pub fresh : {Time : Type 0} → ℕ → ℕ → Time → PendingPacket Time
fresh buffer seq now = record { buffer = buffer; sequence = seq; timestamp = now; retry_count = 0 }

module _ {Time : Type 0} (is_due : Time → Time → Bool) (open_ : Bool) (now : Time) where
  -- The first number ahead is the next one.
  free_now :
      (n : ℕ) (s : ReliableUdpSession Time)
      → s.send_seq < seq_mod
      → FreeAhead (suc n) s
      → find s.send_seq s.pending_ack_map ≡ none
  free_now n s range free =
      let here : (s.send_seq + 0) % seq_mod ≡ s.send_seq = omega arith in
      rw here at (free 0 (omega arith))

  -- What is pending under a number stays so when the next number is taken.
  find-kept :
      (n buffer j : ℕ) (s : ReliableUdpSession Time) {p : PendingPacket Time}
      → s.send_seq < seq_mod
      → FreeAhead (suc n) s
      → find j s.pending_ack_map ≡ some p
      → find j (send_reliable open_ buffer now s).pending_ack_map ≡ some p
  find-kept n buffer j s {p} range free e = elim (Bool-cases (s.send_seq == j)) [
    | inl same ↦ absurd (ground (arith, free_now n s range free, e, (==_iff s.send_seq j).0 same))
    | inr other ↦ rw (find-send_reliable open_ buffer j now s, other) e
  ]

  -- A resend does not change what is pending under a number.
  find-resend :
      (j : ℕ) (ks : List ℕ) (s : ReliableUdpSession Time) {p : PendingPacket Time}
      → length ks ≤ seq_mod
      → s.send_seq < seq_mod
      → AllPending ks s.pending_ack_map
      → FreeAhead (length ks) s
      → find j s.pending_ack_map ≡ some p
      → find j (resend is_due open_ now ks s).pending_ack_map ≡ some p
  find-resend j [] s small range here free e = unfold resend in e
  find-resend j (k ∷ ks) s small range here free e =
      elim (Option-cases (find k s.pending_ack_map)) [
        | inl none_there ↦ absurd (here.0 none_there)
        | inr (q, found) ↦ rw (resend-found is_due open_ now k ks s found) (
            find-resend j ks (send_reliable open_ q.buffer now s) (omega arith)
              (omega (arith, send_seq-send_reliable open_ q.buffer now s))
              (AllPending-send_reliable ks open_ q.buffer now s here.1)
              (FreeAhead-send_reliable is_due (length ks) open_ q.buffer now s (omega arith) range
                free)
              (find-kept (length ks) q.buffer j s range free e))
      ]

  -- The packet that is due as number `i` is pending under the `i`-th number from the next one on.
  resend-fresh :
      (i : ℕ) (ks : List ℕ) (s : ReliableUdpSession Time) {p : PendingPacket Time}
      → i < length ks
      → length ks ≤ seq_mod
      → s.send_seq < seq_mod
      → AllPending ks s.pending_ack_map
      → FreeAhead (length ks) s
      → find (get_or ks i 0) s.pending_ack_map ≡ some p
      → let seq = (s.send_seq + i) % seq_mod in
        find seq (resend is_due open_ now ks s).pending_ack_map ≡ some (fresh p.buffer seq now)
  resend-fresh i [] s low small range here free e = absurd (omega arith)
  resend-fresh zero (k ∷ ks) s {p} low small range here free e =
      let t = send_reliable open_ p.buffer now s in
      let at : (s.send_seq + 0) % seq_mod ≡ s.send_seq = omega arith in
      let new : find s.send_seq t.pending_ack_map ≡ some (fresh p.buffer s.send_seq now) =
        rw (find-send_reliable open_ p.buffer s.send_seq now s, ==-refl s.send_seq) refl in
      rw (at, resend-found is_due open_ now k ks s e)
        (find-resend s.send_seq ks t (omega arith)
          (omega (arith, send_seq-send_reliable open_ p.buffer now s))
          (AllPending-send_reliable ks open_ p.buffer now s here.1)
          (FreeAhead-send_reliable is_due (length ks) open_ p.buffer now s (omega arith) range free)
          new)
  resend-fresh (suc i) (k ∷ ks) s {p} low small range here free e =
      elim (Option-cases (find k s.pending_ack_map)) [
        | inl none_there ↦ absurd (here.0 none_there)
        | inr (q, found) ↦
            let t = send_reliable open_ q.buffer now s in
            let at : (t.send_seq + i) % seq_mod ≡ (s.send_seq + suc i) % seq_mod =
              omega (arith, send_seq-send_reliable open_ q.buffer now s) in
            let rest =
              resend-fresh i ks t {p = p} (omega arith) (omega arith)
                (omega (arith, send_seq-send_reliable open_ q.buffer now s))
                (AllPending-send_reliable ks open_ q.buffer now s here.1)
                (FreeAhead-send_reliable is_due (length ks) open_ q.buffer now s (omega arith) range
                  free)
                (find-kept (length ks) q.buffer (get_or ks i 0) s range free e) in
            rw (resend-found is_due open_ now k ks s found) (rw at at rest)
      ]

  -- Where at most 65536 packets are due and as many numbers from the next one on are not pending,
  -- the `i`-th packet that is due is pending twice after `Update`: under its old number, refreshed,
  -- and under the `i`-th number from the next one on, as a new packet with the same buffer, the
  -- present time and no retries. The map grows by the number of due packets.
  pub update-pending :
      (i : ℕ) (s : ReliableUdpSession Time) {p : PendingPacket Time}
      → s.send_seq < seq_mod
      → length (resend_list is_due now s.pending_ack_map) ≤ seq_mod
      → FreeAhead (length (resend_list is_due now s.pending_ack_map)) s
      → i < length (resend_list is_due now s.pending_ack_map)
      → find (get_or (resend_list is_due now s.pending_ack_map) i 0) s.pending_ack_map ≡ some p
      → let old = get_or (resend_list is_due now s.pending_ack_map) i 0 in
        let new = (s.send_seq + i) % seq_mod in
        let after = (update is_due open_ now s).pending_ack_map in
        (find old after ≡ some (refresh is_due now p))
        × (find new after ≡ some (fresh p.buffer new now))
        × (length after
            ≡ length s.pending_ack_map + length (resend_list is_due now s.pending_ack_map))
  unfolding update
  update-pending i s {p} range small free low e =
      let due = resend_list is_due now s.pending_ack_map in
      let refreshed = record s { pending_ack_map = refresh_all is_due now s.pending_ack_map } in
      let after =
        if gives_up is_due now s.pending_ack_map then disconnect refreshed else refreshed in
      let same : (after.pending_ack_map ≡ refreshed.pending_ack_map)
          × (after.send_seq ≡ s.send_seq) =
        ground arith in
      let pending : AllPending due after.pending_ack_map =
        rw same.0 (AllPending-resend_list is_due now s.pending_ack_map) in
      let ahead : FreeAhead (length due) after = λ i h. rw (
        same.0,
        same.1,
        find-refresh_all is_due now ((s.send_seq + i) % seq_mod) s.pending_ack_map,
        free i h,
      ) in
      let here : find (get_or due i 0) after.pending_ack_map ≡ some (refresh is_due now p) =
        rw (same.0, find-refresh_all is_due now (get_or due i 0) s.pending_ack_map, e) refl in
      let moved = resend-fresh i due after low small (rw same.1 range) pending ahead here in
      let kept : (refresh is_due now p).buffer ≡ p.buffer = unfold refresh in ground arith in
      (
        find-resend (get_or due i 0) due after small (rw same.1 range) pending ahead here,
        rw (same.1, kept) at moved,
        length-update is_due open_ now s range small free,
      )
