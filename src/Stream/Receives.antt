-- ===== src/Stream/Receives.antt =====
-- A step of `_scif_recv` keeps what holds between two turns.
use mathlib.Core.List.{append_assoc}
use intel_xeon_phi_kernel_dr.Common.{
  ℕ, ◌+◌, ◌-◌, ◌≤◌, ◌≡◌, refl, ap, ◌∙◌, inl, inr, not, List, ◌++◌, ◌&&◌, length, Bool-cases,
  length-append, ◌==◌, ==_iff, arith, Bool, true,
}
use intel_xeon_phi_kernel_dr.Common.Int.{ℤ}
use intel_xeon_phi_kernel_dr.Kernel.{CircBuf}
use intel_xeon_phi_kernel_dr.ScifRb.{Queue}
use intel_xeon_phi_kernel_dr.ScifRb.Pipe.{Pipe, Read, nothing, got, fault}
use intel_xeon_phi_kernel_dr.ScifRb.Inv.{Inv}
use intel_xeon_phi_kernel_dr.ScifRb.Delivery.{stored}
use intel_xeon_phi_kernel_dr.ScifRb.ReadStep.{count_Inv, count_bounds}
use intel_xeon_phi_kernel_dr.ScifRb.Effects.{Took, get_next-Effect, give_back-Effect}
use intel_xeon_phi_kernel_dr.Stream.{
  minus, econnreset, enotconn, Situation, is_connected, is_disconnected, count_or, Sender, RecvPc,
  recv_test, recv_get, recv_give, recv_notify, recv_wait, recv_returned, recv_bug, Calls,
  recv_count, recv_tests, recv_read, recv_look, min, endpt_qp_size, scif_recv_step,
}
use intel_xeon_phi_kernel_dr.Stream.Invariant.{
  Answer, ReceiverAt, count_or-Answer, same-Answer, min_le, minus-Answer, nonzero, Good,
  receiver_moves,
}

module _ (ok : Bool) (c : CircBuf) (k : Calls) (size log : ℕ) (before : List ℕ) (sit : Situation)
    (notified : ok ≡ true → sit.notify_errno ≡ 0) where
  module _ (s : Sender) (q : Queue) where
    abbrev From : RecvPc → List ℕ → ℕ → Type 0
    From pc buffer remaining =
        Good ok k size log before s (record { pc = pc; buffer = buffer; remaining_len = remaining })
          q

    abbrev To : RecvPc × Queue → List ℕ → ℕ → Type 0
    To out buffer remaining =
        Good ok k size log before s
          (record { pc = out.0; buffer = buffer; remaining_len = remaining }) out.1

    failed :
        (have remaining : ℕ) (err : ℤ)
        → have + remaining ≡ k.len
        → Answer err ok have
        → Answer (count_or (k.len - remaining) err) ok have
    failed have remaining err h a =
        count_or-Answer (k.len - remaining) have err ok (omega (arith, h)) (λ t. omega (arith, h)) a

    count_at :
        (count have remaining unread : ℕ)
        → have + remaining ≡ k.len
        → 1 ≤ remaining
        → count ≤ unread
        → ReceiverAt ok k.len (recv_count k sit count remaining) have remaining unread
    unfolding ReceiverAt recv_count
    count_at count have remaining unread e one le = elim (Bool-cases (count == 0)) [
      | inl z ↦ elim (Bool-cases (is_disconnected sit.state)) [
        | inl a ↦ rw (z, a) (failed have remaining econnreset e tt)
        | inr a ↦ elim (Bool-cases k.recv_block) [
          | inl b ↦ rw (z, a, b) e
          | inr b ↦ rw (z, a, b) (same-Answer (k.len - remaining) have ok (omega (arith, e)))
        ]
      ]
      | inr z ↦
          let m = min_le remaining count one (nonzero count z) in
          rw z (e, (m.0, (m.1.0, omega (arith, m.1.1, le))))
    ]

    recv_tests-Good :
        (buffer : List ℕ) (remaining : ℕ)
        → From recv_test buffer remaining
        → To (recv_tests c k sit remaining q) buffer remaining
    unfolding recv_tests ReceiverAt
    recv_tests-Good buffer remaining g = elim (Bool-cases (remaining == 0)) [
      | inl e ↦ rw e (
          receiver_moves ok k size log before g _ remaining q g.inv tt (
            same-Answer k.len (length buffer) ok
              (omega (arith, g.receiver_at, (==_iff remaining 0).0 e))))
      | inr e ↦
          elim (Bool-cases (not (is_connected sit.state) && not (is_disconnected sit.state))) [
            | inl a ↦
                rw (e, a)
                  (receiver_moves ok k size log before g _ remaining q g.inv tt
                    (failed (length buffer) remaining enotconn g.receiver_at tt))
            | inr a ↦
                rw (e, a)
                  (receiver_moves ok k size log before g _ remaining _ (count_Inv c g.inv remaining)
                    tt
                    (count_at _ (length buffer) remaining (length g.pipe.unread) g.receiver_at
                      (nonzero remaining e) (count_bounds c g.inv remaining).0))
          ]
    ]

    read_at :
        (n : ℕ) (buffer : List ℕ) (remaining : ℕ) (g : From (recv_get n) buffer remaining)
        (q' : Queue) (answer : Read) (p' : Pipe)
        → Inv size log q' p'
        → Took n answer g.pipe p'
        → Good ok k size log before s (recv_read n answer buffer remaining) q'
    unfolding Took recv_read ReceiverAt
    read_at n buffer remaining g q' nothing p' v h = absurd (omega (arith, h, g.receiver_at.1.1.1))
    read_at n buffer remaining g q' (got bytes) p' v (moved, count) = record {
      pipe = p';
      inv = v;
      taken = g.taken;
      taken_le = g.taken_le;
      sender_at = g.sender_at;
      receiver_at = (
        omega (arith, length-append buffer bytes, count, g.receiver_at.0),
        (g.receiver_at.1.0, g.receiver_at.1.1.0),
      );
      in_order =
          λ i. append_assoc buffer bytes (stored p') ∙ ap (◌++◌ buffer) moved ∙ g.in_order tt;
    }
    read_at n buffer remaining g q' fault p' v h = record {
      pipe = p';
      inv = v;
      taken = g.taken;
      taken_le = g.taken_le;
      sender_at = g.sender_at;
      receiver_at = tt;
      in_order = λ i. absurd (i refl);
    }

    recv_look-Inv :
        (remaining : ℕ) {p : Pipe} → Inv size log q p → Inv size log (recv_look c sit remaining q) p
    unfolding recv_look
    recv_look-Inv remaining v = elim (Bool-cases (is_connected sit.state)) [
      | inl e ↦ rw e (count_Inv c v (min remaining (endpt_qp_size - 1)))
      | inr e ↦ rw e v
    ]

    pub recv_step-Good :
        (pc : RecvPc) (buffer : List ℕ) (remaining : ℕ)
        → From pc buffer remaining
        → let out = scif_recv_step c k sit pc buffer remaining q in
          Good ok k size log before s out.0 out.1
    unfolding scif_recv_step ReceiverAt
    recv_step-Good recv_test buffer remaining g = recv_tests-Good buffer remaining g
    recv_step-Good (recv_get n) buffer remaining g =
        let (p', v, w) = get_next-Effect c g.inv sit.copy n k.touser in
        read_at n buffer remaining g _ _ p' v w
    recv_step-Good (recv_give n) buffer remaining g = elim (Bool-cases (is_connected sit.state)) [
      | inl e ↦
          let (p', v, same) = give_back-Effect c g.inv in
          rw e (record {
            pipe = p';
            inv = v;
            taken = g.taken;
            taken_le = g.taken_le;
            sender_at = g.sender_at;
            receiver_at = g.receiver_at;
            in_order = λ i. ap (◌++◌ buffer) same ∙ g.in_order tt;
          })
      | inr e ↦ rw e (
          receiver_moves ok k size log before g recv_test (remaining - n) q g.inv tt
            (omega (arith, g.receiver_at.0, g.receiver_at.1.1)))
    ]
    recv_step-Good (recv_notify n) buffer remaining g = elim (Bool-cases (sit.notify_errno == 0)) [
      | inl e ↦ rw e (
          receiver_moves ok k size log before g recv_test (remaining - n) q g.inv tt
            (omega (arith, g.receiver_at.0, g.receiver_at.1.1)))
      | inr e ↦ rw e (
          receiver_moves ok k size log before g _ remaining q g.inv tt (
            count_or-Answer (k.len - remaining) (length buffer) (minus sit.notify_errno) ok
              (omega (arith, g.receiver_at.0))
              (λ t. absurd (omega (arith, notified t, nonzero sit.notify_errno e)))
              (minus-Answer sit.notify_errno (length buffer) ok e)))
    ]
    recv_step-Good recv_wait buffer remaining g = elim (Bool-cases (sit.wait_errno == 0)) [
      | inl e ↦ rw e (
          receiver_moves ok k size log before g recv_test remaining _
            (recv_look-Inv remaining g.inv) tt g.receiver_at)
      | inr e ↦ rw e (
          receiver_moves ok k size log before g _ remaining _ (recv_look-Inv remaining g.inv) tt (
            failed (length buffer) remaining (minus sit.wait_errno) g.receiver_at
              (minus-Answer sit.wait_errno (length buffer) ok e)))
    ]
    recv_step-Good (recv_returned a) buffer remaining g = g
    recv_step-Good recv_bug buffer remaining g = absurd g.receiver_at
