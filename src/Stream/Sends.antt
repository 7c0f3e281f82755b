-- ===== src/Stream/Sends.antt =====
-- A step of `_scif_send` keeps what holds between two turns.
use mathlib.Core.List.{append_assoc}
use intel_xeon_phi_kernel_dr.Common.{
  ℕ, ◌+◌, ◌-◌, ◌≤◌, ◌≡◌, ◌≢◌, sym, ap, ◌∙◌, subst, inl, inr, List, ◌++◌, length, take, drop,
  Bool-cases, ◌==◌, ==_iff, arith, Bool, true,
}
use intel_xeon_phi_kernel_dr.Common.Int.{ℤ}
use intel_xeon_phi_kernel_dr.Kernel.{CircBuf}
use intel_xeon_phi_kernel_dr.ScifRb.{Queue}
use intel_xeon_phi_kernel_dr.ScifRb.Pipe.{Pipe, Status, done, enomem, efault}
use intel_xeon_phi_kernel_dr.ScifRb.Inv.{Inv}
use intel_xeon_phi_kernel_dr.ScifRb.Delivery.{stored}
use intel_xeon_phi_kernel_dr.ScifRb.WriteStep.{space_Inv}
use intel_xeon_phi_kernel_dr.ScifRb.Effects.{Wrote, write-Effect, commit-Effect}
use intel_xeon_phi_kernel_dr.Endpoint.Setup.{enodev}
use intel_xeon_phi_kernel_dr.Stream.{
  minus, econnreset, enotconn, Situation, is_connected, is_disconnected, count_or, SendPc,
  send_test, send_write, send_commit, send_notify, send_wait, send_returned, Receiver, Calls,
  send_room, send_written, send_tests, send_look, scif_send_step,
}
use intel_xeon_phi_kernel_dr.Stream.Invariant.{
  Answer, SenderAt, ReceiverAt-more, count_or-Answer, same-Answer, min_le, minus-Answer, nonzero,
  differ, take-plus, Good, sender_moves,
}

module _ (ok : Bool) (c : CircBuf) (k : Calls) (size log : ℕ) (before : List ℕ) (sit : Situation)
    (notified : ok ≡ true → sit.notify_errno ≡ 0) where
  module _ (r : Receiver) (q : Queue) where
    abbrev From : SendPc → ℕ → Type 0
    From pc sent = Good ok k size log before (record { pc = pc; sent_len = sent }) r q

    abbrev To : SendPc × Queue → ℕ → Type 0
    To out sent = Good ok k size log before (record { pc = out.0; sent_len = sent }) r out.1

    room_at :
        (room sent taken : ℕ)
        → taken ≡ sent
        → sent ≢ length k.msg
        → taken ≤ length k.msg
        → SenderAt ok (length k.msg) (send_room k room sent) sent taken
    unfolding SenderAt send_room
    room_at room sent taken e ne le = elim (Bool-cases (room == 0)) [
      | inl z ↦ elim (Bool-cases k.send_block) [
        | inl b ↦ rw (z, b) e
        | inr b ↦ rw (z, b) (same-Answer sent taken ok (sym e))
      ]
      | inr z ↦
          let m = min_le (length k.msg - sent) room (omega (arith, ne, le, e)) (nonzero room z) in
          rw z (e, (m.0, omega (arith, le, e, m.1.0)))
    ]

    send_tests-Good : (sent : ℕ) → From send_test sent → To (send_tests c k sit sent q) sent
    unfolding send_tests SenderAt
    send_tests-Good sent g = elim (Bool-cases (sent == length k.msg)) [
      | inl e ↦ rw e (
          sender_moves ok k size log before g _ q g.inv (
            same-Answer (length k.msg) g.taken ok
              (omega (arith, g.sender_at, (==_iff sent (length k.msg)).0 e))))
      | inr e ↦ elim (Bool-cases (is_disconnected sit.state)) [
        | inl a ↦ rw (e, a) (sender_moves ok k size log before g _ q g.inv (lost econnreset tt))
        | inr a ↦ elim (Bool-cases (is_connected sit.state)) [
          | inr b ↦ rw (e, a, b) (sender_moves ok k size log before g _ q g.inv (lost enotconn tt))
          | inl b ↦ elim (Bool-cases sit.alive) [
            | inr d ↦
                rw (e, a, b, d) (sender_moves ok k size log before g _ q g.inv (lost enodev tt))
            | inl d ↦
                rw (e, a, b, d)
                  (sender_moves ok k size log before g _ _ (space_Inv c g.inv)
                    (room_at _ sent g.taken g.sender_at (differ sent (length k.msg) e) g.taken_le))
          ]
        ]
      ]
    ]
      where
        lost : (err : ℤ) → Answer err ok g.taken → Answer (count_or sent err) ok g.taken
        lost err h =
            count_or-Answer sent g.taken err ok (omega (arith, g.sender_at)) (λ t. sym g.sender_at)
              h

    -- The bytes that a write takes follow those that the message has lost.
    appended :
        (buffer old : List ℕ) (p p' : Pipe) (taken n : ℕ)
        → stored p' ≡ stored p ++ take n (drop taken k.msg)
        → buffer ++ stored p ≡ old ++ take taken k.msg
        → buffer ++ stored p' ≡ old ++ take (taken + n) k.msg
    appended buffer old p p' taken n grown e =
        ap (◌++◌ buffer) grown
        ∙ sym (append_assoc buffer (stored p) (take n (drop taken k.msg)))
        ∙ ap (λ t. t ++ take n (drop taken k.msg)) e
        ∙ append_assoc old (take taken k.msg) (take n (drop taken k.msg))
        ∙ ap (◌++◌ old) (sym (take-plus taken n k.msg))

    written :
        (n sent : ℕ) (g : From (send_write n) sent) (q' : Queue) (status : Status) (p' : Pipe)
        → Inv size log q' p'
        → Wrote (take n (drop sent k.msg)) status g.pipe p'
        → To (send_written n status, q') sent
    unfolding Wrote send_written SenderAt
    written n sent g q' done p' v (grown, more) = record {
      pipe = p';
      inv = v;
      taken = g.taken + n;
      taken_le = omega (arith, g.sender_at.0, g.sender_at.1.1);
      sender_at = (omega (arith, g.sender_at.0), g.sender_at.1.0);
      receiver_at =
          ReceiverAt-more ok k.len r.pc (length r.buffer) r.remaining_len (length g.pipe.unread)
            (length p'.unread) more g.receiver_at;
      in_order = λ i.
          appended r.buffer before g.pipe p' g.taken n
            (grown ∙ ap (λ t. stored g.pipe ++ take n (drop t k.msg)) (sym g.sender_at.0))
            (g.in_order i);
    }
    written n sent g q' enomem p' v e =
        sender_moves ok k size log before g _ q' (subst (Inv size log q') e v) tt
    written n sent g q' efault p' v e =
        sender_moves ok k size log before g _ q' (subst (Inv size log q') e v) tt

    send_look-Inv : {p : Pipe} → Inv size log q p → Inv size log (send_look c sit q) p
    unfolding send_look
    send_look-Inv v = elim (Bool-cases (is_connected sit.state)) [
      | inl e ↦ rw e (space_Inv c v)
      | inr e ↦ rw e v
    ]

    pub send_step-Good :
        (pc : SendPc) (sent : ℕ)
        → From pc sent
        → let out = scif_send_step c k sit pc sent q in Good ok k size log before out.0 r out.1
    unfolding scif_send_step SenderAt
    send_step-Good send_test sent g = send_tests-Good sent g
    send_step-Good (send_write n) sent g =
        let (p', v, w) = write-Effect c g.inv sit.copy (take n (drop sent k.msg)) k.fromuser in
        written n sent g _ _ p' v w
    send_step-Good (send_commit n) sent g =
        let (p', v, (same, more)) = commit-Effect c g.inv in
        record {
          pipe = p';
          inv = v;
          taken = g.taken;
          taken_le = g.taken_le;
          sender_at = g.sender_at;
          receiver_at =
              ReceiverAt-more ok k.len r.pc (length r.buffer) r.remaining_len (length g.pipe.unread)
                (length p'.unread) more g.receiver_at;
          in_order = λ i. ap (◌++◌ r.buffer) same ∙ g.in_order i;
        }
    send_step-Good (send_notify n) sent g = elim (Bool-cases (sit.notify_errno == 0)) [
      | inl e ↦ rw e (sender_moves ok k size log before g _ q g.inv (omega (arith, g.sender_at.0)))
      | inr e ↦ rw e (
          sender_moves ok k size log before g _ q g.inv (
            count_or-Answer sent g.taken (minus sit.notify_errno) ok (omega (arith, g.sender_at.0))
              (λ t. absurd (omega (arith, notified t, nonzero sit.notify_errno e)))
              (minus-Answer sit.notify_errno g.taken ok e)))
    ]
    send_step-Good send_wait sent g = elim (Bool-cases (sit.wait_errno == 0)) [
      | inl e ↦ rw e (sender_moves ok k size log before g _ _ (send_look-Inv g.inv) g.sender_at)
      | inr e ↦ rw e (
          sender_moves ok k size log before g _ _ (send_look-Inv g.inv) (
            count_or-Answer sent g.taken (minus sit.wait_errno) ok (omega (arith, g.sender_at))
              (λ t. sym g.sender_at) (minus-Answer sit.wait_errno g.taken ok e)))
    ]
    send_step-Good (send_returned a) sent g = g
