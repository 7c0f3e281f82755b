-- ===== src/Stream/Ends.antt =====
-- The steps of calls that do not block.
use intel_xeon_phi_kernel_dr.Common.{
  ℕ, suc, ◌+◌, ◌-◌, ◌*◌, ◌≤◌, ◌≡◌, refl, inl, inr, false, not, List, [], ◌∷◌, ◌&&◌, length, take,
  drop, Bool-cases, ◌==◌, arith,
}
use intel_xeon_phi_kernel_dr.Common.Int.{ℤ}
use intel_xeon_phi_kernel_dr.Kernel.{CircBuf}
use intel_xeon_phi_kernel_dr.ScifRb.{Queue, micscif_rb_write, micscif_rb_get_next}
use intel_xeon_phi_kernel_dr.ScifRb.Pipe.{
  Pipe, Status, done, enomem, efault, Read, nothing, got, fault,
}
use intel_xeon_phi_kernel_dr.ScifRb.Inv.{Inv}
use intel_xeon_phi_kernel_dr.ScifRb.Delivery.{stored}
use intel_xeon_phi_kernel_dr.Stream.{
  Situation, is_connected, is_disconnected, SendPc, send_test, send_write, send_commit, send_notify,
  send_wait, send_returned, RecvPc, recv_test, recv_get, recv_give, recv_notify, recv_wait,
  recv_returned, recv_bug, Calls, send_room, send_written, send_tests, scif_send_step, recv_count,
  recv_tests, recv_read, scif_recv_step, Stream, Turn, sends, receives, turn, turns, start,
}
use intel_xeon_phi_kernel_dr.Stream.Invariant.{SenderAt, ReceiverAt}
use intel_xeon_phi_kernel_dr.Stream.InOrder.{GoodStream, turn-Good, turns-Good, start-Good}

-- The most steps that a call that does not block still makes.
send_cost : ℕ → SendPc → ℕ → ℕ
send_cost total send_test sent = 4 * (total - sent) + 1
send_cost total (send_write n) sent = 4 * (total - sent)
send_cost total (send_commit n) sent = 4 * (total - sent) - 1
send_cost total (send_notify n) sent = 4 * (total - sent) - 2
send_cost total send_wait sent = 4 * (total - sent) + 2
send_cost total (send_returned r) sent = 0

recv_cost : RecvPc → ℕ → ℕ
recv_cost recv_test remaining = 4 * remaining + 1
recv_cost (recv_get n) remaining = 4 * remaining
recv_cost (recv_give n) remaining = 4 * remaining - 1
recv_cost (recv_notify n) remaining = 4 * remaining - 2
recv_cost recv_wait remaining = 4 * remaining + 2
recv_cost (recv_returned r) remaining = 0
recv_cost recv_bug remaining = 0

module _ (c : CircBuf) (k : Calls) (sit : Situation) (no_block : k.send_block ≡ false) where
  room-cost :
      (room sent : ℕ)
      → send_cost (length k.msg) (send_room k room sent) sent ≤ 4 * (length k.msg - sent)
  unfolding send_cost send_room
  room-cost room sent = elim (Bool-cases (room == 0)) [
    | inl z ↦ rw (z, no_block) (omega arith)
    | inr z ↦ rw z (omega arith)
  ]

  send_tests-cost :
      (sent : ℕ) (q : Queue)
      → send_cost (length k.msg) (send_tests c k sit sent q).0 sent ≤ 4 * (length k.msg - sent)
  unfolding send_cost send_tests
  send_tests-cost sent q = elim (Bool-cases (sent == length k.msg)) [
    | inl e ↦ rw e (omega arith)
    | inr e ↦ elim (Bool-cases (is_disconnected sit.state)) [
      | inl a ↦ rw (e, a) (omega arith)
      | inr a ↦ elim (Bool-cases (is_connected sit.state)) [
        | inr b ↦ rw (e, a, b) (omega arith)
        | inl b ↦ elim (Bool-cases sit.alive) [
          | inr d ↦ rw (e, a, b, d) (omega arith)
          | inl d ↦ rw (e, a, b, d) (room-cost _ sent)
        ]
      ]
    ]
  ]

  written-cost :
      (n sent : ℕ) (status : Status)
      → 1 ≤ length k.msg - sent
      → send_cost (length k.msg) (send_written n status) sent + 1 ≤ 4 * (length k.msg - sent)
  unfolding send_cost send_written
  written-cost n sent done h = omega arith
  written-cost n sent enomem h = omega arith
  written-cost n sent efault h = omega arith

  send_step-cost :
      (pc : SendPc) (sent taken : ℕ) (q : Queue)
      → SenderAt false (length k.msg) pc sent taken
      → taken ≤ length k.msg
      → let out = (scif_send_step c k sit pc sent q).0 in
        send_cost (length k.msg) out.pc out.sent_len ≤ send_cost (length k.msg) pc sent - 1
  unfolding send_cost SenderAt scif_send_step
  send_step-cost send_test sent taken q at le = omega (arith, send_tests-cost sent q)
  send_step-cost (send_write n) sent taken q at le = omega (
    arith,
    written-cost n sent
        (micscif_rb_write c sit.copy q.writer q.shared (take n (drop sent k.msg)) k.fromuser).0
        (omega (arith, at.1.0, at.1.1)),
  )
  send_step-cost (send_commit n) sent taken q at le = omega arith
  send_step-cost (send_notify n) sent taken q at le = elim (Bool-cases (sit.notify_errno == 0)) [
    | inl e ↦ rw e (omega (arith, at.0, at.1, le))
    | inr e ↦ rw e (omega arith)
  ]
  send_step-cost send_wait sent taken q at le = elim (Bool-cases (sit.wait_errno == 0)) [
    | inl e ↦ rw e (omega arith)
    | inr e ↦ rw e (omega arith)
  ]
  send_step-cost (send_returned r) sent taken q at le = omega arith

module _ (c : CircBuf) (k : Calls) (sit : Situation) (no_block : k.recv_block ≡ false) where
  count-cost :
      (count remaining : ℕ) → recv_cost (recv_count k sit count remaining) remaining ≤ 4 * remaining
  unfolding recv_cost recv_count
  count-cost count remaining = elim (Bool-cases (count == 0)) [
    | inl z ↦ elim (Bool-cases (is_disconnected sit.state)) [
      | inl a ↦ rw (z, a) (omega arith)
      | inr a ↦ rw (z, a, no_block) (omega arith)
    ]
    | inr z ↦ rw z (omega arith)
  ]

  recv_tests-cost :
      (remaining : ℕ) (q : Queue)
      → recv_cost (recv_tests c k sit remaining q).0 remaining ≤ 4 * remaining
  unfolding recv_cost recv_tests
  recv_tests-cost remaining q = elim (Bool-cases (remaining == 0)) [
    | inl e ↦ rw e (omega arith)
    | inr e ↦ elim (Bool-cases (not (is_connected sit.state) && not (is_disconnected sit.state))) [
      | inl a ↦ rw (e, a) (omega arith)
      | inr a ↦ rw (e, a) (count-cost _ remaining)
    ]
  ]

  read-cost :
      (n : ℕ) (answer : Read) (buffer : List ℕ) (remaining : ℕ)
      → let out = recv_read n answer buffer remaining in
        recv_cost out.pc out.remaining_len ≤ 4 * remaining - 1
  unfolding recv_cost recv_read
  read-cost n nothing buffer remaining = omega arith
  read-cost n (got bytes) buffer remaining = omega arith
  read-cost n fault buffer remaining = omega arith

  recv_step-cost :
      (pc : RecvPc) (buffer : List ℕ) (remaining have unread : ℕ) (q : Queue)
      → ReceiverAt false k.len pc have remaining unread
      → let out = (scif_recv_step c k sit pc buffer remaining q).0 in
        recv_cost out.pc out.remaining_len ≤ recv_cost pc remaining - 1
  unfolding recv_cost ReceiverAt scif_recv_step
  recv_step-cost recv_test buffer remaining have unread q at =
      omega (arith, recv_tests-cost remaining q)
  recv_step-cost (recv_get n) buffer remaining have unread q at =
      read-cost n (micscif_rb_get_next c sit.copy q.reader q.shared n k.touser).0 buffer remaining
  recv_step-cost (recv_give n) buffer remaining have unread q at =
      elim (Bool-cases (is_connected sit.state)) [
        | inl e ↦ rw e (omega arith)
        | inr e ↦ rw e (omega (arith, at.1.0, at.1.1))
      ]
  recv_step-cost (recv_notify n) buffer remaining have unread q at =
      elim (Bool-cases (sit.notify_errno == 0)) [
        | inl e ↦ rw e (omega (arith, at.1.0, at.1.1))
        | inr e ↦ rw e (omega arith)
      ]
  recv_step-cost recv_wait buffer remaining have unread q at =
      elim (Bool-cases (sit.wait_errno == 0)) [
        | inl e ↦ rw e (omega arith)
        | inr e ↦ rw e (omega arith)
      ]
  recv_step-cost (recv_returned r) buffer remaining have unread q at = omega arith
  recv_step-cost recv_bug buffer remaining have unread q at = omega arith

-- The turns of each thread.
abbrev pub sends_in : List Turn → ℕ
sends_in [] = 0
sends_in (sends sit ∷ ts) = suc (sends_in ts)
sends_in (receives sit ∷ ts) = sends_in ts

abbrev pub receives_in : List Turn → ℕ
receives_in [] = 0
receives_in (sends sit ∷ ts) = receives_in ts
receives_in (receives sit ∷ ts) = suc (receives_in ts)

sender_cost : ℕ → Stream → ℕ
sender_cost total s = send_cost total s.sender.pc s.sender.sent_len

receiver_cost : Stream → ℕ
receiver_cost s = recv_cost s.receiver.pc s.receiver.remaining_len

module _ (c : CircBuf) (k : Calls) (size log : ℕ) (before : List ℕ) where
  turns-sender_cost :
      k.send_block ≡ false
      → (ts : List Turn) (s : Stream) → GoodStream false c k size log before s
      → sender_cost (length k.msg) (turns c k ts s) ≤ sender_cost (length k.msg) s - sends_in ts
  unfolding turns turn sender_cost
  turns-sender_cost b [] s g = omega arith
  turns-sender_cost b (sends sit ∷ ts) s g = omega (
    arith,
    turns-sender_cost b ts (turn c k (sends sit) s)
        (turn-Good false c k size log before (sends sit) s (λ e. cc) g),
    send_step-cost c k sit b s.sender.pc s.sender.sent_len g.taken s.queue g.sender_at g.taken_le,
  )
  turns-sender_cost b (receives sit ∷ ts) s g =
      turns-sender_cost b ts (turn c k (receives sit) s)
        (turn-Good false c k size log before (receives sit) s (λ e. cc) g)

  turns-receiver_cost :
      k.recv_block ≡ false
      → (ts : List Turn) (s : Stream) → GoodStream false c k size log before s
      → receiver_cost (turns c k ts s) ≤ receiver_cost s - receives_in ts
  unfolding turns turn receiver_cost
  turns-receiver_cost b [] s g = omega arith
  turns-receiver_cost b (sends sit ∷ ts) s g =
      turns-receiver_cost b ts (turn c k (sends sit) s)
        (turn-Good false c k size log before (sends sit) s (λ e. cc) g)
  turns-receiver_cost b (receives sit ∷ ts) s g = omega (
    arith,
    turns-receiver_cost b ts (turn c k (receives sit) s)
        (turn-Good false c k size log before (receives sit) s (λ e. cc) g),
    recv_step-cost c k sit b s.receiver.pc s.receiver.buffer s.receiver.remaining_len
        (length s.receiver.buffer) (length g.pipe.unread) s.queue g.receiver_at,
  )

send_cost-zero :
    (total : ℕ) (pc : SendPc) (sent taken : ℕ)
    → SenderAt false total pc sent taken
    → taken ≤ total
    → send_cost total pc sent ≡ 0
    → (r : ℤ) × (pc ≡ send_returned r)
unfolding send_cost SenderAt
send_cost-zero total send_test sent taken at le e = absurd (omega arith)
send_cost-zero total (send_write n) sent taken at le e = absurd (omega (arith, at.1.0, at.1.1))
send_cost-zero total (send_commit n) sent taken at le e = absurd (omega (arith, at.0, at.1))
send_cost-zero total (send_notify n) sent taken at le e = absurd (omega (arith, at.0, at.1))
send_cost-zero total send_wait sent taken at le e = absurd (omega arith)
send_cost-zero total (send_returned r) sent taken at le e = (r, refl)

recv_cost-zero :
    (len : ℕ) (pc : RecvPc) (have remaining unread : ℕ)
    → ReceiverAt false len pc have remaining unread
    → recv_cost pc remaining ≡ 0
    → (r : ℤ) × (pc ≡ recv_returned r)
unfolding recv_cost ReceiverAt
recv_cost-zero len recv_test have remaining unread at e = absurd (omega arith)
recv_cost-zero len (recv_get n) have remaining unread at e =
    absurd (omega (arith, at.1.0, at.1.1.0))
recv_cost-zero len (recv_give n) have remaining unread at e = absurd (omega (arith, at.1.0, at.1.1))
recv_cost-zero len (recv_notify n) have remaining unread at e =
    absurd (omega (arith, at.1.0, at.1.1))
recv_cost-zero len recv_wait have remaining unread at e = absurd (omega arith)
recv_cost-zero len (recv_returned r) have remaining unread at e = (r, refl)
recv_cost-zero len recv_bug have remaining unread at e = absurd at

-- From a queue that stands for a pipe, where neither call blocks: when `_scif_send` has made four
-- turns for each byte of its message and one more, and `_scif_recv` four for each byte that it
-- was asked for and one more, both have returned, whatever they met and in whatever order the turns
-- came.
pub calls_return :
    (c : CircBuf) (k : Calls) (ts : List Turn) {size log : ℕ} {q : Queue} {p : Pipe}
    → Inv size log q p
    → k.send_block ≡ false
    → k.recv_block ≡ false
    → 4 * length k.msg + 1 ≤ sends_in ts
    → 4 * k.len + 1 ≤ receives_in ts
    → let s = turns c k ts (start k q) in
      ((r : ℤ) × (s.sender.pc ≡ send_returned r)) × ((r : ℤ) × (s.receiver.pc ≡ recv_returned r))
unfolding sender_cost receiver_cost send_cost recv_cost
calls_return c k ts {size} {log} {q} {p} v sb rb enough_sends enough_receives =
    let g₀ = start-Good false k size log q p v in
    let g = turns-Good false c k size log (stored p) ts (start k q) (λ e. cc) g₀ in
    (
      send_cost-zero (length k.msg) _ _ g.taken g.sender_at g.taken_le
          (omega (arith, turns-sender_cost c k size log (stored p) sb ts (start k q) g₀)),
      recv_cost-zero k.len _ _ _ (length g.pipe.unread) g.receiver_at
          (omega (arith, turns-receiver_cost c k size log (stored p) rb ts (start k q) g₀)),
    )
