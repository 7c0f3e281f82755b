-- ===== src/Stream/InOrder.antt =====
-- What arrives of a message while the two ends are at work.
use mathlib.Core.List.{append-nil}
use intel_xeon_phi_kernel_dr.Common.{
  ◌&&◌, ◌==◌, ==_iff, Bool, true, false, ℕ, ◌≤◌, ◌≡◌, refl, sym, List, [], ◌∷◌, ◌++◌, length, take,
  arith,
}
use intel_xeon_phi_kernel_dr.Kernel.{CircBuf}
use intel_xeon_phi_kernel_dr.ScifRb.{Queue}
use intel_xeon_phi_kernel_dr.ScifRb.Pipe.{Pipe}
use intel_xeon_phi_kernel_dr.ScifRb.Inv.{Inv}
use intel_xeon_phi_kernel_dr.ScifRb.Delivery.{stored}
use intel_xeon_phi_kernel_dr.Stream.{
  SendPc, send_test, send_write, send_commit, send_notify, send_wait, send_returned, RecvPc,
  recv_test, recv_get, recv_give, recv_notify, recv_wait, recv_returned, recv_bug, Calls, Stream,
  Turn, sends, receives, turn, turns, start,
}
use intel_xeon_phi_kernel_dr.Stream.Invariant.{Answer, SenderAt, ReceiverAt, Intact, Good}
use intel_xeon_phi_kernel_dr.Stream.Sends.{send_step-Good}
use intel_xeon_phi_kernel_dr.Stream.Receives.{recv_step-Good}

abbrev pub turn_notified : Turn → Bool
turn_notified (sends sit) = sit.notify_errno == 0
turn_notified (receives sit) = sit.notify_errno == 0

abbrev pub all_notified : List Turn → Bool
all_notified [] = true
all_notified (t ∷ ts) = turn_notified t && all_notified ts

both : (a b : Bool) → a && b ≡ true → (a ≡ true) × (b ≡ true)
both true b e = (refl, e)
both false b e = cc

module _ (ok : Bool) (c : CircBuf) (k : Calls) (size log : ℕ) (before : List ℕ) where
  abbrev pub GoodStream : Stream → Type 0
  GoodStream s = Good ok k size log before s.sender s.receiver s.queue

  pub turn-Good :
      (t : Turn) (s : Stream)
      → (ok ≡ true → turn_notified t ≡ true)
      → GoodStream s
      → GoodStream (turn c k t s)
  unfolding turn
  turn-Good (sends sit) s h g =
      send_step-Good ok c k size log before sit (λ e. (==_iff sit.notify_errno 0).0 (h e))
        s.receiver s.queue s.sender.pc s.sender.sent_len g
  turn-Good (receives sit) s h g =
      recv_step-Good ok c k size log before sit (λ e. (==_iff sit.notify_errno 0).0 (h e)) s.sender
        s.queue s.receiver.pc s.receiver.buffer s.receiver.remaining_len g

  pub turns-Good :
      (ts : List Turn) (s : Stream)
      → (ok ≡ true → all_notified ts ≡ true)
      → GoodStream s
      → GoodStream (turns c k ts s)
  unfolding turns
  turns-Good [] s h g = g
  turns-Good (t ∷ ts) s h g =
      turns-Good ts (turn c k t s) (λ e. (both (turn_notified t) (all_notified ts) (h e)).1)
        (turn-Good t s (λ e. (both (turn_notified t) (all_notified ts) (h e)).0) g)

pub start-Good :
    (ok : Bool) (k : Calls) (size log : ℕ) (q : Queue) (p : Pipe)
    → Inv size log q p
    → Good ok k size log (stored p) (start k q).sender (start k q).receiver q
unfolding SenderAt ReceiverAt
start-Good ok k size log q p v = record {
  pipe = p;
  inv = v;
  taken = 0;
  taken_le = omega arith;
  sender_at = refl;
  receiver_at = omega arith;
  in_order = λ i. sym (append-nil (stored p));
}

start-turns-Good :
    (c : CircBuf) (k : Calls) (ts : List Turn) {size log : ℕ} {q : Queue} {p : Pipe}
    → Inv size log q p
    → let s = turns c k ts (start k q) in
      Good (all_notified ts) k size log (stored p) s.sender s.receiver s.queue
start-turns-Good c k ts {size} {log} {q} {p} v =
    turns-Good (all_notified ts) c k size log (stored p) ts (start k q) (λ e. e)
      (start-Good (all_notified ts) k size log q p v)

abbrev pub SendAnswer : SendPc → Bool → ℕ → Type 0
SendAnswer (send_returned r) ok taken = Answer r ok taken
SendAnswer _ ok taken = Unit

abbrev pub RecvAnswer : RecvPc → Bool → ℕ → Type 0
RecvAnswer (recv_returned r) ok have = Answer r ok have
RecvAnswer recv_bug ok have = ⊥
RecvAnswer _ ok have = Unit

SenderAt-answer :
    (ok : Bool) (total : ℕ) (pc : SendPc) (sent taken : ℕ)
    → SenderAt ok total pc sent taken
    → SendAnswer pc ok taken
unfolding SenderAt
SenderAt-answer ok total send_test sent taken a = tt
SenderAt-answer ok total (send_write n) sent taken a = tt
SenderAt-answer ok total (send_commit n) sent taken a = tt
SenderAt-answer ok total (send_notify n) sent taken a = tt
SenderAt-answer ok total send_wait sent taken a = tt
SenderAt-answer ok total (send_returned r) sent taken a = a

ReceiverAt-answer :
    (ok : Bool) (len : ℕ) (pc : RecvPc) (have remaining unread : ℕ)
    → ReceiverAt ok len pc have remaining unread
    → RecvAnswer pc ok have
unfolding ReceiverAt
ReceiverAt-answer ok len recv_test have remaining unread a = tt
ReceiverAt-answer ok len (recv_get n) have remaining unread a = tt
ReceiverAt-answer ok len (recv_give n) have remaining unread a = tt
ReceiverAt-answer ok len (recv_notify n) have remaining unread a = tt
ReceiverAt-answer ok len recv_wait have remaining unread a = tt
ReceiverAt-answer ok len (recv_returned r) have remaining unread a = a
ReceiverAt-answer ok len recv_bug have remaining unread a = a

-- From a queue that stands for a pipe, after any turns of `_scif_send` and `_scif_recv`, in any
-- situations, unless the receiver has returned -EFAULT: the queue stands for a pipe, and the bytes
-- handed to the receiver, followed by those in the ring, are the bytes that were in the ring,
-- followed by the first bytes of the message, in order. Where either call answers a number of
-- bytes, it is the number that went into the ring or was handed over, and if a notification could
-- not be sent, at most that number. The receiver meets no BUG_ON.
pub turns_in_order :
    (c : CircBuf) (k : Calls) (ts : List Turn) {size log : ℕ} {q : Queue} {p : Pipe}
    → Inv size log q p
    → Intact (turns c k ts (start k q)).receiver.pc
    → let s = turns c k ts (start k q) in
      let ok = all_notified ts in
      (p' : Pipe) × (taken : ℕ) × Inv size log s.queue p'
      × (taken ≤ length k.msg)
      × (s.receiver.buffer ++ stored p' ≡ stored p ++ take taken k.msg)
      × (SendAnswer s.sender.pc ok taken × RecvAnswer s.receiver.pc ok (length s.receiver.buffer))
turns_in_order c k ts {size} {log} {q} {p} v intact =
    let g = start-turns-Good c k ts v in
    (
      g.pipe,
      g.taken,
      g.inv,
      g.taken_le,
      g.in_order intact,
      (
        SenderAt-answer (all_notified ts) (length k.msg) _ _ g.taken g.sender_at,
        ReceiverAt-answer (all_notified ts) k.len _ _ _ (length g.pipe.unread) g.receiver_at,
      ),
    )
