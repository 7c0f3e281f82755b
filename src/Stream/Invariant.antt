-- ===== src/Stream/Invariant.antt =====
-- What holds between two turns of `_scif_send` and `_scif_recv`.
use intel_xeon_phi_kernel_dr.Common.{
  ℕ, zero, suc, ◌+◌, ◌≤◌, ◌≡◌, ◌≢◌, refl, ap, ◌∙◌, inl, inr, true, false, List, [], ◌∷◌, ◌++◌,
  length, take, drop, ltb, ltb→lt, ltb_false→le, Bool-cases, ◌==◌, ==_iff, arith, Bool,
}
use intel_xeon_phi_kernel_dr.Common.Int.{ℤ, pos, negsuc}
use intel_xeon_phi_kernel_dr.ScifRb.{Queue}
use intel_xeon_phi_kernel_dr.ScifRb.Pipe.{Pipe}
use intel_xeon_phi_kernel_dr.ScifRb.Inv.{Inv}
use intel_xeon_phi_kernel_dr.ScifRb.Delivery.{stored}
use intel_xeon_phi_kernel_dr.Stream.{
  minus, bad_address, count_or, min, SendPc, send_test, send_write, send_commit, send_notify,
  send_wait, send_returned, Sender, RecvPc, recv_test, recv_get, recv_give, recv_notify, recv_wait,
  recv_returned, recv_bug, Receiver, Calls,
}

-- An answer that is a number of bytes is `n`, if `ok`, or else at most `n`.
abbrev pub Answer : ℤ → Bool → ℕ → Type 0
Answer (pos m) true n = m ≡ n
Answer (pos m) false n = m ≤ n
Answer (negsuc m) ok n = Unit

-- `taken` bytes of the message of `total` bytes are in the ring or beyond; the sender knows of
-- `sent` of them.
unfoldable pub SenderAt : Bool → ℕ → SendPc → ℕ → ℕ → Type 0
SenderAt ok total send_test sent taken = taken ≡ sent
SenderAt ok total (send_write n) sent taken = (taken ≡ sent) × (1 ≤ n × sent + n ≤ total)
SenderAt ok total (send_commit n) sent taken = (taken ≡ sent + n) × (1 ≤ n)
SenderAt ok total (send_notify n) sent taken = (taken ≡ sent + n) × (1 ≤ n)
SenderAt ok total send_wait sent taken = taken ≡ sent
SenderAt ok total (send_returned r) sent taken = Answer r ok taken

-- `have` bytes were handed over, `unread` may be read.
unfoldable pub ReceiverAt : Bool → ℕ → RecvPc → ℕ → ℕ → ℕ → Type 0
ReceiverAt ok len recv_test have remaining unread = have + remaining ≡ len
ReceiverAt ok len (recv_get n) have remaining unread =
    (have + remaining ≡ len) × (1 ≤ n × (n ≤ remaining × n ≤ unread))
ReceiverAt ok len (recv_give n) have remaining unread =
    (have + remaining ≡ len + n) × (1 ≤ n × n ≤ remaining)
ReceiverAt ok len (recv_notify n) have remaining unread =
    (have + remaining ≡ len + n) × (1 ≤ n × n ≤ remaining)
ReceiverAt ok len recv_wait have remaining unread = have + remaining ≡ len
ReceiverAt ok len (recv_returned r) have remaining unread = Answer r ok have
ReceiverAt ok len recv_bug have remaining unread = ⊥

-- The receiver has not returned -EFAULT.
abbrev pub Intact : RecvPc → Type 0
Intact (recv_returned r) = r ≢ bad_address
Intact _ = Unit

-- More bytes that may be read do not disturb the receiver.
pub ReceiverAt-more :
    (ok : Bool) (len : ℕ) (pc : RecvPc) (have remaining unread unread' : ℕ)
    → unread ≤ unread'
    → ReceiverAt ok len pc have remaining unread
    → ReceiverAt ok len pc have remaining unread'
unfolding ReceiverAt
ReceiverAt-more ok len recv_test have remaining unread unread' h r = r
ReceiverAt-more ok len (recv_get n) have remaining unread unread' h (e, (a, (b, d))) =
    (e, (a, (b, omega arith)))
ReceiverAt-more ok len (recv_give n) have remaining unread unread' h r = r
ReceiverAt-more ok len (recv_notify n) have remaining unread unread' h r = r
ReceiverAt-more ok len recv_wait have remaining unread unread' h r = r
ReceiverAt-more ok len (recv_returned x) have remaining unread unread' h r = r
ReceiverAt-more ok len recv_bug have remaining unread unread' h r = r

pub below-Answer : (m n : ℕ) (ok : Bool) → m ≤ n → (ok ≡ true → m ≡ n) → Answer (pos m) ok n
below-Answer m n true le same = same refl
below-Answer m n false le same = le

pub same-Answer : (m n : ℕ) (ok : Bool) → m ≡ n → Answer (pos m) ok n
same-Answer m n ok e = below-Answer m n ok (omega (arith, e)) (λ t. e)

pub count_or-Answer :
    (m n : ℕ) (err : ℤ) (ok : Bool)
    → m ≤ n
    → (ok ≡ true → m ≡ n)
    → Answer err ok n
    → Answer (count_or m err) ok n
unfolding count_or
count_or-Answer m n err ok le same a = elim (Bool-cases (m == 0)) [
  | inl e ↦ rw e a
  | inr e ↦ rw e (below-Answer m n ok le same)
]

pub min_le : (a b : ℕ) → 1 ≤ a → 1 ≤ b → (1 ≤ min a b) × (min a b ≤ a × min a b ≤ b)
min_le a b h k = elim (Bool-cases (ltb a b)) [
  | inl e ↦ rw e (h, (omega arith, omega (arith, ltb→lt a b e)))
  | inr e ↦ rw e (k, (ltb_false→le a b e, omega arith))
]

pub nonzero : (n : ℕ) → n == 0 ≡ false → 1 ≤ n
nonzero zero e = cc
nonzero (suc n) e = omega arith

pub minus-Answer : (errno n : ℕ) (ok : Bool) → errno == 0 ≡ false → Answer (minus errno) ok n
unfolding minus
minus-Answer zero n ok e = cc
minus-Answer (suc errno) n ok e = tt

pub differ : (m n : ℕ) → m == n ≡ false → m ≢ n
differ m n e h = let k : m == n ≡ true = (==_iff m n).1 h in cc

shift : (a b : ℕ) → suc a + b ≡ suc (a + b)
shift a b = omega arith

pub take-plus : (a b : ℕ) (xs : List ℕ) → take (a + b) xs ≡ take a xs ++ take b (drop a xs)
take-plus zero b xs = ap (λ n. take n xs) (omega arith)
take-plus (suc a) b [] = ap (λ n. take n []) (shift a b) ∙ take-nil b
  where
    take-nil : (n : ℕ) → take {A = ℕ} (suc n) [] ≡ [] ++ take n []
    take-nil zero = refl
    take-nil (suc n) = refl
take-plus (suc a) b (x ∷ xs) = ap (λ n. take n (x ∷ xs)) (shift a b) ∙ ap (◌∷◌ x) (take-plus a b xs)

module _ (ok : Bool) (k : Calls) (size log : ℕ) (before : List ℕ) where
  -- What holds between any two turns: the ring stands for a pipe, and the bytes handed over and
  -- those in the ring are those that were there before and those taken of the message. `ok` says
  -- that every notification was sent.
  pub record Good (s : Sender) (r : Receiver) (q : Queue) : Type 0 where
    pub pipe : Pipe
    pub inv : Inv size log q pipe
    pub taken : ℕ
    pub taken_le : taken ≤ length k.msg
    pub sender_at : SenderAt ok (length k.msg) s.pc s.sent_len taken
    pub receiver_at :
        ReceiverAt ok k.len r.pc (length r.buffer) r.remaining_len (length pipe.unread)
    pub in_order : Intact r.pc → r.buffer ++ stored pipe ≡ before ++ take taken k.msg

  module _ {s : Sender} {r : Receiver} {q : Queue} (g : Good s r q) where
    -- A turn that leaves the bytes alone.
    pub sender_moves :
        (s' : Sender) (q' : Queue)
        → Inv size log q' g.pipe
        → SenderAt ok (length k.msg) s'.pc s'.sent_len g.taken
        → Good s' r q'
    sender_moves s' q' v at = record {
      pipe = g.pipe;
      inv = v;
      taken = g.taken;
      taken_le = g.taken_le;
      sender_at = at;
      receiver_at = g.receiver_at;
      in_order = g.in_order;
    }

    pub receiver_moves :
        (pc : RecvPc) (remaining : ℕ) (q' : Queue)
        → Inv size log q' g.pipe
        → Intact r.pc
        → ReceiverAt ok k.len pc (length r.buffer) remaining (length g.pipe.unread)
        → Good s (record { pc = pc; buffer = r.buffer; remaining_len = remaining }) q'
    receiver_moves pc remaining q' v intact at = record {
      pipe = g.pipe;
      inv = v;
      taken = g.taken;
      taken_le = g.taken_le;
      sender_at = g.sender_at;
      receiver_at = at;
      in_order = λ i. g.in_order intact;
    }
