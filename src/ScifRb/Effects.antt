-- ===== src/ScifRb/Effects.antt =====
-- What a caller of the ring gets from each call where the queue stands for a pipe.
use mathlib.Core.List.{append_assoc, append-nil}
use intel_xeon_phi_kernel_dr.Common.{
  ℕ, ◌≤◌, ◌<◌, ◌≡◌, refl, sym, ap, ◌∙◌, Bool, List, ◌++◌, length, take, drop, take-append-drop,
  length-append, length-take, arith,
}
use intel_xeon_phi_kernel_dr.Kernel.{CircBuf, UserCopy}
use intel_xeon_phi_kernel_dr.ScifRb.{
  Queue, micscif_rb_write, micscif_rb_commit, micscif_rb_get_next, micscif_rb_update_read_ptr, step,
}
use intel_xeon_phi_kernel_dr.ScifRb.Pipe.{
  Pipe, Op, Reply, Step, Status, done, Read, nothing, got, fault, write, commit, get_next,
  update_read_ptr, wrote, read, accept, refuse, write_fault, publish, ask, deliver, starve,
  read_fault, give_back,
}
use intel_xeon_phi_kernel_dr.ScifRb.Inv.{Inv}
use intel_xeon_phi_kernel_dr.ScifRb.Refine.{step_refines}
use intel_xeon_phi_kernel_dr.ScifRb.Delivery.{stored}

-- What a call with that answer does to the bytes in the ring and to those that may be read.
unfoldable pub Wrote : List ℕ → Status → Pipe → Pipe → Type 0
Wrote msg done p p' = (stored p' ≡ stored p ++ msg) × (length p.unread ≤ length p'.unread)
Wrote msg _ p p' = p' ≡ p

unfoldable pub Took : ℕ → Read → Pipe → Pipe → Type 0
Took n (got bytes) p p' = (bytes ++ stored p' ≡ stored p) × (length bytes ≡ n)
Took n nothing p p' = length p.unread < n
Took n fault p p' = n ≤ length p.unread

pub Effect : Op → Reply → Pipe → Pipe → Type 0
unfolding Wrote Took
Effect (write u msg fromuser) (wrote status) p p' = Wrote msg status p p'
Effect commit r p p' = (stored p' ≡ stored p) × (length p.unread ≤ length p'.unread)
Effect (get_next u n touser) (read r) p p' = Took n r p p'
Effect update_read_ptr r p p' = stored p' ≡ stored p
Effect _ _ p p' = Unit

Step-Effect :
    {size : ℕ} {p p' : Pipe} {op : Op} {r : Reply} → Step size p op r p' → Effect op r p p'
unfolding Effect Wrote Took
Step-Effect {p} (accept u msg fromuser h) = (sym (append_assoc p.unread p.pending msg), omega arith)
Step-Effect (refuse u msg fromuser h) = refl
Step-Effect (write_fault u msg h) = refl
Step-Effect {p} publish = (append-nil (stored p), omega (arith, length-append p.unread p.pending))
Step-Effect (ask n h) = tt
Step-Effect {p} (deliver u n touser h) = (
  sym (append_assoc (take n p.unread) (drop n p.unread) p.pending)
      ∙ ap (λ t. t ++ p.pending) (take-append-drop n p.unread),
  omega (arith, length-take n p.unread),
)
Step-Effect (starve u n touser h) = h
Step-Effect (read_fault u n h) = h
Step-Effect give_back = refl

module _ (c : CircBuf) {size log : ℕ} {q : Queue} {p : Pipe} (v : Inv size log q p) where
  pub write-Effect :
      (u : UserCopy) (msg : List ℕ) (fromuser : Bool)
      → let (status, rb, sh) = micscif_rb_write c u q.writer q.shared msg fromuser in
        (p' : Pipe) × Inv size log (record q { writer = rb; shared = sh }) p'
        × Wrote msg status p p'
  unfolding step Effect
  write-Effect u msg fromuser =
      let (p', st, v') = step_refines c (write u msg fromuser) v in (p', v', Step-Effect st)

  pub commit-Effect :
      (p' : Pipe) × Inv size log (record q { shared = micscif_rb_commit q.writer q.shared }) p'
      × ((stored p' ≡ stored p) × (length p.unread ≤ length p'.unread))
  unfolding step Effect
  commit-Effect = let (p', st, v') = step_refines c commit v in (p', v', Step-Effect st)

  pub get_next-Effect :
      (u : UserCopy) (n : ℕ) (touser : Bool)
      → let (r, rb) = micscif_rb_get_next c u q.reader q.shared n touser in
        (p' : Pipe) × Inv size log (record q { reader = rb }) p' × Took n r p p'
  unfolding step Effect
  get_next-Effect u n touser =
      let (p', st, v') = step_refines c (get_next u n touser) v in (p', v', Step-Effect st)

  pub give_back-Effect :
      (p' : Pipe) × Inv size log
        (record q { shared = micscif_rb_update_read_ptr q.reader q.shared })
        p'
      × (stored p' ≡ stored p)
  unfolding step Effect
  give_back-Effect = let (p', st, v') = step_refines c update_read_ptr v in (p', v', Step-Effect st)
