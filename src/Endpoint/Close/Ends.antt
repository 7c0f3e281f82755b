-- ===== src/Endpoint/Close/Ends.antt =====
-- The steps that `scif_close` makes, and the rounds of its loop over the accepts.
use intel_xeon_phi_kernel_dr.Common.{ℕ, ◌+◌, ◌-◌, ◌*◌, ◌≤◌, ◌≡◌, ◌⊎◌}
use intel_xeon_phi_kernel_dr.Endpoint.{Node}
use intel_xeon_phi_kernel_dr.Endpoint.Close.{Pc, over}
use intel_xeon_phi_kernel_dr.Endpoint.Close.Thread.{Run, begin, step, between}
use intel_xeon_phi_kernel_dr.Endpoint.Close.Falls.{rank, Alive, Hung, Falls}

-- The steps of the thread itself.
pub own_steps : {e : ℕ} {pc : Pc} {s : Node} {pc' : Pc} {t : Node} → Run e pc s pc' t → ℕ
own_steps begin = 0
own_steps (step r q) = own_steps r + 1
own_steps (between r env) = own_steps r

-- The accepts that other threads hang on the endpoint meanwhile.
pub added : {e : ℕ} {pc : Pc} {s : Node} {pc' : Pc} {t : Node} → Run e pc s pc' t → ℕ
added begin = 0
added (step r q) = added r
added {e} (between {t = t} {t' = t'} r env) = added r + ((t'.ep e).acceptcnt - (t.ep e).acceptcnt)

-- What holds after a run: while it is not over, its steps and those left are within the bound.
record Bounded (e : ℕ) (s : Node) (pc : Pc) (t : Node) (steps more : ℕ) : Type 0 where
  lives : Alive pc (t.ep e).state
  hung : Hung pc (t.ep e)
  few :
      (pc ≡ over) ⊎ (steps + rank pc + 3 * (t.ep e).acceptcnt ≤ 8 + 3 * ((s.ep e).acceptcnt + more))
