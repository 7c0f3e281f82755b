-- ===== src/Endpoint/Close/Thread.antt =====
-- Runs of `scif_close` between messages and other threads.
use intel_xeon_phi_kernel_dr.Common.{ℕ, ◌≡◌}
use intel_xeon_phi_kernel_dr.Endpoint.{Node}
use intel_xeon_phi_kernel_dr.Endpoint.Close.{Pc, close_step}
use intel_xeon_phi_kernel_dr.Endpoint.Close.View.{Env}

-- The thread and what comes between its steps, as a sequence.
pub data Run (e : ℕ) (pc : Pc) (s : Node) : Pc → Node → Type 0 where
  begin : Run e pc s pc s
  step :
      {pc' pc'' : Pc} {t t' : Node}
      → Run e pc s pc' t
      → close_step e pc' t ≡ (pc'', t')
      → Run e pc s pc'' t'
  between : {pc' : Pc} {t t' : Node} → Run e pc s pc' t → Env e t t' → Run e pc s pc' t'
