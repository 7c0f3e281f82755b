-- ===== src/Endpoint/Requests.antt =====
-- The requests for connections and their answers, through all calls and messages of a node.
use intel_xeon_phi_kernel_dr.Common.{ℕ, ◌+◌, ◌≡◌, ◌≢◌, Bool, List, ◌++◌, ◌∷◌}
use intel_xeon_phi_kernel_dr.Endpoint.{
  scif_invalidate_connected_ep, NodeMsg, Node, scif_cnctreq_resp, scif_cnctgnt_resp,
  scif_cnctgntack_resp, scif_cnctgntnack_resp, scif_cnctrej_resp, scif_cnctterm_resp,
  scif_termack_resp, scif_discnct_resp, scif_discntack_resp,
}
use intel_xeon_phi_kernel_dr.Endpoint.Accept.{Resources, accept_take, accept_make, accept_finish}
use intel_xeon_phi_kernel_dr.Endpoint.Close.{Pc, close_step}
use intel_xeon_phi_kernel_dr.Endpoint.Tally.{waiting, tally}
use intel_xeon_phi_kernel_dr.Endpoint.Answered.{OneSource}
use intel_xeon_phi_kernel_dr.Endpoint.Accept.Answers.{taken_by}

-- The steps that a node makes while the endpoint `l` is there, with the requests that threads of
-- `scif_accept` have taken and not yet answered: every message, whose handler runs to its end, every
-- step of `scif_accept` and `scif_close` on any endpoint, and others that leave the list of `l`
-- alone and only add messages. A new endpoint has an address of its own, and a request that is taken
-- back is named by a payload that no other node uses.
pub data Serve (l : ℕ) (s : Node) (held : List NodeMsg) : Node → List NodeMsg → Type 0 where
  cnctreq : (kmalloc : Bool) (msg : NodeMsg) → Serve l s held (scif_cnctreq_resp kmalloc msg s) held
  cnctgnt : (msg : NodeMsg) → Serve l s held (scif_cnctgnt_resp msg s) held
  cnctgntack :
      (scifdev : ℕ) (msg : NodeMsg) → Serve l s held (scif_cnctgntack_resp scifdev msg s) held
  cnctgntnack : (msg : NodeMsg) → Serve l s held (scif_cnctgntnack_resp msg s) held
  cnctrej : (msg : NodeMsg) → Serve l s held (scif_cnctrej_resp msg s) held
  cnctterm :
      (msg : NodeMsg)
      → ((x : ℕ) → OneSource msg (s.ep x).conlist)
      → Serve l s held (scif_cnctterm_resp msg s) held
  termack : (msg : NodeMsg) → Serve l s held (scif_termack_resp msg s) held
  discnct : (scifdev : ℕ) (msg : NodeMsg) → Serve l s held (scif_discnct_resp scifdev msg s) held
  discntack : (msg : NodeMsg) → Serve l s held (scif_discntack_resp msg s) held
  invalidated : (node : ℕ) → Serve l s held (scif_invalidate_connected_ep node s) held
  take : (lep : ℕ) → Serve l s held (accept_take lep s).1 (taken_by (accept_take lep s).0 ++ held)
  make :
      (r : Resources) (cep lep : ℕ) (before : List NodeMsg) (m : NodeMsg) (after : List NodeMsg)
      → cep ≢ l
      → held ≡ before ++ m ∷ after
      → Serve l s held (accept_make r cep lep m s).1 (before ++ after)
  accepted :
      (lost sync : Bool) (cep : ℕ) (m : NodeMsg)
      → Serve l s held (accept_finish lost sync cep m s).1 held
  closing : (e : ℕ) (pc : Pc) → Serve l s held (close_step e pc s).1 held
  others :
      (t : Node) (more : List (ℕ × NodeMsg))
      → (t.ep l).conlist ≡ (s.ep l).conlist
      → t.posted ≡ s.posted ++ more
      → Serve l s held t held

pub data Serves (l : ℕ) (s : Node) (held : List NodeMsg) : Node → List NodeMsg → Type 0 where
  here : Serves l s held s held
  next :
      {t u : Node} {held' held'' : List NodeMsg}
      → Serves l s held t held'
      → Serve l t held' u held''
      → Serves l s held u held''

-- The requests that wait or are held, and the answers.
open_tally : ℕ → ℕ → ℕ → Node → List NodeMsg → ℕ
open_tally l dev payload s held = tally l dev payload s + waiting dev payload held
