-- ===== src/Endpoint/Examples.antt =====
-- Tests of the endpoint model, and the theorems about it at concrete runs.
use intel_xeon_phi_kernel_dr.Common.{
  ℕ, ◌≡◌, refl, ◌⊎◌, true, false, List, [], ◌∷◌, arith, ◌==◌, if◌then◌else◌,
}
use intel_xeon_phi_kernel_dr.Common.Int.{pos}
use intel_xeon_phi_kernel_dr.Ports.{Ports, init_scif_array}
use intel_xeon_phi_kernel_dr.Ports.Spec.{init-Inv}
use intel_xeon_phi_kernel_dr.Endpoint.{
  unbound, listening, connected, cnct_req, discnct, discnt_ack, NodeMsg, Endpt, Node, mem, delete,
  scif_cnctreq_resp, disconnect_local, scif_discnct_resp,
}
use intel_xeon_phi_kernel_dr.Endpoint.Setup.{scif_bind}
use intel_xeon_phi_kernel_dr.Endpoint.Setup.Bind.{Success, Failure, scif_bind_lem}
use intel_xeon_phi_kernel_dr.Endpoint.Accept.{Resources, accept_take, accept_make}
use intel_xeon_phi_kernel_dr.Endpoint.Close.{
  Pc, flush, flush_unlink, over, close_step, flush_step, unlink, close_case, release_port,
  micscif_add_epd_to_zombie_list,
}
use intel_xeon_phi_kernel_dr.Endpoint.Close.View.{Env}
use intel_xeon_phi_kernel_dr.Endpoint.Close.Thread.{Run, begin, step, between}

abbrev loaded : Ports
loaded = record {
  port_bits = [];
  first_free = 0;
  port_rsvd = 0;
  port_free = 0;
  port_err = 0;
  init_array = true;
}

abbrev fresh : Endpt
fresh = record {
  state = unbound;
  port = record { node = 0; port = 0 };
  peer = record { node = 0; port = 0 };
  backlog = 0;
  qp_offset = 0;
  cnct_gnt_payload = 0;
  remote_dev = 0;
  remote_ep = 0;
  conreqcnt = 0;
  conlist = [];
  accepted_ep = false;
  acceptcnt = 0;
  li_accept = [];
}

abbrev node : (ℕ → Endpt) → List ℕ → List ℕ → Node
node ep listens connects = record {
  nodeid = 1;
  ep = ep;
  mi_listen = listens;
  mi_connected = connects;
  mi_disconnected = [];
  mi_zombie = [];
  mi_uaccept = [];
  num_active_conn = λ d. pos 1;
  ports = init_scif_array loaded;
  posted = [];
}

scif_bind_lem_example :
    let s = node (λ x. fresh) [] [] in
    Success false 7 2000 s (scif_bind false 7 2000 s) ⊎ Failure s (scif_bind false 7 2000 s)
scif_bind_lem_example =
    scif_bind_lem false 7 (node (λ x. fresh) [] []) (init-Inv loaded refl) 2000 (omega arith)

-- Endpoint 7 is connected to an endpoint of node 2; it is closed while the other side disconnects.
abbrev joined : Node
joined = node (λ x. record fresh { state = connected; remote_dev = 2; remote_ep = 40 }) [] (7 ∷ [])

abbrev goodbye : NodeMsg
goodbye = record {
  src = record { node = 2; port = 9 };
  dst = record { node = 1; port = 0 };
  uop = discnct;
  payload0 = 40;
  payload1 = 7;
}

advance :
    {e : ℕ} {pc : Pc} {s : Node} {pc' : Pc} {t : Node}
    → Run e pc s pc' t
    → Run e pc s (close_step e pc' t).0 (close_step e pc' t).1
advance r = step r refl

-- The other side's message comes between the two first steps.
disturbed : (t : Node) × Run 7 flush joined flush_unlink t
unfolding close_step flush_step
disturbed = (_, between (advance begin) (Env.discnct 2 goodbye))

crossing : (t : Node) × Run 7 flush joined over t
unfolding disturbed close_step flush_step unlink close_case scif_discnct_resp disconnect_local mem
    delete
crossing = (_, advance (advance (advance (advance disturbed.1))))

-- It ends on no list, and told the other side nothing but that it has heard.
crossing_posted : crossing.0.posted ≡ (2, record goodbye { uop = discnt_ack }) ∷ []
unfolding crossing disturbed close_step flush_step unlink close_case scif_discnct_resp
    disconnect_local mem delete release_port micscif_add_epd_to_zombie_list
crossing_posted = refl

-- Endpoint 3 listens, and one accept hangs on it.
abbrev hanging : ℕ → Endpt
hanging x =
    if x == 3
    then record fresh { state = listening; acceptcnt = 1; li_accept = 9 ∷ [] }
    else record fresh { state = connected; remote_dev = 2; accepted_ep = true }

abbrev busy : Node
busy = node hanging (3 ∷ []) (9 ∷ [])

-- Endpoint 3 listens on port 500; a request comes and is accepted.
abbrev server : Node
server =
    node
      (λ x. record fresh { state = listening; port = record { node = 1; port = 500 }; backlog = 1 })
      (3 ∷ []) []

abbrev request : NodeMsg
request = record {
  src = record { node = 2; port = 9 };
  dst = record { node = 1; port = 500 };
  uop = cnct_req;
  payload0 = 40;
  payload1 = 0x4000;
}

abbrev plenty : Resources
plenty = record {
  ep_alloc = true;
  alive = true;
  rma_init = true;
  dma_err = pos 0;
  qp_alloc = true;
  setup_err = pos 0;
  qp_offset = 0x8000;
  send_err = pos 0;
}

abbrev queued : Node
queued = scif_cnctreq_resp true request server

-- A thread of scif_accept takes the request, and then grants it.
abbrev taken : Node
taken = (accept_take 3 queued).1

abbrev served : Node
served = (accept_make plenty 4 3 request taken).1
