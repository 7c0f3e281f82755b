-- ===== src/Endpoint/Accept.antt =====
-- micscif/micscif_api.c: `scif_accept`, in the parts between its waits and its locks: a request is
-- taken off the list under the lock, and answered later without it.
pub mod Answers
use intel_xeon_phi_kernel_dr.Common.{
  ℕ, ◌+◌, ◌-◌, Bool, true, false, not, ◌&&◌, Option, none, some, List, [], ◌∷◌, ◌++◌, ◌==◌,
  if◌then◌else◌,
}
use intel_xeon_phi_kernel_dr.Common.Int.{ℤ, pos, negsuc}
use intel_xeon_phi_kernel_dr.Endpoint.{
  EpState, listening, connected, connecting, closing, Uop, cnct_gnt, cnct_rej, NodeMsg, PortId,
  Endpt, Node, set_ep, post,
}
use intel_xeon_phi_kernel_dr.Endpoint.Setup.{einval, enodev, eintr, is_nonzero}

abbrev pub eagain : ℤ
eagain = negsuc 10

abbrev pub enomem : ℤ
enomem = negsuc 11

abbrev pub is_listening : EpState → Bool
is_listening listening = true
is_listening _ = false

-- The checks before the first wait, 0 to go on. `flags_known` and `pointers` are the tests of the
-- arguments, `sync` is SCIF_ACCEPT_SYNC.
pub accept_check : Bool → Bool → Bool → ℕ → Node → ℤ
accept_check flags_known pointers sync lep s =
    if not flags_known
    then einval
    else if not pointers
    then einval
    else if not (is_listening (s.ep lep).state)
    then einval
    else if (s.ep lep).conreqcnt == 0 && not sync
    then eagain
    else pos 0

-- What the steps that make the new endpoint come to, in the order of the code; an error is
-- negative, 0 is none.
pub record Resources : Type 0 where
  pub ep_alloc : Bool
  pub alive : Bool
  pub rma_init : Bool
  pub dma_err : ℤ
  pub qp_alloc : Bool
  pub setup_err : ℤ
  pub qp_offset : ℕ
  pub send_err : ℤ

unfoldable pub accept_error : Resources → ℤ
accept_error r =
    if not r.ep_alloc
    then enomem
    else if not r.alive
    then enodev
    else if not r.rma_init
    then enomem
    else if is_nonzero r.dma_err
    then r.dma_err
    else if not r.qp_alloc
    then enomem
    else if is_nonzero r.setup_err
    then r.setup_err
    else r.send_err

-- What the caller comes to behind its wait: an error, the wait again, or a request that it took.
pub data Accept : Type 0 where
  gives_up : ℤ → Accept
  retries : Accept
  took : NodeMsg → Accept

-- What becomes of the request that was taken: an error, or the wait for the answer to the grant.
pub data Made : Type 0 where
  gave_up : ℤ → Made
  granted : Made

-- A new endpoint on the port of the listening one.
pub accepted : Resources → Endpt → NodeMsg → Endpt
accepted r lep conreq = record {
  state = connecting;
  port = lep.port;
  peer = conreq.src;
  backlog = 0;
  qp_offset = r.qp_offset;
  cnct_gnt_payload = 0;
  remote_dev = conreq.src.node;
  remote_ep = conreq.payload0;
  conreqcnt = 0;
  conlist = [];
  accepted_ep = true;
  acceptcnt = 0;
  li_accept = [];
}

pub grant : Resources → Endpt → NodeMsg → NodeMsg
grant r lep conreq = record {
  src = lep.port;
  dst = conreq.src;
  uop = cnct_gnt;
  payload0 = conreq.payload0;
  payload1 = r.qp_offset;
}

pub refuse : NodeMsg → Node → Node
refuse conreq s = post conreq.src.node (record conreq { dst = conreq.src; uop = cnct_rej }) s

-- The first request is taken off the list.
unfoldable pub accept_first : ℕ → List NodeMsg → Node → Accept × Node
accept_first lep [] s = (retries, s)
accept_first lep (conreq ∷ rest) s =
    let l = s.ep lep in
    (took conreq, set_ep lep (record l { conlist = rest; conreqcnt = l.conreqcnt - 1 }) s)

-- Behind the wait for a request, under the lock of the listening endpoint.
unfoldable pub accept_take : ℕ → Node → Accept × Node
accept_take lep s =
    if not (is_listening (s.ep lep).state)
    then (gives_up eintr, s)
    else if (s.ep lep).conreqcnt == 0
    then (retries, s)
    else accept_first lep (s.ep lep).conlist s

-- Without that lock: the new endpoint `cep`, which no one else knows yet, and a grant, or a
-- rejection.
unfoldable pub accept_make : Resources → ℕ → ℕ → NodeMsg → Node → Made × Node
accept_make r cep lep conreq s =
    let l = s.ep lep in
    if is_nonzero (accept_error r)
    then (gave_up (accept_error r), refuse conreq s)
    else (granted, post conreq.src.node (grant r l conreq) (set_ep cep (accepted r l conreq) s))

-- What the caller gets: an error, another round, or the new endpoint.
pub data Accepted : Type 0 where
  error : ℤ → Accepted
  again : Accepted
  new_ep : ℕ → Accepted

pub accept_state : Bool → ℕ → EpState → Accepted
accept_state sync cep connected = new_ep cep
accept_state sync cep closing = if sync then again else error eagain
accept_state sync cep _ = new_ep cep

-- Behind the wait for the answer to the grant. `lost` says that it ran out while the remote node
-- was gone.
pub accept_finish : Bool → Bool → ℕ → NodeMsg → Node → Accepted × Node
accept_finish lost sync cep conreq s =
    if lost then (error enodev, refuse conreq s) else (accept_state sync cep (s.ep cep).state, s)
