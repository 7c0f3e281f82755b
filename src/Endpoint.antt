-- ===== src/Endpoint.antt =====
-- micscif/micscif_nodeqp.c and include/mic/micscif.h: the endpoints of one node, the messages that
-- open and close connections, and the loss of a remote node. `Node` holds the endpoints by their addresses and the lists of `ms_info`; a handler
-- is a function on it, the code between taking and releasing the locks. `posted` holds the calls
-- of micscif_nodeqp_send, with the device that each goes to.
--
-- A wake-up changes no state. The reference counts of nodes and endpoints and the memory of the
-- queue pairs are left out.

pub mod Tally
pub mod Answered
pub mod Setup
pub mod Accept
pub mod Close
pub mod Requests
mod Examples
use intel_xeon_phi_kernel_dr.Common.{
  ℕ, zero, suc, ◌+◌, ◌-◌, Bool, true, false, Option, none, some, List, [], ◌∷◌, ◌++◌, leb, ◌==◌,
  if◌then◌else◌,
}
use intel_xeon_phi_kernel_dr.Common.Int.{ℤ, pos, ◌+ℤ◌, ◌-ℤ◌}
use intel_xeon_phi_kernel_dr.Ports.{Ports}

-- enum endptstate.
pub data EpState : Type 0 where
  closed : EpState
  unbound : EpState
  bound : EpState
  listening : EpState
  connected : EpState
  connecting : EpState
  mapping : EpState
  closing : EpState
  cllisten : EpState
  disconnected : EpState
  zombie : EpState

pub data Uop : Type 0 where
  cnct_req : Uop
  cnct_gnt : Uop
  cnct_gntack : Uop
  cnct_gntnack : Uop
  cnct_rej : Uop
  cnct_term : Uop
  term_ack : Uop
  discnct : Uop
  discnt_ack : Uop

pub record PortId : Type 0 where
  pub node : ℕ
  pub port : ℕ

-- struct nodemsg, with the first two words of its payload.
pub record NodeMsg : Type 0 where
  pub src : PortId
  pub dst : PortId
  pub uop : Uop
  pub payload0 : ℕ
  pub payload1 : ℕ

pub record Endpt : Type 0 where
  pub state : EpState
  pub port : PortId
  pub peer : PortId
  pub backlog : ℕ
  pub qp_offset : ℕ
  pub cnct_gnt_payload : ℕ
  pub remote_dev : ℕ
  pub remote_ep : ℕ
  pub conreqcnt : ℕ
  pub conlist : List NodeMsg
  pub accepted_ep : Bool
  pub acceptcnt : ℕ
  pub li_accept : List ℕ

pub record Node : Type 0 where
  pub nodeid : ℕ
  pub ep : ℕ → Endpt
  pub mi_listen : List ℕ
  pub mi_connected : List ℕ
  pub mi_disconnected : List ℕ
  pub mi_zombie : List ℕ
  pub mi_uaccept : List ℕ
  pub num_active_conn : ℕ → ℤ
  pub ports : Ports
  pub posted : List (ℕ × NodeMsg)

abbrev pub update {ℓ} : {A : Type ℓ} → (ℕ → A) → ℕ → A → ℕ → A
update f i a j = if i == j then a else f j

abbrev pub set_ep : ℕ → Endpt → Node → Node
set_ep e x s = record s { ep = update s.ep e x }

abbrev pub set_state : ℕ → EpState → Node → Node
set_state e st s = set_ep e (record (s.ep e) { state = st }) s

abbrev pub post : ℕ → NodeMsg → Node → Node
post dev msg s = record s { posted = s.posted ++ (dev, msg) ∷ [] }

abbrev pub get_conn_count : ℕ → Node → Node
get_conn_count dev s = record s {
  num_active_conn = update s.num_active_conn dev (s.num_active_conn dev +ℤ pos 1);
}

abbrev pub put_conn_count : ℕ → Node → Node
put_conn_count dev s = record s {
  num_active_conn = update s.num_active_conn dev (s.num_active_conn dev -ℤ pos 1);
}

abbrev pub is_connecting : EpState → Bool
is_connecting connecting = true
is_connecting _ = false

abbrev pub is_bound : EpState → Bool
is_bound bound = true
is_bound _ = false

pub mem : ℕ → List ℕ → Bool
mem e [] = false
mem e (x ∷ xs) = if x == e then true else mem e xs

-- A loop that takes the first entry of `e` off a list.
pub delete : ℕ → List ℕ → List ℕ
delete e [] = []
delete e (x ∷ xs) = if x == e then xs else x ∷ delete e xs

-- `ep->port.port == port` at the first listening endpoint.
pub find_listen_ep : (ℕ → Endpt) → ℕ → List ℕ → Option ℕ
find_listen_ep ep port [] = none
find_listen_ep ep port (e ∷ es) =
    if (ep e).port.port == port then some e else find_listen_ep ep port es

pub keep_before : NodeMsg → Option (List NodeMsg) → Option (List NodeMsg)
keep_before m none = none
keep_before m (some ms) = some (m ∷ ms)

-- The requests without the first one that has that payload.
pub get_connection_request : ℕ → List NodeMsg → Option (List NodeMsg)
get_connection_request payload [] = none
get_connection_request payload (m ∷ ms) =
    if m.payload0 == payload then some ms else keep_before m (get_connection_request payload ms)

pub reject : NodeMsg → Node → Node
reject msg s = post msg.src.node (record msg { uop = cnct_rej }) s

-- The request is put at the end of the list of the endpoint found, if there is room.
pub queue_request : NodeMsg → Option ℕ → Node → Node
queue_request msg none s = reject msg s
queue_request msg (some e) s =
    let ep = s.ep e in
    if leb ep.backlog ep.conreqcnt
    then reject msg s
    else set_ep e (record ep { conlist = ep.conlist ++ msg ∷ []; conreqcnt = ep.conreqcnt + 1 }) s

-- `kmalloc` says whether the memory for the request is there.
pub scif_cnctreq_resp : Bool → NodeMsg → Node → Node
scif_cnctreq_resp kmalloc msg s =
    if kmalloc
    then queue_request msg (find_listen_ep s.ep msg.dst.port s.mi_listen) s
    else reject msg s

pub scif_cnctgnt_resp : NodeMsg → Node → Node
scif_cnctgnt_resp msg s =
    let e = msg.payload0 in
    if is_connecting (s.ep e).state
    then set_ep e
        (record (s.ep e) { peer = msg.src; cnct_gnt_payload = msg.payload1; state = mapping }) s
    else s

pub scif_cnctgntack_resp : ℕ → NodeMsg → Node → Node
scif_cnctgntack_resp scifdev msg s =
    let t = get_conn_count scifdev (set_state msg.payload0 connected s) in
    record t { mi_connected = t.mi_connected ++ msg.payload0 ∷ [] }

pub scif_cnctgntnack_resp : NodeMsg → Node → Node
scif_cnctgntnack_resp msg s = set_state msg.payload0 closing s

pub scif_cnctrej_resp : NodeMsg → Node → Node
scif_cnctrej_resp msg s =
    if is_connecting (s.ep msg.payload0).state then set_state msg.payload0 bound s else s

pub terminate_request : NodeMsg → ℕ → Option (List NodeMsg) → Node → Node
terminate_request msg e none s = s
terminate_request msg e (some rest) s =
    post msg.src.node (record msg { uop = term_ack })
      (set_ep e (record (s.ep e) { conlist = rest; conreqcnt = (s.ep e).conreqcnt - 1 }) s)

pub terminate_at : NodeMsg → Option ℕ → Node → Node
terminate_at msg none s = s
terminate_at msg (some e) s =
    terminate_request msg e (get_connection_request msg.payload0 (s.ep e).conlist) s

pub scif_cnctterm_resp : NodeMsg → Node → Node
scif_cnctterm_resp msg s = terminate_at msg (find_listen_ep s.ep msg.dst.port s.mi_listen) s

pub scif_termack_resp : NodeMsg → Node → Node
scif_termack_resp msg s =
    if is_bound (s.ep msg.payload0).state then s else set_state msg.payload0 bound s

-- The endpoint is moved to the disconnected list if it is still on the connected one.
pub disconnect_local : ℕ → ℕ → Node → Node
disconnect_local scifdev e s =
    if mem e s.mi_connected
    then record (put_conn_count scifdev (set_state e disconnected s)) {
      mi_connected = delete e s.mi_connected;
      mi_disconnected = s.mi_disconnected ++ e ∷ [];
    }
    else s

pub scif_discnct_resp : ℕ → NodeMsg → Node → Node
scif_discnct_resp scifdev msg s =
    post msg.src.node (record msg { uop = discnt_ack }) (disconnect_local scifdev msg.payload1 s)

-- A round of the loop over the connected endpoints when the remote node is gone. A device is named
-- by the number of its node.
pub invalidate_round : ℕ → ℕ → Node → Node
invalidate_round node e s = if (s.ep e).remote_dev == node then disconnect_local node e s else s

pub invalidate_rounds : ℕ → List ℕ → Node → Node
invalidate_rounds node [] s = s
invalidate_rounds node (e ∷ es) s = invalidate_rounds node es (invalidate_round node e s)

pub scif_invalidate_connected_ep : ℕ → Node → Node
scif_invalidate_connected_ep node s = invalidate_rounds node s.mi_connected s

pub scif_discntack_resp : NodeMsg → Node → Node
scif_discntack_resp msg s = set_state msg.payload0 disconnected s
