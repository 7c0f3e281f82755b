-- ===== src/Endpoint/Setup.antt =====
-- micscif/micscif_api.c: `scif_bind`, `scif_listen` and `scif_connect`. What the code asks of the
-- rest of the driver is an argument: whether the caller may use a reserved port, whether the device
-- of the node runs, the errors of reserving a DMA channel, of setting up the queue pair and of
-- sending. The code of the boards that first asks the host for a connection is left out.

pub mod Bind
use intel_xeon_phi_kernel_dr.Common.{
  ℕ, ◌+◌, ◌%◌, ◌^◌, Bool, true, false, not, ◌&&◌, Option, none, some, List, [], ◌∷◌, ◌++◌, ltb,
  ◌==◌, if◌then◌else◌,
}
use intel_xeon_phi_kernel_dr.Common.Int.{ℤ, pos, negsuc}
use intel_xeon_phi_kernel_dr.Ports.{Ports, rsrv_scif_port, get_scif_port}
use intel_xeon_phi_kernel_dr.Endpoint.{
  EpState, closed, unbound, bound, listening, connected, connecting, mapping, closing, cllisten,
  disconnected, zombie, Uop, cnct_req, cnct_gntack, cnct_gntnack, cnct_term, NodeMsg, PortId, Endpt,
  Node, set_ep, set_state, post, get_conn_count, is_bound,
}

abbrev pub eacces : ℤ
eacces = negsuc 12

abbrev pub einval : ℤ
einval = negsuc 21

abbrev pub enospc : ℤ
enospc = negsuc 27

abbrev pub enodev : ℤ
enodev = negsuc 18

abbrev pub eintr : ℤ
eintr = negsuc 3

abbrev pub eisconn : ℤ
eisconn = negsuc 105

abbrev pub eopnotsupp : ℤ
eopnotsupp = negsuc 94

abbrev pub econnrefused : ℤ
econnrefused = negsuc 110

abbrev pub scif_admin_port_end : ℕ
scif_admin_port_end = 1024

abbrev pub max_board_supported : ℕ
max_board_supported = 256

-- What the state of an endpoint allows: to go on, an error, or a BUG_ON.
pub data Check : Type 0 where
  go : Check
  fail : ℤ → Check
  bug : Check

abbrev pub is_unbound : EpState → Bool
is_unbound unbound = true
is_unbound _ = false

abbrev pub is_nonzero : ℤ → Bool
is_nonzero (pos n) = not (n == 0)
is_nonzero (negsuc n) = true

pub bind_to : ℕ → ℕ → Ports → Node → ℤ × Node
bind_to e pn ports s =
    let port : PortId = record { node = s.nodeid; port = pn } in
    (pos pn, record (set_ep e (record (s.ep e) { state = bound; port = port }) s) { ports = ports })

pub scif_bind : Bool → ℕ → ℕ → Node → ℤ × Node
scif_bind admin e pn s =
    let (reserved, ports) = rsrv_scif_port pn s.ports in
    let (given, ports') = get_scif_port s.ports in
    if not (pn == 0) && ltb pn scif_admin_port_end && not admin
    then (eacces, s)
    else if is_bound (s.ep e).state
    then (einval, s)
    else if not (is_unbound (s.ep e).state)
    then (eisconn, s)
    else if not (pn == 0)
    then if reserved == pn then bind_to e pn ports s else (einval, record s { ports = ports })
    else if given == 0
    then (enospc, record s { ports = ports' })
    else bind_to e given ports' s

pub listen_check : EpState → Check
listen_check zombie = bug
listen_check closed = fail einval
listen_check closing = fail einval
listen_check cllisten = fail einval
listen_check unbound = fail einval
listen_check disconnected = fail einval
listen_check listening = fail eisconn
listen_check connected = fail eisconn
listen_check connecting = fail eisconn
listen_check mapping = fail eisconn
listen_check bound = go

-- `ep->backlog` is a `uint8_t`. `none` is the BUG_ON.
pub listen_go : ℕ → ℕ → Check → Node → Option (ℤ × Node)
listen_go e backlog bug s = none
listen_go e backlog (fail err) s = some (err, s)
listen_go e backlog go s =
    let ep = record (s.ep e) {
      state = listening;
      backlog = backlog % 2 ^ 8;
      conreqcnt = 0;
      acceptcnt = 0;
      conlist = [];
      li_accept = [];
    } in
    some (pos 0, record (set_ep e ep s) { mi_listen = s.mi_listen ++ e ∷ [] })

pub scif_listen : ℕ → ℕ → Node → Option (ℤ × Node)
scif_listen e backlog s = listen_go e backlog (listen_check (s.ep e).state) s

pub connect_check : EpState → Check
connect_check zombie = bug
connect_check closed = fail einval
connect_check closing = fail einval
connect_check disconnected = fail einval
connect_check listening = fail eopnotsupp
connect_check cllisten = fail eopnotsupp
connect_check connected = fail eisconn
connect_check connecting = fail eisconn
connect_check mapping = fail eisconn
connect_check unbound = go
connect_check bound = go

-- The errors of the steps before the wait, 0 for none, and the place of the queue pair.
pub record Steps : Type 0 where
  pub dma_err : ℤ
  pub setup_err : ℤ
  pub qp_offset : ℕ
  pub send_err : ℤ

-- What a part of `scif_connect` comes to: it returns, or waits, or sees the grant acknowledged.
pub data Progress : Type 0 where
  returns : ℤ → Progress
  waits : Progress
  acknowledged : Progress

pub connect_msg : Uop → ℕ → PortId → ℕ → Node → NodeMsg
connect_msg uop e dst payload0 s = record {
  src = (s.ep e).port;
  dst = dst;
  uop = uop;
  payload0 = payload0;
  payload1 = (s.ep e).qp_offset;
}

-- The endpoint is connecting: the DMA channel, the queue pair, and the request.
pub connect_request : Steps → PortId → ℕ → Node → Progress × Node
connect_request steps dst e s =
    let t = set_ep e (record (s.ep e) { qp_offset = steps.qp_offset }) s in
    if is_nonzero steps.dma_err
    then (returns steps.dma_err, set_state e bound s)
    else if is_nonzero steps.setup_err
    then (returns steps.setup_err, set_state e bound t)
    else if is_nonzero steps.send_err
    then (returns steps.send_err, t)
    else (waits, post dst.node (connect_msg cnct_req e dst e t) t)

pub connect_start : Steps → PortId → ℕ → ℕ → Node → Progress × Node
connect_start steps dst e port s =
    let own : PortId = record { node = s.nodeid; port = port } in
    connect_request steps dst e
      (set_ep e (record (s.ep e) { state = connecting; port = own; remote_dev = dst.node }) s)

-- Under the lock: an endpoint that is not bound gets a port.
pub connect_go : Steps → PortId → ℕ → Check → Node → Option (Progress × Node)
connect_go steps dst e bug s = none
connect_go steps dst e (fail err) s = some (returns err, s)
connect_go steps dst e go s =
    let (given, ports) = get_scif_port s.ports in
    let t = record s { ports = ports } in
    if is_unbound (s.ep e).state
    then if given == 0
      then some (
        returns enospc,
        record (set_ep e (record (s.ep e) { port = record (s.ep e).port { port = 0 } }) s) {
          ports = ports;
        },
      )
      else some (connect_start steps dst e given t)
    else some (
        connect_request steps dst e
          (set_ep e (record (s.ep e) { state = connecting; remote_dev = dst.node }) s))

pub scif_connect_start : Bool → Steps → PortId → ℕ → Node → Option (Progress × Node)
scif_connect_start runs steps dst e s =
    if ltb max_board_supported dst.node
    then some (returns enodev, s)
    else if runs
    then connect_go steps dst e (connect_check (s.ep e).state) s
    else some (returns enodev, s)

-- The grant is refused: the other side ends its accept.
pub grant_nack : PortId → ℕ → Node → Node
grant_nack dst e s =
    set_state e bound
      (post (s.ep e).remote_dev (connect_msg cnct_gntnack e dst (s.ep e).remote_ep s) s)

-- Behind the wait: `remote_ep` is what the mapped queue pair names, `setup_err` the error of mapping
-- it, `send_err` that of sending GNTACK.
pub connect_finish : ℕ → ℤ → ℤ → PortId → ℕ → EpState → Node → Progress × Node
connect_finish remote_ep setup_err send_err dst e mapping s =
    let t = set_ep e (record (s.ep e) { remote_ep = remote_ep }) s in
    if is_nonzero setup_err
    then (returns setup_err, grant_nack dst e t)
    else if is_nonzero send_err
    then (returns send_err, set_state e bound t)
    else (
      acknowledged,
      post (t.ep e).remote_dev (connect_msg cnct_gntack e dst (t.ep e).remote_ep t) t,
    )
connect_finish remote_ep setup_err send_err dst e bound s = (returns econnrefused, s)
connect_finish remote_ep setup_err send_err dst e _ s = (returns eintr, s)

-- The last section, behind the sending of GNTACK.
pub connect_established : ℕ → Node → ℤ × Node
connect_established e s =
    let t = get_conn_count (s.ep e).remote_dev (set_state e connected s) in
    (pos 0, record t { mi_connected = t.mi_connected ++ e ∷ [] })

-- A wait that is interrupted: TERM is sent, if that can be done, and the thread waits again.
pub connect_term : ℤ → PortId → ℕ → Node → Node
connect_term send_err dst e s =
    if is_nonzero send_err then s else post (s.ep e).remote_dev (connect_msg cnct_term e dst e s) s

pub connect_give_up : ℕ → ℤ → PortId → ℕ → EpState → Node → ℤ × Node
connect_give_up remote_ep err dst e mapping s =
    (err, grant_nack dst e (set_ep e (record (s.ep e) { remote_ep = remote_ep }) s))
connect_give_up remote_ep err dst e _ s = (err, set_state e bound s)
