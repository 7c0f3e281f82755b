-- ===== src/Endpoint/Close.antt =====
-- micscif/micscif_api.c: `scif_close`, that is `__scif_flush` and then `__scif_close`, as a thread.
-- Each of its steps lies inside one section under the locks; other threads and messages come in
-- between. Where the code keeps a lock from one step to the next (mi_eplock from the listening list
-- to the first accept, and from one accept to the next) the model lets others in there too, which
-- only adds runs.
pub mod View
pub mod Safe
pub mod Thread
pub mod Accepts
pub mod Falls
pub mod Ends
pub mod Answers
use intel_xeon_phi_kernel_dr.Common.{
  ℕ, zero, suc, ◌+◌, ◌-◌, Bool, true, false, not, ◌&&◌, Option, none, some, List, [], ◌∷◌, ◌++◌,
  ◌==◌, if◌then◌else◌,
}
use intel_xeon_phi_kernel_dr.Ports.{Ports, put_scif_port}
use intel_xeon_phi_kernel_dr.Endpoint.{
  EpState, closed, unbound, bound, listening, connected, connecting, mapping, closing, cllisten,
  disconnected, zombie, Uop, cnct_rej, discnct, NodeMsg, PortId, Endpt, Node, set_ep, set_state,
  post, put_conn_count, mem, delete,
}

-- Where the thread is. `wait_flush` and `wait_close` wait for the answer of the remote node or for
-- a timeout. A round of the loop over the accepts is `drop_accepts` (under mi_eplock),
-- `drop_unlink` (under mi_connlock) and `drop_zombie` (under mi_eplock again). `close_bug` stands for
-- the BUG_ON of an endpoint that is closed twice and for a round that finds no entry on the list:
-- list_first_entry then makes an endpoint of the head of the list.
pub data Pc : Type 0 where
  flush : Pc
  flush_unlink : Pc
  wait_flush : Pc
  close : Pc
  close_disconnected : Pc
  close_unlink : Pc
  wait_close : Pc
  close_listen : Pc
  drop_accepts : Pc
  drop_unlink : ℕ → Pc
  drop_zombie : ℕ → Pc
  reject_requests : Pc
  finish : Pc
  over : Pc
  close_bug : Pc

pub disconnect_msg : ℕ → Node → NodeMsg
disconnect_msg e s = record {
  src = (s.ep e).port;
  dst = (s.ep e).peer;
  uop = discnct;
  payload0 = e;
  payload1 = (s.ep e).remote_ep;
}

-- `__scif_flush` under the lock of the endpoint.
unfoldable pub flush_step : ℕ → EpState → Node → Pc × Node
flush_step e connected s = (flush_unlink, s)
flush_step e listening s = (close, set_state e cllisten s)
flush_step e _ s = (close, s)

-- The endpoint is taken off the connected list and the remote node is told, or it was disconnected
-- before and is taken off that list. `wait` is where the thread then waits, `next` where it goes on.
unfoldable pub unlink : Pc → Pc → ℕ → Node → Pc × Node
unlink wait next e s =
    if mem e s.mi_connected
    then (
      wait,
      post (s.ep e).remote_dev (disconnect_msg e s) (record (put_conn_count (s.ep e).remote_dev s) {
        mi_connected = delete e s.mi_connected;
      }),
    )
    else (next, record s { mi_disconnected = delete e s.mi_disconnected })

-- `__scif_close` under the lock of the endpoint: the state becomes CLOSING.
unfoldable pub close_case : EpState → Pc
close_case zombie = close_bug
close_case closed = close_disconnected
close_case disconnected = close_disconnected
close_case unbound = finish
close_case bound = finish
close_case connecting = finish
close_case mapping = close_unlink
close_case connected = close_unlink
close_case closing = close_unlink
close_case listening = close_listen
close_case cllisten = close_listen

-- Every entry of `e`: the loop over the listening endpoints does not stop at the first.
pub delete_all : ℕ → List ℕ → List ℕ
delete_all e [] = []
delete_all e (x ∷ xs) = let rest = delete_all e xs in if x == e then rest else x ∷ rest

unfoldable pub release_port : ℕ → Node → Node
release_port e s =
    if not ((s.ep e).port.port == 0) && not (s.ep e).accepted_ep
    then record s { ports = put_scif_port (s.ep e).port.port s.ports }
    else s

-- micscif_add_epd_to_zombie_list.
unfoldable pub micscif_add_epd_to_zombie_list : ℕ → Node → Node
micscif_add_epd_to_zombie_list e s =
    let t = set_state e zombie s in record t { mi_zombie = t.mi_zombie ++ e ∷ [] }

-- The first of the accepts that hang on `e`, not yet handed to a user, is taken off the lists that
-- mi_eplock guards.
unfoldable pub drop_first : ℕ → List ℕ → Node → Pc × Node
drop_first e [] s = (close_bug, s)
drop_first e (a ∷ as') s =
    let t = release_port a (set_ep e (record (s.ep e) { li_accept = as' }) s) in
    (drop_unlink a, record t { mi_uaccept = delete a t.mi_uaccept })

-- It is taken off the lists that mi_connlock guards.
unfoldable pub unlink_accept : ℕ → Node → Node
unlink_accept a s =
    let t = record s {
      mi_connected = delete a s.mi_connected;
      mi_disconnected = delete a s.mi_disconnected;
    } in
    if mem a s.mi_connected then put_conn_count (s.ep a).remote_dev t else t

-- It becomes a zombie, and the round is counted off.
unfoldable pub bury_accept : ℕ → ℕ → Node → Node
bury_accept e a s =
    let t = micscif_add_epd_to_zombie_list a s in
    set_ep e (record (t.ep e) { acceptcnt = (t.ep e).acceptcnt - 1 }) t

pub rejection : NodeMsg → NodeMsg
rejection m = record m { dst = m.src; uop = cnct_rej }

-- The requests that wait are rejected, the first one first.
pub reject_all : List NodeMsg → Node → Node
reject_all [] s = s
reject_all (m ∷ ms) s = reject_all ms (post m.src.node (rejection m) s)

unfoldable pub close_step : ℕ → Pc → Node → Pc × Node
close_step e flush s = flush_step e (s.ep e).state s
close_step e flush_unlink s = unlink wait_flush close e s
close_step e wait_flush s =
    (close, record (set_state e disconnected s) { mi_disconnected = s.mi_disconnected ++ e ∷ [] })
close_step e close s = (close_case (s.ep e).state, set_state e closing s)
close_step e close_disconnected s =
    (finish, record s { mi_disconnected = delete e s.mi_disconnected })
close_step e close_unlink s = unlink wait_close finish e s
close_step e wait_close s = (finish, s)
close_step e close_listen s = (drop_accepts, record s { mi_listen = delete_all e s.mi_listen })
close_step e drop_accepts s =
    if (s.ep e).acceptcnt == 0 then (reject_requests, s) else drop_first e (s.ep e).li_accept s
close_step e (drop_unlink a) s = (drop_zombie a, unlink_accept a s)
close_step e (drop_zombie a) s = (drop_accepts, bury_accept e a s)
close_step e reject_requests s =
    let t = reject_all (s.ep e).conlist s in
    (finish, set_ep e (record (t.ep e) { conlist = []; conreqcnt = 0 }) t)
close_step e finish s = (over, micscif_add_epd_to_zombie_list e (release_port e s))
close_step e over s = (over, s)
close_step e close_bug s = (close_bug, s)
