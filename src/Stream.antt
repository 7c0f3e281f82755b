-- ===== src/Stream.antt =====
-- micscif/micscif_api.c: `_scif_send` and `_scif_recv` on a connection, in the variant without
-- SCIF_BLAST. Each is a thread that makes one step between two accesses of the shared ring; the
-- other end makes its own in between. `Situation` is what a step meets: the state of the endpoint,
-- whether the remote node lives, the copy of user memory, the answer of micscif_nodeqp_send to a
-- notification, and the answer of a wait; these answers are 0 or a negative error, whose number is
-- kept. One call at a time runs on each end: callers that block hold `sendlock` or `recvlock`, and
-- one that does not block keeps the lock of the endpoint. The number of bytes asked for is not
-- negative, as `scif_msg_param_check` sees to.
pub mod Invariant
pub mod Sends
pub mod Receives
pub mod InOrder
pub mod Ends
mod Examples
use intel_xeon_phi_kernel_dr.Common.{
  ℕ, zero, suc, ◌+◌, ◌-◌, Bool, true, false, not, none, some, List, [], ◌∷◌, ◌++◌, length, take,
  drop, ltb, ◌==◌, ◌&&◌, if◌then◌else◌,
}
use intel_xeon_phi_kernel_dr.Common.Int.{ℤ, pos, negsuc}
use intel_xeon_phi_kernel_dr.Kernel.{CircBuf, UserCopy}
use intel_xeon_phi_kernel_dr.ScifRb.{
  Queue, micscif_rb_space, micscif_rb_write, micscif_rb_commit, micscif_rb_count,
  micscif_rb_get_next, micscif_rb_update_read_ptr,
}
use intel_xeon_phi_kernel_dr.ScifRb.Pipe.{Status, done, enomem, efault, Read, nothing, got, fault}
use intel_xeon_phi_kernel_dr.Endpoint.{EpState, connected, disconnected}
use intel_xeon_phi_kernel_dr.Endpoint.Setup.{enodev}

abbrev pub bad_address : ℤ
bad_address = negsuc 13

abbrev pub econnreset : ℤ
econnreset = negsuc 103

abbrev pub enotconn : ℤ
enotconn = negsuc 106

pub record Situation : Type 0 where
  pub state : EpState
  pub alive : Bool
  pub copy : UserCopy
  pub notify_errno : ℕ
  pub wait_errno : ℕ

abbrev pub is_connected : EpState → Bool
is_connected connected = true
is_connected _ = false

abbrev pub is_disconnected : EpState → Bool
is_disconnected disconnected = true
is_disconnected _ = false

abbrev pub min : ℕ → ℕ → ℕ
min a b = if ltb a b then a else b

-- The answer that has that error number.
unfoldable pub minus : ℕ → ℤ
minus zero = pos 0
minus (suc n) = negsuc n

-- `count ? count : err`.
unfoldable pub count_or : ℕ → ℤ → ℤ
count_or count err = if count == 0 then err else pos count

-- Where `_scif_send` is. The number is `curr_xfer_len`.
pub data SendPc : Type 0 where
  send_test : SendPc
  send_write : ℕ → SendPc
  send_commit : ℕ → SendPc
  send_notify : ℕ → SendPc
  send_wait : SendPc
  send_returned : ℤ → SendPc

pub record Sender : Type 0 where
  pub pc : SendPc
  pub sent_len : ℕ

-- Where `_scif_recv` is. The number is `curr_recv_len`; `recv_bug` is its BUG_ON.
pub data RecvPc : Type 0 where
  recv_test : RecvPc
  recv_get : ℕ → RecvPc
  recv_give : ℕ → RecvPc
  recv_notify : ℕ → RecvPc
  recv_wait : RecvPc
  recv_returned : ℤ → RecvPc
  recv_bug : RecvPc

-- `buffer` is what stands at the start of the caller's memory.
pub record Receiver : Type 0 where
  pub pc : RecvPc
  pub buffer : List ℕ
  pub remaining_len : ℕ

-- One call of `_scif_send` and one of `_scif_recv`.
pub record Calls : Type 0 where
  pub msg : List ℕ
  pub send_block : Bool
  pub fromuser : Bool
  pub len : ℕ
  pub recv_block : Bool
  pub touser : Bool

-- Behind `micscif_rb_space`.
unfoldable pub send_room : Calls → ℕ → ℕ → SendPc
send_room k room sent =
    if room == 0
    then if k.send_block then send_wait else send_returned (pos sent)
    else send_write (min (length k.msg - sent) room)

-- Behind `micscif_rb_write`: every negative answer is -EFAULT.
unfoldable pub send_written : ℕ → Status → SendPc
send_written n done = send_commit n
send_written n enomem = send_returned bad_address
send_written n efault = send_returned bad_address

unfoldable pub send_tests : CircBuf → Calls → Situation → ℕ → Queue → SendPc × Queue
send_tests c k sit sent q =
    let (room, rb) = micscif_rb_space c q.writer q.shared in
    if sent == length k.msg
    then (send_returned (pos (length k.msg)), q)
    else if is_disconnected sit.state
    then (send_returned (count_or sent econnreset), q)
    else if not (is_connected sit.state)
    then (send_returned (count_or sent enotconn), q)
    else if not sit.alive
    then (send_returned (count_or sent enodev), q)
    else (send_room k room sent, record q { writer = rb })

-- The condition of a wait looks at the ring, which fetches the offset of the other end.
unfoldable pub send_look : CircBuf → Situation → Queue → Queue
send_look c sit q =
    if is_connected sit.state
    then record q { writer = (micscif_rb_space c q.writer q.shared).1 }
    else q

unfoldable pub scif_send_step : CircBuf → Calls → Situation → SendPc → ℕ → Queue → Sender × Queue
scif_send_step c k sit send_test sent q =
    let (pc, q') = send_tests c k sit sent q in (record { pc = pc; sent_len = sent }, q')
scif_send_step c k sit (send_write n) sent q =
    let (status, rb, sh) =
      micscif_rb_write c sit.copy q.writer q.shared (take n (drop sent k.msg)) k.fromuser in
    (record { pc = send_written n status; sent_len = sent }, record q { writer = rb; shared = sh })
scif_send_step c k sit (send_commit n) sent q = (
  record { pc = send_notify n; sent_len = sent },
  record q { shared = micscif_rb_commit q.writer q.shared },
)
scif_send_step c k sit (send_notify n) sent q =
    if not (sit.notify_errno == 0)
    then (
      record { pc = send_returned (count_or sent (minus sit.notify_errno)); sent_len = sent },
      q,
    )
    else (record { pc = send_test; sent_len = sent + n }, q)
scif_send_step c k sit send_wait sent q =
    if not (sit.wait_errno == 0)
    then (
      record { pc = send_returned (count_or sent (minus sit.wait_errno)); sent_len = sent },
      send_look c sit q,
    )
    else (record { pc = send_test; sent_len = sent }, send_look c sit q)
scif_send_step c k sit (send_returned r) sent q =
    (record { pc = send_returned r; sent_len = sent }, q)

-- Behind `micscif_rb_count`.
unfoldable pub recv_count : Calls → Situation → ℕ → ℕ → RecvPc
recv_count k sit count remaining =
    if not (count == 0)
    then recv_get (min remaining count)
    else if is_disconnected sit.state
    then recv_returned (count_or (k.len - remaining) econnreset)
    else if not k.recv_block
    then recv_returned (pos (k.len - remaining))
    else recv_wait

unfoldable pub recv_tests : CircBuf → Calls → Situation → ℕ → Queue → RecvPc × Queue
recv_tests c k sit remaining q =
    let (count, rb) = micscif_rb_count c q.reader q.shared remaining in
    if remaining == 0
    then (recv_returned (pos k.len), q)
    else if not (is_connected sit.state) && not (is_disconnected sit.state)
    then (recv_returned (count_or (k.len - remaining) enotconn), q)
    else (recv_count k sit count remaining, record q { reader = rb })

-- Behind `micscif_rb_get_next`.
unfoldable pub recv_read : ℕ → Read → List ℕ → ℕ → Receiver
recv_read n nothing buffer remaining = record {
  pc = recv_bug;
  buffer = buffer;
  remaining_len = remaining;
}
recv_read n (got bytes) buffer remaining = record {
  pc = recv_give n;
  buffer = buffer ++ bytes;
  remaining_len = remaining;
}
recv_read n fault buffer remaining = record {
  pc = recv_returned bad_address;
  buffer = buffer;
  remaining_len = remaining;
}

abbrev pub endpt_qp_size : ℕ
endpt_qp_size = 4096

unfoldable pub recv_look : CircBuf → Situation → ℕ → Queue → Queue
recv_look c sit remaining q =
    let (_, rb) = micscif_rb_count c q.reader q.shared (min remaining (endpt_qp_size - 1)) in
    if is_connected sit.state then record q { reader = rb } else q

unfoldable pub scif_recv_step :
    CircBuf → Calls → Situation → RecvPc → List ℕ → ℕ → Queue → Receiver × Queue
scif_recv_step c k sit recv_test buffer remaining q =
    let (pc, q') = recv_tests c k sit remaining q in
    (record { pc = pc; buffer = buffer; remaining_len = remaining }, q')
scif_recv_step c k sit (recv_get n) buffer remaining q =
    let (r, rb) = micscif_rb_get_next c sit.copy q.reader q.shared n k.touser in
    (recv_read n r buffer remaining, record q { reader = rb })
scif_recv_step c k sit (recv_give n) buffer remaining q =
    if is_connected sit.state
    then (
      record { pc = recv_notify n; buffer = buffer; remaining_len = remaining },
      record q { shared = micscif_rb_update_read_ptr q.reader q.shared },
    )
    else (record { pc = recv_test; buffer = buffer; remaining_len = remaining - n }, q)
scif_recv_step c k sit (recv_notify n) buffer remaining q =
    if not (sit.notify_errno == 0)
    then (
      record {
        pc = recv_returned (count_or (k.len - remaining) (minus sit.notify_errno));
        buffer = buffer;
        remaining_len = remaining;
      },
      q,
    )
    else (record { pc = recv_test; buffer = buffer; remaining_len = remaining - n }, q)
scif_recv_step c k sit recv_wait buffer remaining q =
    if not (sit.wait_errno == 0)
    then (
      record {
        pc = recv_returned (count_or (k.len - remaining) (minus sit.wait_errno));
        buffer = buffer;
        remaining_len = remaining;
      },
      recv_look c sit remaining q,
    )
    else (
      record { pc = recv_test; buffer = buffer; remaining_len = remaining },
      recv_look c sit remaining q,
    )
scif_recv_step c k sit (recv_returned r) buffer remaining q =
    (record { pc = recv_returned r; buffer = buffer; remaining_len = remaining }, q)
scif_recv_step c k sit recv_bug buffer remaining q =
    (record { pc = recv_bug; buffer = buffer; remaining_len = remaining }, q)

-- Both threads and the ring between them.
pub record Stream : Type 0 where
  pub sender : Sender
  pub receiver : Receiver
  pub queue : Queue

pub data Turn : Type 0 where
  sends : Situation → Turn
  receives : Situation → Turn

unfoldable pub turn : CircBuf → Calls → Turn → Stream → Stream
turn c k (sends sit) s =
    let (sender, queue) = scif_send_step c k sit s.sender.pc s.sender.sent_len s.queue in
    record s { sender = sender; queue = queue }
turn c k (receives sit) s =
    let (receiver, queue) =
      scif_recv_step c k sit s.receiver.pc s.receiver.buffer s.receiver.remaining_len s.queue in
    record s { receiver = receiver; queue = queue }

unfoldable pub turns : CircBuf → Calls → List Turn → Stream → Stream
turns c k [] s = s
turns c k (t ∷ ts) s = turns c k ts (turn c k t s)

abbrev pub start : Calls → Queue → Stream
start k q = record {
  sender = record { pc = send_test; sent_len = 0 };
  receiver = record { pc = recv_test; buffer = []; remaining_len = k.len };
  queue = q;
}
