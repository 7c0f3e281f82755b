-- ===== src/Stream/Examples.antt =====
-- A message of two bytes through a ring of eight, and the theorems at it.
use intel_xeon_phi_kernel_dr.Common.{
  ℕ, zero, suc, ◌+◌, ◌-◌, ◌%◌, ◌≤◌, ◌≡◌, refl, sym, subst, true, false, List, [], ◌∷◌, ◌++◌, length,
  take, arith,
}
use intel_xeon_phi_kernel_dr.Common.Int.{ℤ, pos}
use intel_xeon_phi_kernel_dr.Kernel.{CircBuf, UserCopy}
use intel_xeon_phi_kernel_dr.ScifRb.{
  Rb, Queue, micscif_rb_space, micscif_rb_write, micscif_rb_commit, micscif_rb_count,
  micscif_rb_get, micscif_rb_get_next, micscif_rb_update_read_ptr, take_packet, read_reply,
  memcpy_torb, memcpy_fromrb, write_at, read_at,
}
use intel_xeon_phi_kernel_dr.ScifRb.Pipe.{Pipe}
use intel_xeon_phi_kernel_dr.ScifRb.Inv.{Inv}
use intel_xeon_phi_kernel_dr.ScifRb.Delivery.{stored, empty_pipe}
use intel_xeon_phi_kernel_dr.Endpoint.{connected}
use intel_xeon_phi_kernel_dr.Stream.{
  Situation, send_returned, recv_returned, Calls, count_or, send_room, send_written, send_tests,
  scif_send_step, recv_count, recv_tests, recv_read, scif_recv_step, Stream, Turn, sends, receives,
  turn, turns, start,
}
use intel_xeon_phi_kernel_dr.Stream.Invariant.{Intact}
use intel_xeon_phi_kernel_dr.Stream.InOrder.{SendAnswer, RecvAnswer, turns_in_order}
use intel_xeon_phi_kernel_dr.Stream.Ends.{calls_return}

abbrev circ : CircBuf
circ = record {
  circ_cnt = λ h t s. (h + s - t) % s;
  circ_space = λ h t s. (t + s - (h + 1)) % s;
  circ_cnt_lem = λ k h t p q. refl;
  circ_space_lem = λ k h t p q. refl;
}

abbrev copies : UserCopy
copies = record {
  copy_user = λ xs. (xs, true);
  length-copy_user = λ xs. refl;
  copy_user_ok = λ xs e. refl;
}

-- Both ends stand before the last byte of the ring.
abbrev seven : Rb
seven = record {
  size = 8;
  current_read_offset = 7;
  current_write_offset = 7;
  old_current_read_offset = 0;
  old_current_write_offset = 0;
}

abbrev ring : Queue
ring = record {
  writer = seven;
  reader = seven;
  shared = record { rb_base = 0 ∷ 0 ∷ 0 ∷ 0 ∷ 0 ∷ 0 ∷ 0 ∷ 0 ∷ []; read_ptr = 7; write_ptr = 7 };
}

ring-Inv : Inv 8 3 ring empty_pipe
ring-Inv = record {
  small = omega arith;
  power = refl;
  writer_size = refl;
  reader_size = refl;
  storage = refl;
  read_lt = omega arith;
  space_left = omega arith;
  reader_at = refl;
  committed_at = refl;
  writer_at = refl;
  seen = 0;
  seen_le = omega arith;
  seen_at = refl;
  bytes = refl;
}

abbrev calls : Calls
calls = record {
  msg = 11 ∷ 22 ∷ [];
  send_block = false;
  fromuser = true;
  len = 2;
  recv_block = false;
  touser = true;
}

abbrev fine : Situation
fine = record { state = connected; alive = true; copy = copies; notify_errno = 0; wait_errno = 0 }

-- The sender begins; then each makes as many turns as it needs.
abbrev alternate : ℕ → List Turn
alternate zero = []
alternate (suc n) =
    sends fine
    ∷ sends fine
    ∷ sends fine
    ∷ receives fine
    ∷ receives fine
    ∷ receives fine
    ∷ alternate n

abbrev history : List Turn
history = alternate 3

history_end : Stream
history_end = turns circ calls history (start calls ring)

history_receiver :
    history_end.receiver
    ≡ record { pc = recv_returned (pos 2); buffer = 11 ∷ 22 ∷ []; remaining_len = 0 }
unfolding history_end turns turn scif_send_step send_tests send_room send_written count_or
    scif_recv_step recv_tests recv_count recv_read micscif_rb_write micscif_rb_space
    micscif_rb_get_next micscif_rb_get micscif_rb_count take_packet read_reply
    micscif_rb_update_read_ptr micscif_rb_commit memcpy_torb memcpy_fromrb write_at read_at
history_receiver = refl

history-Intact : Intact (turns circ calls history (start calls ring)).receiver.pc
unfolding history_end
history-Intact = subst (λ r. Intact r.pc) (sym history_receiver) (λ e. cc)

turns_in_order_example :
    let s = turns circ calls history (start calls ring) in
    (p' : Pipe) × (taken : ℕ) × Inv 8 3 s.queue p'
    × (taken ≤ 2)
    × (s.receiver.buffer ++ stored p' ≡ [] ++ take taken calls.msg)
    × (SendAnswer s.sender.pc true taken × RecvAnswer s.receiver.pc true (length s.receiver.buffer))
turns_in_order_example = turns_in_order circ calls history ring-Inv history-Intact

calls_return_example :
    let s = turns circ calls history (start calls ring) in
    ((r : ℤ) × (s.sender.pc ≡ send_returned r)) × ((r : ℤ) × (s.receiver.pc ≡ recv_returned r))
calls_return_example =
    calls_return circ calls history ring-Inv refl refl (omega arith) (omega arith)
