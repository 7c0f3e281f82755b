-- ===== src/ScifRb/Examples.antt =====
-- A ring of eight bytes, and the theorems at it.
use intel_xeon_phi_kernel_dr.Common.{
  ℕ, ◌+◌, ◌-◌, ◌%◌, ◌≤◌, ◌≡◌, refl, sym, subst, ◌⊎◌, true, false, List, [], ◌∷◌, ◌++◌, some, arith,
}
use intel_xeon_phi_kernel_dr.Kernel.{CircBuf, UserCopy}
use intel_xeon_phi_kernel_dr.ScifRb.{
  Rb, Shared, Queue, micscif_rb_init, micscif_rb_reset, micscif_rb_count, micscif_rb_get,
  micscif_rb_space, micscif_rb_write, micscif_rb_get_next, take_packet, read_reply,
  micscif_rb_update_read_ptr, micscif_rb_commit, memcpy_torb, memcpy_fromrb, write_at, read_at,
  step, run,
}
use intel_xeon_phi_kernel_dr.ScifRb.Pipe.{
  Pipe, Op, write, commit, get_next, update_read_ptr, wrote, read, none_given, done, enomem, got,
  nothing,
}
use intel_xeon_phi_kernel_dr.ScifRb.Inv.{Inv}
use intel_xeon_phi_kernel_dr.ScifRb.WriteStep.{Refines}
use intel_xeon_phi_kernel_dr.ScifRb.ReadStep.{count_bounds}
use intel_xeon_phi_kernel_dr.ScifRb.Refine.{step_refines}
use intel_xeon_phi_kernel_dr.ScifRb.Delivery.{
  run_delivers, init-Inv, reset-Inv, handed_all, accepted_all, stored, NoLossAll, empty_pipe,
}

abbrev circ : CircBuf
circ = record {
  circ_cnt = λ h t s. (h + s - t) % s;
  circ_space = λ h t s. (t + s - (h + 1)) % s;
  circ_cnt_lem = λ k h t p q. refl;
  circ_space_lem = λ k h t p q. refl;
}

abbrev copies : UserCopy
copies = record {
  copy_user = λ xs. (xs, true);
  length-copy_user = λ xs. refl;
  copy_user_ok = λ xs e. refl;
}

abbrev blank : Rb
blank = record {
  size = 0;
  current_read_offset = 0;
  current_write_offset = 0;
  old_current_read_offset = 0;
  old_current_write_offset = 0;
}

abbrev eight : Rb
eight = record blank { size = 8 }

abbrev memory : Shared
memory = record { rb_base = 0 ∷ 0 ∷ 0 ∷ 0 ∷ 0 ∷ 0 ∷ 0 ∷ 0 ∷ []; read_ptr = 0; write_ptr = 0 }

abbrev fresh : Queue
fresh = record { writer = eight; reader = eight; shared = memory }

fresh-Inv : Inv 8 3 fresh empty_pipe
fresh-Inv = record {
  small = omega arith;
  power = refl;
  writer_size = refl;
  reader_size = refl;
  storage = refl;
  read_lt = omega arith;
  space_left = omega arith;
  reader_at = refl;
  committed_at = refl;
  writer_at = refl;
  seen = 0;
  seen_le = omega arith;
  seen_at = refl;
  bytes = refl;
}

abbrev five : List ℕ
five = 1 ∷ 2 ∷ 3 ∷ 4 ∷ 5 ∷ []

-- The second write goes round the end.
abbrev talk : List Op
talk =
    write copies five false
    ∷ commit
    ∷ get_next copies 4 true
    ∷ update_read_ptr
    ∷ write copies five false
    ∷ write copies five false
    ∷ commit
    ∷ get_next copies 6 false
    ∷ get_next copies 1 false
    ∷ []

talk_replies :
    (run circ fresh talk).0
    ≡ wrote done
      ∷ none_given
      ∷ read (got (1 ∷ 2 ∷ 3 ∷ 4 ∷ []))
      ∷ none_given
      ∷ wrote done
      ∷ wrote enomem
      ∷ none_given
      ∷ read (got (5 ∷ five))
      ∷ read nothing
      ∷ []
unfolding run step micscif_rb_write micscif_rb_space micscif_rb_get_next micscif_rb_get
    micscif_rb_count take_packet read_reply micscif_rb_update_read_ptr micscif_rb_commit memcpy_torb
    memcpy_fromrb write_at read_at
talk_replies = refl

talk_NoLoss : NoLossAll (run circ fresh talk).0
talk_NoLoss =
    subst NoLossAll (sym talk_replies) (tt, (tt, (tt, (tt, (tt, (tt, (tt, (tt, (tt, tt)))))))))

run_delivers_example :
    let (rs, q') = run circ fresh talk in
    (p' : Pipe) × (Inv 8 3 q' p' × (handed_all rs ++ stored p' ≡ [] ++ accepted_all talk rs))
run_delivers_example = run_delivers circ talk fresh-Inv talk_NoLoss

step_refines_example :
    Refines 8 3 empty_pipe (write copies five true) (step circ fresh (write copies five true))
step_refines_example = step_refines circ (write copies five true) fresh-Inv

count_bounds_example :
    ((micscif_rb_count circ eight memory 4).0 ≤ 0)
    × ((4 ≤ (micscif_rb_count circ eight memory 4).0)
        ⊎ ((micscif_rb_count circ eight memory 4).0 ≡ 0))
count_bounds_example = count_bounds circ fresh-Inv 4

init-Inv_example :
    (w' : Rb) × (r' : Rb) × (micscif_rb_init blank memory 8 ≡ some w')
    × (micscif_rb_init blank memory 8 ≡ some r')
    × Inv 8 3 (record { writer = w'; reader = r'; shared = memory }) empty_pipe
init-Inv_example = init-Inv 3 (omega arith) blank blank memory refl refl refl

abbrev used_queue : Queue
used_queue = record {
  writer = record eight { current_write_offset = 5 };
  reader = record eight { current_read_offset = 2 };
  shared = record memory { write_ptr = 5; read_ptr = 1 };
}

reset-Inv_example :
    let (w, sh) = micscif_rb_reset used_queue.writer used_queue.shared in
    let (r, sh') = micscif_rb_reset used_queue.reader sh in
    Inv 8 3 (record { writer = w; reader = r; shared = sh' }) empty_pipe
reset-Inv_example = reset-Inv 3 (omega arith) used_queue refl refl refl
