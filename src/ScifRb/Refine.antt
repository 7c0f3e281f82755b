-- ===== src/ScifRb/Refine.antt =====
-- Each call of the C code is a step of the pipe that the queue stands for.
use mathlib.Core.List.{append-nil}
use native.Mathlib.Nat.{mod-eq_of_lt, add-zero}
use intel_xeon_phi_kernel_dr.Common.{
  ℕ, ◌+◌, ◌%◌, ◌≡◌, sym, ap, ◌∙◌, [], ◌++◌, length, length-append, arith,
}
use intel_xeon_phi_kernel_dr.Kernel.{CircBuf}
use intel_xeon_phi_kernel_dr.ScifRb.{Queue, micscif_rb_commit, micscif_rb_update_read_ptr, step}
use intel_xeon_phi_kernel_dr.ScifRb.Pipe.{
  Pipe, Op, write, commit, space, get_next, update_read_ptr, publish, ask, give_back,
}
use intel_xeon_phi_kernel_dr.ScifRb.Span.{span}
use intel_xeon_phi_kernel_dr.ScifRb.Inv.{Inv}
use intel_xeon_phi_kernel_dr.ScifRb.Offsets.{writer_lt, reader_lt, bytes_end, space_exact}
use intel_xeon_phi_kernel_dr.ScifRb.WriteStep.{Refines, space_Inv, write_refines}
use intel_xeon_phi_kernel_dr.ScifRb.ReadStep.{get_next_refines}

module _ (c : CircBuf) {size log : ℕ} {q : Queue} {p : Pipe} (v : Inv size log q p) where
  commit_refines : Refines size log p commit (step c q commit)
  unfolding step micscif_rb_commit
  commit_refines = (
    record p { unread = p.unread ++ p.pending; pending = [] },
    publish,
    record {
      small = v.small;
      power = v.power;
      writer_size = v.writer_size;
      reader_size = v.reader_size;
      storage = v.storage;
      read_lt = v.read_lt;
      space_left = omega (arith, length-append p.unread p.pending, v.space_left);
      reader_at = v.reader_at;
      committed_at = (bytes_end v) ∙ ap (ahead q.reader.current_read_offset) (sym joined);
      writer_at = sym (mod-eq_of_lt (writer_lt v)) ∙ ap (λ t. t % size) (sym (add-zero _));
      seen = v.seen;
      seen_le = omega (arith, v.seen_le, joined);
      seen_at = v.seen_at;
      bytes =
          ap (span size q.shared.rb_base q.reader.current_read_offset) (add-zero _ ∙ joined)
          ∙ v.bytes
          ∙ sym (append-nil (p.unread ++ p.pending));
    },
  )
    where
      joined : length (p.unread ++ p.pending) ≡ length p.unread + length p.pending
      joined = length-append p.unread p.pending

      ahead : ℕ → ℕ → ℕ
      ahead h n = (h + n) % size

  space_refines : Refines size log p space (step c q space)
  unfolding step
  space_refines = (p, ask _ (space_exact c v), space_Inv c v)

  give_back_refines : Refines size log p update_read_ptr (step c q update_read_ptr)
  unfolding step micscif_rb_update_read_ptr
  give_back_refines = (
    record p { held = 0 },
    give_back,
    record {
      small = v.small;
      power = v.power;
      writer_size = v.writer_size;
      reader_size = v.reader_size;
      storage = v.storage;
      read_lt = (reader_lt v);
      space_left = omega (arith, v.space_left);
      reader_at = sym (mod-eq_of_lt (reader_lt v)) ∙ ap (λ t. t % size) (sym (add-zero _));
      committed_at = v.committed_at;
      writer_at = v.writer_at;
      seen = v.seen;
      seen_le = v.seen_le;
      seen_at = v.seen_at;
      bytes = v.bytes;
    },
  )

-- Every call of either end, on every branch, is a step of the pipe that the queue stands for, and
-- leaves a queue that stands for the pipe after that step.
pub step_refines :
    (c : CircBuf) {size log : ℕ} {q : Queue} {p : Pipe} (op : Op)
    → Inv size log q p
    → Refines size log p op (step c q op)
step_refines c (write u msg fromuser) v = write_refines c v u msg fromuser
step_refines c commit v = commit_refines c v
step_refines c space v = space_refines c v
step_refines c (get_next u n touser) v = get_next_refines c v u n touser
step_refines c update_read_ptr v = give_back_refines c v
