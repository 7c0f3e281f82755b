-- ===== src/ScifRb/WriteStep.antt =====
-- `micscif_rb_space` and `micscif_rb_write` are steps of the pipe.
use mathlib.Core.List.{append_assoc}
use native.Mathlib.Nat.{add-zero}
use intel_xeon_phi_kernel_dr.Common.{
  ℕ, bit_and, ◌+◌, ◌-◌, ◌%◌, ◌<◌, ◌≡◌, sym, ap, ◌∙◌, subst, inl, inr, Bool, true, false, List, ◌++◌,
  length, ltb, ltb→lt, ltb_false→le, Bool-cases, length-append, arith,
}
use intel_xeon_phi_kernel_dr.Kernel.{CircBuf, UserCopy}
use intel_xeon_phi_kernel_dr.ScifRb.{
  Rb, Queue, micscif_rb_space, micscif_rb_write, memcpy_torb, step, u32,
}
use intel_xeon_phi_kernel_dr.ScifRb.Pipe.{
  Pipe, Op, Reply, Step, used, write, wrote, efault, accept, refuse, write_fault,
}
use intel_xeon_phi_kernel_dr.ScifRb.Span.{
  span, put_bytes, length-put_bytes, span-put_bytes_before, span-put_bytes,
}
use intel_xeon_phi_kernel_dr.ScifRb.Round.{mod_shift}
use intel_xeon_phi_kernel_dr.ScifRb.Copies.{Copied, memcpy_torb-Copied}
use intel_xeon_phi_kernel_dr.ScifRb.Inv.{Inv, advance}
use intel_xeon_phi_kernel_dr.ScifRb.Offsets.{writer_lt, reader_lt, bytes_end, space_exact}

-- What the theorems say of a call: it is a step of the pipe, and the queue then stands for
-- the pipe that the step leads to.
abbrev pub Refines : ℕ → ℕ → Pipe → Op → Reply × Queue → Type 0
Refines size log p op out = (p' : Pipe) × Step size p op out.0 p' × Inv size log out.1 p'

module _ (c : CircBuf) {size log : ℕ} {q : Queue} {p : Pipe} (v : Inv size log q p) where
  -- Fetching the read pointer changes nothing else.
  pub space_Inv : Inv size log (record q { writer = (micscif_rb_space c q.writer q.shared).1 }) p
  unfolding micscif_rb_space
  space_Inv = record {
    small = v.small;
    power = v.power;
    writer_size = v.writer_size;
    reader_size = v.reader_size;
    storage = v.storage;
    read_lt = v.read_lt;
    space_left = v.space_left;
    reader_at = v.reader_at;
    committed_at = v.committed_at;
    writer_at = v.writer_at;
    seen = v.seen;
    seen_le = v.seen_le;
    seen_at = v.seen_at;
    bytes = v.bytes;
  }

  module _ (u : UserCopy) (msg : List ℕ) (fromuser : Bool) where
    abbrev cached : Rb
    cached = record (q.writer) {
      old_current_read_offset = q.writer.current_read_offset;
      current_read_offset = q.shared.read_ptr;
    }

    abbrev copied : Bool × List ℕ
    copied = memcpy_torb u cached q.shared.rb_base q.writer.current_write_offset msg fromuser

    copied-Copied :
        length msg < size
        → Copied size q.shared.rb_base q.writer.current_write_offset msg fromuser copied
    copied-Copied h =
        subst (λ s. Copied s q.shared.rb_base q.writer.current_write_offset msg fromuser copied)
          v.writer_size
          (memcpy_torb-Copied u cached q.shared.rb_base q.writer.current_write_offset
            (subst (λ s. q.writer.current_write_offset < s) (sym v.writer_size) (writer_lt v)) msg
            fromuser (subst (λ s. length msg < s) (sym v.writer_size) h))

    -- What the reader may have is not touched, whether the copy succeeds or not.
    bytes_kept :
        used p + length msg < size
        → span size copied.1 q.reader.current_read_offset (length p.unread + length p.pending)
          ≡ p.unread ++ p.pending
    bytes_kept h =
        ap (λ m. span size m q.reader.current_read_offset (length p.unread + length p.pending))
          o.memory
        ∙ span-put_bytes_before size q.shared.rb_base q.reader.current_read_offset
            (length p.unread + length p.pending) 0 q.writer.current_write_offset o.bytes
            (reader_lt v) (omega (arith, o.short))
            ((bytes_end v) ∙ ap (λ t. (q.reader.current_read_offset + t) % size) (sym (add-zero _)))
        ∙ v.bytes
      where
        o : Copied size q.shared.rb_base q.writer.current_write_offset msg fromuser copied
        o = copied-Copied (omega arith)

    -- A copy that succeeds puts the message behind the pending bytes.
    bytes_grown :
        used p + length msg < size
        → copied.0 ≡ true
        → span size copied.1 q.reader.current_read_offset
            (length p.unread + length p.pending + length msg)
          ≡ p.unread ++ (p.pending ++ msg)
    bytes_grown h e =
        ap (λ m. span size m q.reader.current_read_offset n)
          (o.memory ∙ ap (put_bytes size _ _) (o.whole e))
        ∙ span-put_bytes size q.shared.rb_base q.reader.current_read_offset
            (length p.unread + length p.pending) q.writer.current_write_offset msg (reader_lt v)
            (omega arith) (bytes_end v) (omega (arith, v.storage))
        ∙ ap (λ t. t ++ msg) v.bytes
        ∙ append_assoc p.unread p.pending msg
      where
        o : Copied size q.shared.rb_base q.writer.current_write_offset msg fromuser copied
        o = copied-Copied (omega arith)

        n : ℕ
        n = length p.unread + length p.pending + length msg

    storage_kept : length msg < size → length copied.1 ≡ size
    storage_kept h =
        ap length (copied-Copied h).memory
        ∙ length-put_bytes size _ _ (copied-Copied h).bytes
        ∙ v.storage

    -- The write that is made once the space suffices.
    stored_Inv :
        used p + length msg < size
        → copied.0 ≡ true
        → Inv size log
            (record q {
              writer = record cached {
                old_current_write_offset = q.writer.current_write_offset;
                current_write_offset =
                    bit_and (u32 (q.writer.current_write_offset + length msg)) (q.writer.size - 1);
              };
              shared = record (q.shared) { rb_base = copied.1 };
            })
            (record p { pending = p.pending ++ msg })
    stored_Inv h e = record {
      small = v.small;
      power = v.power;
      writer_size = v.writer_size;
      reader_size = v.reader_size;
      storage = storage_kept (omega arith);
      read_lt = v.read_lt;
      space_left = omega (arith, length-append p.pending msg);
      reader_at = v.reader_at;
      committed_at = v.committed_at;
      writer_at =
          ap (λ s. bit_and (u32 (q.writer.current_write_offset + length msg)) (s - 1)) v.writer_size
          ∙ advance size log q.writer.current_write_offset (length msg) v.small v.power
          ∙ ap (λ t. (t + length msg) % size) v.writer_at
          ∙ mod_shift size q.shared.write_ptr (length p.pending) (length msg)
          ∙ ap (λ t. (q.shared.write_ptr + t) % size) (sym (length-append p.pending msg));
      seen = v.seen;
      seen_le = v.seen_le;
      seen_at = v.seen_at;
      bytes =
          ap (span size copied.1 q.reader.current_read_offset)
            (omega (arith, length-append p.pending msg))
          ∙ bytes_grown h e;
    }

    faulted_Inv :
        used p + length msg < size
        → Inv size log
            (record q { writer = cached; shared = record (q.shared) { rb_base = copied.1 } })
            p
    faulted_Inv h = record {
      small = v.small;
      power = v.power;
      writer_size = v.writer_size;
      reader_size = v.reader_size;
      storage = storage_kept (omega arith);
      read_lt = v.read_lt;
      space_left = v.space_left;
      reader_at = v.reader_at;
      committed_at = v.committed_at;
      writer_at = v.writer_at;
      seen = v.seen;
      seen_le = v.seen_le;
      seen_at = v.seen_at;
      bytes = bytes_kept h;
    }

    fault_Step :
        (b : Bool)
        → b ≡ true
        → used p + length msg < size
        → Step size p (write u msg b) (wrote efault) p
    fault_Step true e h = write_fault u msg h
    fault_Step false e h = cc

    free_room : ℕ
    unfolding micscif_rb_space
    free_room = (micscif_rb_space c q.writer q.shared).0

    refused :
        ltb free_room (length msg) ≡ true
        → Refines size log p (write u msg fromuser) (step c q (write u msg fromuser))
    unfolding step micscif_rb_write free_room
    refused e = rw e (
      p,
      refuse u msg fromuser (omega (arith, (space_exact c v), ltb→lt free_room (length msg) e)),
      space_Inv,
    )

    enough : ltb free_room (length msg) ≡ false → used p + length msg < size
    unfolding free_room
    enough e = omega (arith, (space_exact c v), ltb_false→le free_room (length msg) e)

    pub write_refines : Refines size log p (write u msg fromuser) (step c q (write u msg fromuser))
    unfolding step micscif_rb_write free_room micscif_rb_space
    write_refines = elim (Bool-cases (ltb free_room (length msg))) [
      | inl e ↦ refused e
      | inr e ↦ elim (Bool-cases (copied.0)) [
        | inl w ↦
            rw (e, w)
              (
                record p { pending = p.pending ++ msg },
                accept u msg fromuser (enough e),
                stored_Inv (enough e) w,
              )
        | inr w ↦
            rw (e, w)
              (
                p,
                fault_Step fromuser ((copied-Copied (omega (arith, enough e))).faulted w)
                    (enough e),
                faulted_Inv (enough e),
              )
      ]
    ]
