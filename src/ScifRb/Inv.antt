-- ===== src/ScifRb/Inv.antt =====
-- When a queue of two rings stands for a pipe: the offsets lie in order round the ring, and the
-- bytes from the reader's offset on are those that the pipe holds.
use intel_xeon_phi_kernel_dr.Common.{
  ℕ, ◌+◌, ◌-◌, ◌%◌, ◌^◌, ◌≤◌, ◌<◌, ◌≡◌, ◌∙◌, ◌++◌, length, bit_and, arith,
}
use intel_xeon_phi_kernel_dr.Common.Masks.{bit_and_mask, mod_pow-mod_pow}
use intel_xeon_phi_kernel_dr.ScifRb.{Queue, u32}
use intel_xeon_phi_kernel_dr.ScifRb.Pipe.{Pipe, used}
use intel_xeon_phi_kernel_dr.ScifRb.Span.{span}

-- `size` is the power of two 2^log; the reader's cached write offset, which may be old, lies `seen`
-- bytes ahead of its read offset.
pub record Inv (size log : ℕ) (q : Queue) (p : Pipe) : Type 0 where
  pub small : log ≤ 31
  pub power : size ≡ 2 ^ log
  pub writer_size : q.writer.size ≡ size
  pub reader_size : q.reader.size ≡ size
  pub storage : length q.shared.rb_base ≡ size
  pub read_lt : q.shared.read_ptr < size
  pub space_left : used p < size
  pub reader_at : q.reader.current_read_offset ≡ (q.shared.read_ptr + p.held) % size
  pub committed_at : q.shared.write_ptr ≡ (q.reader.current_read_offset + length p.unread) % size
  pub writer_at : q.writer.current_write_offset ≡ (q.shared.write_ptr + length p.pending) % size
  pub seen : ℕ
  pub seen_le : seen ≤ length p.unread
  pub seen_at : q.reader.current_write_offset ≡ (q.reader.current_read_offset + seen) % size
  pub bytes :
      span size q.shared.rb_base q.reader.current_read_offset (length p.unread + length p.pending)
      ≡ p.unread ++ p.pending

-- `(off + n) & (size - 1)` in uint32_t goes round the ring.
pub advance :
    (size log off n : ℕ)
    → log ≤ 31
    → size ≡ 2 ^ log
    → bit_and (u32 (off + n)) (size - 1) ≡ (off + n) % size
advance size log off n small power =
    rw power (bit_and_mask log (u32 (off + n)) ∙ mod_pow-mod_pow log 32 (off + n) (omega arith))
