-- ===== src/ScifRb/Offsets.antt =====
-- Where the offsets of a queue lie, and what `CIRC_CNT` and `CIRC_SPACE` make of them.
use native.Mathlib.Nat.{mod-lt}
use intel_xeon_phi_kernel_dr.Common.{
  ℕ, ◌+◌, ◌-◌, ◌%◌, ◌^◌, ◌<◌, ◌≡◌, sym, ap, ◌∙◌, subst, length, arith,
}
use intel_xeon_phi_kernel_dr.Kernel.{CircBuf}
use intel_xeon_phi_kernel_dr.ScifRb.{Queue, micscif_rb_space}
use intel_xeon_phi_kernel_dr.ScifRb.Pipe.{Pipe, used}
use intel_xeon_phi_kernel_dr.ScifRb.Round.{distance, gap, mod_shift}
use intel_xeon_phi_kernel_dr.ScifRb.Inv.{Inv}

module _ (c : CircBuf) {size : ℕ} (log : ℕ) (power : size ≡ 2 ^ log) (head tail : ℕ) where
  circ_cnt_at : head < size → tail < size → c.circ_cnt head tail size ≡ (head + size - tail) % size
  circ_cnt_at =
      subst (λ s. head < s → tail < s → c.circ_cnt head tail s ≡ (head + s - tail) % s) (sym power)
        (c.circ_cnt_lem log head tail)

  circ_space_at :
      head < size → tail < size → c.circ_space head tail size ≡ (tail + size - (head + 1)) % size
  circ_space_at =
      subst (λ s. head < s → tail < s → c.circ_space head tail s ≡ (tail + s - (head + 1)) % s)
        (sym power) (c.circ_space_lem log head tail)

module _ {size log : ℕ} {q : Queue} {p : Pipe} (v : Inv size log q p) where
  pub round_lt : (n : ℕ) → n % size < size
  round_lt n = mod-lt n (omega arith)

  -- The writer stands `used` bytes ahead of the read pointer.
  pub writer_ahead : q.writer.current_write_offset ≡ (q.shared.read_ptr + used p) % size
  writer_ahead =
      v.writer_at
      ∙ ap (λ t. (t + length p.pending) % size)
          (v.committed_at
            ∙ ap (λ t. (t + length p.unread) % size) v.reader_at
            ∙ mod_shift size q.shared.read_ptr p.held (length p.unread))
      ∙ mod_shift size q.shared.read_ptr (p.held + length p.unread) (length p.pending)

  pub writer_lt : q.writer.current_write_offset < size
  writer_lt = subst (λ t. t < size) (sym v.writer_at) (round_lt _)

  pub reader_lt : q.reader.current_read_offset < size
  reader_lt = subst (λ t. t < size) (sym v.reader_at) (round_lt _)

  pub committed_lt : q.shared.write_ptr < size
  committed_lt = subst (λ t. t < size) (sym v.committed_at) (round_lt _)

  -- Between the committed bytes and the end of the pending ones.
  pub bytes_end :
      q.writer.current_write_offset
      ≡ (q.reader.current_read_offset + (length p.unread + length p.pending)) % size
  bytes_end =
      v.writer_at
      ∙ ap (λ t. (t + length p.pending) % size) v.committed_at
      ∙ mod_shift size q.reader.current_read_offset (length p.unread) (length p.pending)

module _ (c : CircBuf) {size log : ℕ} {q : Queue} {p : Pipe} (v : Inv size log q p) where
  -- With the read pointer fetched, the space is what the pipe leaves.
  pub space_exact : (micscif_rb_space c q.writer q.shared).0 + used p + 1 ≡ size
  unfolding micscif_rb_space
  space_exact =
      ap (λ t. t + used p + 1)
        (ap (c.circ_space q.writer.current_write_offset q.shared.read_ptr) v.writer_size
          ∙ circ_space_at c log v.power q.writer.current_write_offset q.shared.read_ptr
              (writer_lt v) v.read_lt)
      ∙ gap size q.shared.read_ptr q.writer.current_write_offset (used p) v.read_lt v.space_left
          (writer_ahead v)

  -- The count with a write offset that is `n` bytes ahead of the reader.
  pub count_exact :
      (off n : ℕ)
      → n < size
      → off ≡ (q.reader.current_read_offset + n) % size
      → c.circ_cnt off q.reader.current_read_offset q.reader.size ≡ n
  count_exact off n hn e =
      ap (c.circ_cnt off q.reader.current_read_offset) v.reader_size
      ∙ circ_cnt_at c log v.power off q.reader.current_read_offset
          (subst (λ t. t < size) (sym e) ((round_lt v) _)) (reader_lt v)
      ∙ distance size q.reader.current_read_offset off n (reader_lt v) hn e
