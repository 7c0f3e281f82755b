-- ===== src/ScifRb/ReadStep.antt =====
-- `micscif_rb_get_next` is a step of the pipe.
use mathlib.Core.Path.{ap₂}
use intel_xeon_phi_kernel_dr.Common.{
  ℕ, bit_and, ◌+◌, ◌-◌, ◌%◌, ◌≤◌, ◌<◌, ◌≡◌, sym, ap, ◌∙◌, subst, ◌⊎◌, inl, inr, Bool, true, false,
  none, some, ◌++◌, length, take, drop, ltb, leb, le→leb, lt→ltb, le→ltb_false, ltb_false→le,
  leb→le, leb_false→lt, Bool-cases, length-drop, take-append, drop-append, if◌then◌else◌, arith,
}
use intel_xeon_phi_kernel_dr.Kernel.{CircBuf, UserCopy}
use intel_xeon_phi_kernel_dr.ScifRb.{
  Rb, Queue, micscif_rb_count, micscif_rb_get, micscif_rb_get_next, take_packet, read_reply,
  memcpy_fromrb, step, u32,
}
use intel_xeon_phi_kernel_dr.ScifRb.Pipe.{
  Pipe, Step, get_next, read, got, fault, deliver, starve, read_fault,
}
use intel_xeon_phi_kernel_dr.ScifRb.Round.{mod_shift}
use intel_xeon_phi_kernel_dr.ScifRb.Span.{span, take-span, drop-span}
use intel_xeon_phi_kernel_dr.ScifRb.Copies.{Fetched, memcpy_fromrb-Fetched}
use intel_xeon_phi_kernel_dr.ScifRb.Inv.{Inv, advance}
use intel_xeon_phi_kernel_dr.ScifRb.Offsets.{reader_lt, count_exact}
use intel_xeon_phi_kernel_dr.ScifRb.WriteStep.{Refines}

-- A read of `n` bytes that the reader knows of.
module _ {size log : ℕ} {q : Queue} {p : Pipe} (v : Inv size log q p) (u : UserCopy) (n : ℕ)
    (touser : Bool) (known : n ≤ v.seen) where
  advanced : Rb
  advanced = record (q.reader) {
    old_current_read_offset = q.reader.current_read_offset;
    current_read_offset = bit_and (u32 (q.reader.current_read_offset + n)) (q.reader.size - 1);
  }

  advanced_at : advanced.current_read_offset ≡ (q.reader.current_read_offset + n) % size
  unfolding advanced
  advanced_at =
      ap (λ s. bit_and (u32 (q.reader.current_read_offset + n)) (s - 1)) v.reader_size
      ∙ advance size log q.reader.current_read_offset n v.small v.power

  -- Where something `m` bytes ahead is seen from the new offset.
  still_ahead :
      (m : ℕ)
      → n ≤ m
      → (q.reader.current_read_offset + m) % size ≡ (advanced.current_read_offset + (m - n)) % size
  still_ahead m h =
      ap (λ t. (q.reader.current_read_offset + t) % size) (omega arith)
      ∙ sym (mod_shift size q.reader.current_read_offset n (m - n))
      ∙ ap (λ t. (t + (m - n)) % size) (sym advanced_at)

  consumed : Pipe
  consumed = record p { held = p.held + n; unread = drop n p.unread }

  consumed_bytes :
      span size q.shared.rb_base advanced.current_read_offset
        (length (drop n p.unread) + length p.pending)
      ≡ drop n p.unread ++ p.pending
  consumed_bytes =
      ap₂ (span size q.shared.rb_base) advanced_at
        (omega (arith, length-drop n p.unread, v.seen_le))
      ∙ sym (
          drop-span size q.shared.rb_base q.reader.current_read_offset n
            (length p.unread + length p.pending) (reader_lt v) (omega (arith, v.seen_le)))
      ∙ ap (drop n) v.bytes
      ∙ drop-append n p.unread p.pending (omega (arith, v.seen_le))

  consumed_Inv : Inv size log (record q { reader = advanced }) consumed
  unfolding advanced consumed
  consumed_Inv = record {
    small = v.small;
    power = v.power;
    writer_size = v.writer_size;
    reader_size = v.reader_size;
    storage = v.storage;
    read_lt = v.read_lt;
    space_left = omega (arith, length-drop n p.unread, v.seen_le, v.space_left);
    reader_at =
        advanced_at
        ∙ ap (λ t. (t + n) % size) v.reader_at
        ∙ mod_shift size q.shared.read_ptr p.held n;
    committed_at =
        v.committed_at
        ∙ still_ahead (length p.unread) (omega (arith, v.seen_le))
        ∙ ap (λ t. (advanced.current_read_offset + t) % size) (sym (length-drop n p.unread));
    writer_at = v.writer_at;
    seen = v.seen - n;
    seen_le = omega (arith, length-drop n p.unread, v.seen_le);
    seen_at = v.seen_at ∙ still_ahead v.seen known;
    bytes = consumed_bytes;
  }

  delivered : span size q.shared.rb_base q.reader.current_read_offset n ≡ take n p.unread
  delivered =
      sym (
        take-span size q.shared.rb_base q.reader.current_read_offset n
          (length p.unread + length p.pending) (reader_lt v) (omega (arith, v.seen_le)))
      ∙ ap (take n) v.bytes
      ∙ take-append n p.unread p.pending (omega (arith, v.seen_le))

  read_fault_Step : (b : Bool) → b ≡ true → Step size p (get_next u n b) (read fault) consumed
  unfolding consumed
  read_fault_Step true e = read_fault u n (omega (arith, v.seen_le))
  read_fault_Step false e = cc

  outcome :
      Fetched
        (take n p.unread)
        touser
        (memcpy_fromrb u advanced q.shared.rb_base q.reader.current_read_offset n touser)
  unfolding advanced
  outcome =
      subst
        (λ b.
          Fetched b touser
            (memcpy_fromrb u advanced q.shared.rb_base q.reader.current_read_offset n touser))
        (ap (λ t. span t q.shared.rb_base q.reader.current_read_offset n) v.reader_size ∙ delivered)
        (memcpy_fromrb-Fetched u advanced q.shared.rb_base q.reader.current_read_offset n touser
          (subst (λ t. q.reader.current_read_offset < t) (sym v.reader_size) (reader_lt v))
          (omega (arith, v.reader_size, v.seen_le, v.space_left))
          (omega (arith, v.reader_size, v.storage)))

  got_Step : Step size p (get_next u n touser) (read (got (take n p.unread))) consumed
  unfolding consumed
  got_Step = deliver u n touser (omega (arith, v.seen_le))

  packet_refines :
      let out = take_packet u q.reader q.shared n touser (some q.reader.current_read_offset) in
      Refines size log p (get_next u n touser) (read out.0, record q { reader = out.1 })
  unfolding take_packet read_reply advanced
  packet_refines = elim outcome [
    | inl e ↦ rw e (consumed, got_Step, consumed_Inv)
    | inr (e, t) ↦ rw e (consumed, read_fault_Step touser t, consumed_Inv)
  ]

module _ (c : CircBuf) {size log : ℕ} {q : Queue} {p : Pipe} (v : Inv size log q p) where
  -- The reader with the shared write pointer fetched.
  refreshed : Rb
  refreshed = record (q.reader) {
    old_current_write_offset = q.reader.current_write_offset;
    current_write_offset = q.shared.write_ptr;
  }

  refreshed_Inv : Inv size log (record q { reader = refreshed }) p
  unfolding refreshed
  refreshed_Inv = record {
    small = v.small;
    power = v.power;
    writer_size = v.writer_size;
    reader_size = v.reader_size;
    storage = v.storage;
    read_lt = v.read_lt;
    space_left = v.space_left;
    reader_at = v.reader_at;
    committed_at = v.committed_at;
    writer_at = v.writer_at;
    seen = length p.unread;
    seen_le = omega arith;
    seen_at = v.committed_at;
    bytes = v.bytes;
  }

  known_count :
      c.circ_cnt q.reader.current_write_offset q.reader.current_read_offset q.reader.size ≡ v.seen
  known_count =
      count_exact c v q.reader.current_write_offset v.seen (omega (arith, v.seen_le, v.space_left))
        v.seen_at

  full_count :
      c.circ_cnt q.shared.write_ptr q.reader.current_read_offset q.reader.size ≡ length p.unread
  full_count =
      count_exact c v q.shared.write_ptr (length p.unread) (omega (arith, v.space_left))
        v.committed_at

  known_le : (n : ℕ) → n ≤ v.seen → n ≤ length p.unread
  known_le n h = omega (arith, v.seen_le)

  get_known :
      (n : ℕ)
      → n ≤ v.seen
      → micscif_rb_get c q.reader q.shared n ≡ (some q.reader.current_read_offset, q.reader)
  unfolding micscif_rb_get micscif_rb_count
  get_known n h = rw (known_count, le→ltb_false v.seen n h) (rw (known_count, le→leb n v.seen h))

  get_fetched :
      (n : ℕ)
      → v.seen < n
      → micscif_rb_get c q.reader q.shared n
        ≡ (if leb n (length p.unread) then some q.reader.current_read_offset else none, refreshed)
  unfolding micscif_rb_get micscif_rb_count refreshed
  get_fetched n h = rw (known_count, lt→ltb v.seen n h) (rw full_count)

  pub get_next_refines :
      (u : UserCopy) (n : ℕ) (touser : Bool)
      → Refines size log p (get_next u n touser) (step c q (get_next u n touser))
  unfolding step micscif_rb_get_next refreshed_Inv take_packet
  get_next_refines u n touser = elim (Bool-cases (leb n v.seen)) [
    | inl e ↦ rw (get_known n (leb→le n v.seen e)) (packet_refines v u n touser (leb→le n v.seen e))
    | inr e ↦
        rw (get_fetched n (leb_false→lt n v.seen e)) (elim (Bool-cases (leb n (length p.unread))) [
          | inl k ↦ rw k (packet_refines refreshed_Inv u n touser (leb→le n (length p.unread) k))
          | inr k ↦ rw k (p, starve u n touser (leb_false→lt n (length p.unread) k), refreshed_Inv)
        ])
  ]

  -- Where the queue stands for a pipe, `micscif_rb_count` never counts more than the reader may have, and it counts as many bytes
  -- as were asked for or all that the reader may have.
  pub count_bounds :
      (n : ℕ)
      → ((micscif_rb_count c q.reader q.shared n).0 ≤ length p.unread)
        × ((n ≤ (micscif_rb_count c q.reader q.shared n).0)
            ⊎ ((micscif_rb_count c q.reader q.shared n).0 ≡ length p.unread))
  unfolding micscif_rb_count
  count_bounds n = elim (Bool-cases (ltb v.seen n)) [
    | inl e ↦ rw (known_count, e) (omega (arith, full_count), inr full_count)
    | inr e ↦
        rw (known_count, e)
          (
            omega (arith, known_count, v.seen_le),
            inl (omega (arith, known_count, ltb_false→le v.seen n e)),
          )
  ]

  -- Counting fetches the write pointer at most.
  pub count_Inv :
      (n : ℕ) → Inv size log (record q { reader = (micscif_rb_count c q.reader q.shared n).1 }) p
  unfolding micscif_rb_count refreshed_Inv refreshed
  count_Inv n = elim (Bool-cases (ltb v.seen n)) [
    | inl e ↦ rw (known_count, e) refreshed_Inv
    | inr e ↦ rw (known_count, e) v
  ]
