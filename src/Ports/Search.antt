-- ===== src/Ports/Search.antt =====
-- `get_scif_port`: the port that it finds, and when it finds none.
use intel_xeon_phi_kernel_dr.Common.{
  ℕ, suc, ◌+◌, ◌-◌, ◌*◌, ◌/◌, ◌%◌, ◌≤◌, ◌<◌, ◌≡◌, ◌≢◌, refl, sym, ap, ◌∙◌, ◌⊎◌, inl, inr, true,
  false, [], length, get_or, set, drop, length-set, length-drop, ltb, ltb→lt, ltb_false→le, ◌==◌,
  ==_iff, Bool-cases, arith,
}
use intel_xeon_phi_kernel_dr.Ports.{
  Ports, incr, ffs, is_zero, skip_zero, word_at, scif_ffsclr, get_scif_port,
}
use intel_xeon_phi_kernel_dr.Ports.Bits.{
  FirstSet, ffs_lem, zero_bits, skip_zero_bounds, skip_zero_zeros, get_or-drop,
}
use intel_xeon_phi_kernel_dr.Ports.Spec.{free, Inv, Changed, write-Changed, init_scif_array_ready}
use intel_xeon_phi_kernel_dr.Ports.Calls.{written, write-Inv, clear_zero}

-- The state after the bit `k` of the word at the search index is taken.
granted : Ports → ℕ → Ports
granted st p = record st {
  port_bits = written st p false;
  first_free = skip_zero (drop st.first_free (written st p false)) st.first_free;
  port_rsvd = incr st.port_rsvd;
}

refused : Ports → Ports
refused st = record st { port_err = incr st.port_err }

module _ (st : Ports) where
  -- What a search that finds a port gives.
  pub record Found (p : ℕ) (out : ℕ × Ports) : Type 0 where
    pub port : out.0 ≡ p
    pub above : 1088 ≤ p
    pub below : p < 65536
    pub was_free : free st p ≡ true
    pub lowest : (j : ℕ) → 1088 ≤ j → j < p → free st j ≡ false
    pub taken : Changed st out.1 p false
    pub kept : Inv out.1

  -- What one that finds none leaves.
  pub record NotFound (out : ℕ × Ports) : Type 0 where
    pub none_given : out.0 ≡ 0
    pub same_bits : out.1.port_bits ≡ st.port_bits
    pub same_index : out.1.first_free ≡ st.first_free
    pub exhausted : (st.first_free ≡ 1024) ⊎ (is_zero (get_or st.port_bits st.first_free []) ≡ true)
    pub kept : Inv out.1

module _ (st : Ports) (inv : Inv st) where
  get_at_end : st.first_free ≡ 1024 → get_scif_port st ≡ (0, refused st)
  unfolding get_scif_port refused
  get_at_end e = rw (init_scif_array_ready st inv.ready) (ground arith)

  get_zero_word :
      ffs (get_or st.port_bits st.first_free []) ≡ 0 → get_scif_port st ≡ (0, refused st)
  unfolding get_scif_port refused scif_ffsclr word_at
  get_zero_word z = rw (init_scif_array_ready st inv.ready, z) (ground arith)

  get_first :
      (k : ℕ)
      → st.first_free ≢ 1024
      → k < 64
      → ffs (get_or st.port_bits st.first_free []) ≡ suc k
      → get_scif_port st ≡ (k + 64 * st.first_free, granted st (k + 64 * st.first_free))
  unfolding get_scif_port granted scif_ffsclr word_at
  get_first k h hk e =
      rw (init_scif_array_ready st inv.ready, e, word_of, bit_of, suc_sub)
        (ground (arith, inv.in_array))
    where
      word_of : (k + 64 * st.first_free) / 64 ≡ st.first_free
      word_of = omega arith

      bit_of : (k + 64 * st.first_free) % 64 ≡ k
      bit_of = omega arith

      suc_sub : suc k - 1 ≡ k
      suc_sub = omega arith

  module _ (k : ℕ) (more : st.first_free ≢ 1024)
      (first : FirstSet (get_or st.port_bits st.first_free []) k) where
    in_word : k < 64
    in_word = omega (arith, first.1, inv.widths st.first_free (omega (arith, inv.in_array)))

    found_port : ℕ
    found_port = k + 64 * st.first_free

    word_of : found_port / 64 ≡ st.first_free
    unfolding found_port
    word_of = omega (arith, in_word)

    bit_of : found_port % 64 ≡ k
    unfolding found_port
    bit_of = omega (arith, in_word)

    found_lt : found_port < 65536
    unfolding found_port
    found_lt = omega (arith, in_word, inv.in_array)

    found_free : free st found_port ≡ true
    found_free = rw (word_of, bit_of) first.2

    found_lowest : (j : ℕ) → 1088 ≤ j → j < found_port → free st j ≡ false
    unfolding found_port
    found_lowest j lo hi = elim (Bool-cases (ltb (j / 64) st.first_free)) [
      | inl e ↦
          zero_bits (get_or st.port_bits (j / 64) []) (j % 64)
            (inv.taken (j / 64) (omega arith) (ltb→lt (j / 64) st.first_free e))
      | inr e ↦
          let at : j / 64 ≡ st.first_free =
            omega (arith, in_word, ltb_false→le (j / 64) st.first_free e) in
          ap (λ i. get_or (get_or st.port_bits i []) (j % 64) false) at
          ∙ first.3 (j % 64) (omega (arith, at))
    ]

    next_zero :
        (i : ℕ)
        → 17 ≤ i
        → i < (granted st found_port).first_free
        → is_zero (get_or (written st found_port false) i []) ≡ true
    unfolding granted
    next_zero i lo hi = elim (Bool-cases (ltb i st.first_free)) [
      | inl e ↦ clear_zero st found_port i inv found_lt (inv.taken i lo (ltb→lt i st.first_free e))
      | inr e ↦
          let above : st.first_free ≤ i = ltb_false→le i st.first_free e in
          ap (λ t. is_zero (get_or (written st found_port false) t [])) (omega arith)
          ∙ ap is_zero
              (sym (get_or-drop st.first_free (written st found_port false) (i - st.first_free) []))
          ∙ skip_zero_zeros (drop st.first_free (written st found_port false)) st.first_free
              (i - st.first_free) (omega arith)
    ]

    found_Inv : Inv (granted st found_port)
    unfolding granted
    found_Inv =
        write-Inv st (granted st found_port) found_port false inv found_lt (λ e. cc) refl inv.ready
          (omega (arith, bounds, inv.above_reserved))
          (omega (
            arith,
            bounds,
            length-drop st.first_free (written st found_port false),
            length-set st.port_bits (found_port / 64)
                (set (get_or st.port_bits (found_port / 64) []) (found_port % 64) false),
            inv.words,
            inv.in_array,
          ))
          (unfold granted in next_zero)
      where
        bounds :
            (st.first_free ≤ (granted st found_port).first_free)
            × ((granted st found_port).first_free
                ≤ st.first_free + length (drop st.first_free (written st found_port false)))
        bounds = skip_zero_bounds (drop st.first_free (written st found_port false)) st.first_free

    found_Changed : Changed st (granted st found_port) found_port false
    unfolding granted
    found_Changed = write-Changed st (granted st found_port) found_port false inv found_lt refl

    found : Found st found_port (get_scif_port st)
    unfolding found_port
    found = rw (get_first k more in_word first.0) (record {
      port = refl;
      above = omega (arith, inv.above_reserved);
      below = found_lt;
      was_free = found_free;
      lowest = found_lowest;
      taken = found_Changed;
      kept = found_Inv;
    })

  not_found :
      (get_scif_port st ≡ (0, refused st))
      → (st.first_free ≡ 1024) ⊎ (is_zero (get_or st.port_bits st.first_free []) ≡ true)
      → NotFound st (get_scif_port st)
  unfolding refused
  not_found e why = rw e (record {
    none_given = refl;
    same_bits = refl;
    same_index = refl;
    exhausted = why;
    kept = record {
      ready = inv.ready;
      words = inv.words;
      widths = inv.widths;
      above_reserved = inv.above_reserved;
      in_array = inv.in_array;
      taken = inv.taken;
      zero_never = inv.zero_never;
    };
  })

  -- Where the invariant holds, `get_scif_port` gives the lowest free port that is not reserved and takes it from the free ones,
  -- or gives 0 and changes no port; it gives 0 only if the search index is at the end or at a word of
  -- zeros.
  pub get_scif_port_lem : ((p : ℕ) × Found st p (get_scif_port st)) ⊎ NotFound st (get_scif_port st)
  get_scif_port_lem = elim (Bool-cases (st.first_free == 1024)) [
    | inl e ↦
        let at : st.first_free ≡ 1024 = (==_iff st.first_free 1024).0 e in
        inr (not_found (get_at_end at) (inl at))
    | inr e ↦
        let more : st.first_free ≢ 1024 = λ at. cc ((==_iff st.first_free 1024).1 at) in
        elim (ffs_lem (get_or st.port_bits st.first_free [])) [
          | inl (z, w) ↦ inr (not_found (get_zero_word z) (inr w))
          | inr (k, first) ↦ inl (_, found k more first)
        ]
  ]

  -- While every port of the word at the search index is taken, no port is found, however many are
  -- free elsewhere, and the next search is in the same place.
  pub get_scif_port_stuck :
      st.first_free < 1024
      → ((j : ℕ) → j < 64 → free st (j + 64 * st.first_free) ≡ false)
      → let (r, st') = get_scif_port st in
        (r ≡ 0) × (st'.first_free ≡ st.first_free) × (st'.port_bits ≡ st.port_bits)
  unfolding found_port
  get_scif_port_stuck h none_free = elim (ffs_lem (get_or st.port_bits st.first_free [])) [
    | inl (e, w) ↦
        let n = not_found (get_zero_word e) (inr w) in (n.none_given, n.same_index, n.same_bits)
    | inr (k, first) ↦
        cc (found_free k (omega arith) first, none_free k (in_word k (omega arith) first))
  ]
