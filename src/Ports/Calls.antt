-- ===== src/Ports/Calls.antt =====
-- What each call does to the set of free ports, on every branch.
use intel_xeon_phi_kernel_dr.Common.{
  ℕ, ◌+◌, ◌-◌, ◌/◌, ◌%◌, ◌≤◌, ◌<◌, ◌≡◌, refl, ap, ◌∙◌, ◌⊎◌, inl, inr, Bool, true, false, ◌&&◌, List,
  [], length, get_or, set, length-set, ltb, leb, ◌==◌, ==_iff, Bool-cases, if◌then◌else◌, arith,
}
use intel_xeon_phi_kernel_dr.Ports.{
  Ports, Word, incr, is_zero, word_at, scif_clrbit, scif_setbit, rsrv_scif_port, put_scif_port,
}
use intel_xeon_phi_kernel_dr.Ports.Bits.{width-set, word-set, zero_clear, get_or-set}
use intel_xeon_phi_kernel_dr.Ports.Spec.{free, Inv, Changed, write-Changed, init_scif_array_ready}

-- The words after the bit of one port is written.
abbrev pub written : Ports → ℕ → Bool → List Word
written st p v = set st.port_bits (p / 64) (set (get_or st.port_bits (p / 64) []) (p % 64) v)

-- A state that differs by one written bit, with a search index for which the words below are zero.
pub write-Inv :
    (st st' : Ports) (p : ℕ) (v : Bool)
    → Inv st
    → p < 65536
    → (v ≡ true → 0 < p)
    → st'.port_bits ≡ written st p v
    → st'.init_array ≡ false
    → 17 ≤ st'.first_free
    → st'.first_free ≤ 1024
    → ((i : ℕ) → 17 ≤ i → i < st'.first_free → is_zero (get_or (written st p v) i []) ≡ true)
    → Inv st'
write-Inv st st' p v inv hp hv e r lo hi z = record {
  ready = r;
  words = ap length e ∙ length-set st.port_bits _ _ ∙ inv.words;
  widths = λ i h.
      ap (λ ws. length (get_or ws i [])) e
      ∙ width-set st.port_bits (p / 64) (p % 64) i v (omega (arith, inv.words))
      ∙ inv.widths i h;
  above_reserved = lo;
  in_array = hi;
  taken = λ i h k. ap (λ ws. is_zero (get_or ws i [])) e ∙ z i h k;
  zero_never = write-Changed st st' p v inv hp e 0 ∙ stays;
}
  where
    stays : (if p == 0 then v else free st 0) ≡ false
    stays = ground (arith, inv.zero_never, Bool-cases v)

pub clear_zero :
    (st : Ports) (p i : ℕ)
    → Inv st
    → p < 65536
    → is_zero (get_or st.port_bits i []) ≡ true
    → is_zero (get_or (written st p false) i []) ≡ true
clear_zero st p i inv hp h = elim (Bool-cases (p / 64 == i)) [
  | inl e ↦
      ap is_zero (get_or-set st.port_bits (p / 64) i _ [] (omega (arith, inv.words)))
      ∙ rw e (
          zero_clear (get_or st.port_bits (p / 64) []) (p % 64)
            (ap (λ t. is_zero (get_or st.port_bits t [])) ((==_iff (p / 64) i).0 e) ∙ h))
  | inr e ↦ ap is_zero (get_or-set st.port_bits (p / 64) i _ [] (omega (arith, inv.words))) ∙ rw e h
]

bit_index : (p : ℕ) → 1 + p % 64 - 1 ≡ p % 64
bit_index p = omega arith

-- The state that a successful or a failed reservation leaves.
reserved : Ports → ℕ → Ports
reserved st p = record st { port_bits = written st p false; port_rsvd = incr st.port_rsvd }

failed : Ports → ℕ → Ports
failed st p = record st { port_bits = written st p false; port_err = incr st.port_err }

rsrv_eq :
    (st : Ports) (p : ℕ)
    → st.init_array ≡ false
    → 0 < p
    → p < 65536
    → rsrv_scif_port p st ≡ (if free st p then (p, reserved st p) else (0, failed st p))
unfolding rsrv_scif_port scif_clrbit word_at reserved failed
rsrv_eq st p r hp hq =
    rw (init_scif_array_ready st r, bit_index p)
      (elim (Bool-cases (free st p)) [ inl e ↦ rw e (ground arith) | inr e ↦ rw e (ground arith) ])

-- The search index after a release, and the state.
back_to : Ports → ℕ → ℕ
back_to st p = if leb 1088 p && ltb (p / 64) st.first_free then p / 64 else st.first_free

back_to_bounds :
    (st : Ports) (p : ℕ)
    → (back_to st p ≤ st.first_free)
      × ((back_to st p ≡ st.first_free) ⊎ (17 ≤ back_to st p))
      × ((p < 1088) ⊎ (back_to st p ≤ p / 64))
unfolding back_to
back_to_bounds st p = ground arith

released : Ports → ℕ → Ports
released st p = record st {
  port_bits = written st p true;
  first_free = back_to st p;
  port_free = incr st.port_free;
}

put_eq : (st : Ports) (p : ℕ) → 0 < p → put_scif_port p st ≡ released st p
unfolding put_scif_port scif_setbit word_at released back_to
put_eq st p hp = rw (bit_index p) (ground arith)

-- A reservation leaves the search index where it is.
pub first_free-rsrv_scif_port :
    (st : Ports) (p : ℕ)
    → st.init_array ≡ false
    → 0 < p
    → p < 65536
    → (rsrv_scif_port p st).1.first_free ≡ st.first_free
unfolding reserved failed
first_free-rsrv_scif_port st p r hp hq = rw (rsrv_eq st p r hp hq) (ground arith)

module _ (st : Ports) (inv : Inv st) where
  clear_Inv :
      (st' : Ports) (p : ℕ)
      → p < 65536
      → st'.port_bits ≡ written st p false
      → st'.init_array ≡ false
      → st'.first_free ≡ st.first_free
      → Inv st'
  clear_Inv st' p hq e r f =
      write-Inv st st' p false inv hq (λ e. cc) e r (omega (arith, inv.above_reserved))
        (omega (arith, inv.in_array))
        (λ i lo hi. clear_zero st p i inv hq (inv.taken i lo (omega arith)))

  -- Where the invariant holds, reserving a port other than 0 gives it if and only if it is free;
  -- afterwards it is not free, the other ports are as before, and the invariant holds.
  pub rsrv_scif_port_lem :
      (p : ℕ)
      → 0 < p
      → p < 65536
      → let (r, st') = rsrv_scif_port p st in
        (r ≡ (if free st p then p else 0)) × Changed st st' p false × Inv st'
  unfolding reserved failed
  rsrv_scif_port_lem p hp hq = rw (rsrv_eq st p inv.ready hp hq) (elim (Bool-cases (free st p)) [
    | inl e ↦ rw e (
      refl,
      write-Changed st (reserved st p) p false inv hq refl,
      clear_Inv (reserved st p) p hq refl inv.ready refl,
    )
    | inr e ↦ rw e (
      refl,
      write-Changed st (failed st p) p false inv hq refl,
      clear_Inv (failed st p) p hq refl inv.ready refl,
    )
  ])

  -- Where the invariant holds, releasing a port other than 0 makes it free, leaves the others as they
  -- are, and keeps the invariant.
  pub put_scif_port_lem :
      (p : ℕ) → 0 < p → p < 65536 → let st' = put_scif_port p st in Changed st st' p true × Inv st'
  unfolding released back_to
  put_scif_port_lem p hp hq = rw (put_eq st p hp) (
    write-Changed st (released st p) p true inv hq refl,
    write-Inv st (released st p) p true inv hq (λ _. hp) refl inv.ready
        (omega (arith, back_to_bounds st p, inv.above_reserved))
        (omega (arith, back_to_bounds st p, inv.in_array))
        (λ i lo hi.
          ap is_zero
            (word-set st.port_bits (p / 64) i _ (λ e. omega (arith, e, back_to_bounds st p)))
          ∙ inv.taken i lo (omega (arith, back_to_bounds st p))),
  )

  -- Port 0 is refused by both calls, and no port changes.
  pub rsrv_scif_port_zero : rsrv_scif_port 0 st ≡ (0, record st { port_err = incr st.port_err })
  unfolding rsrv_scif_port
  rsrv_scif_port_zero = refl

  pub put_scif_port_zero : put_scif_port 0 st ≡ record st { port_err = incr st.port_err }
  unfolding put_scif_port
  put_scif_port_zero = refl

  pub error_Inv : (n : ℕ) → Inv (record st { port_err = n })
  error_Inv n = record {
    ready = inv.ready;
    words = inv.words;
    widths = inv.widths;
    above_reserved = inv.above_reserved;
    in_array = inv.in_array;
    taken = inv.taken;
    zero_never = inv.zero_never;
  }
