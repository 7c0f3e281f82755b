-- ===== src/Ports/Spec.antt =====
-- The abstract view of the port array, the set of free ports, and the invariant of the search.
use intel_xeon_phi_kernel_dr.Common.{
  ℕ, zero, suc, ◌/◌, ◌%◌, ◌≤◌, ◌<◌, ◌≡◌, refl, ap, ◌∙◌, Bool, true, false, not, ◌&&◌, [], length,
  get_or, set, length-replicate, get_or-replicate, replicate, ◌==◌, if◌then◌else◌, arith,
}
use intel_xeon_phi_kernel_dr.Ports.{Ports, is_zero, init_scif_array, all_ones, flip_first}
use intel_xeon_phi_kernel_dr.Ports.Bits.{bit, bit-set}

abbrev pub free : Ports → ℕ → Bool
free st port = bit st.port_bits (port / 64) (port % 64)

-- Every word from the first that is not reserved up to `first_free` is zero, and port 0 is never
-- free.
pub record Inv (st : Ports) : Type 0 where
  pub ready : st.init_array ≡ false
  pub words : length st.port_bits ≡ 1024
  pub widths : (i : ℕ) → i < 1024 → length (get_or st.port_bits i []) ≡ 64
  pub above_reserved : 17 ≤ st.first_free
  pub in_array : st.first_free ≤ 1024
  pub taken : (i : ℕ) → 17 ≤ i → i < st.first_free → is_zero (get_or st.port_bits i []) ≡ true
  pub zero_never : free st 0 ≡ false

-- What a call did to the set of free ports: one port is now `v`, the others are as before.
abbrev pub Changed : (st st' : Ports) → ℕ → Bool → Type 0
Changed st st' port v = (j : ℕ) → free st' j ≡ (if port == j then v else free st j)

abbrev pub Unchanged : (st st' : Ports) → Type 0
Unchanged st st' = (j : ℕ) → free st' j ≡ free st j

same_port : (p j : ℕ) → ((p / 64 == j / 64) && (p % 64 == j % 64)) ≡ (p == j)
same_port p j = ground arith

-- The bit of one port is written.
pub write-Changed :
    (st st' : Ports) (p : ℕ) (v : Bool)
    → Inv st
    → p < 65536
    → st'.port_bits ≡ set st.port_bits (p / 64) (set (get_or st.port_bits (p / 64) []) (p % 64) v)
    → Changed st st' p v
write-Changed st st' p v inv h e j =
    ap (λ ws. bit ws (j / 64) (j % 64)) e
    ∙ bit-set st.port_bits (p / 64) (p % 64) (j / 64) (j % 64) v (omega (arith, inv.words))
        (omega (arith, inv.widths (p / 64) (omega arith)))
    ∙ ap (λ b. if b then v else free st j) (same_port p j)

all_ones_words : (n : ℕ) → length (flip_first (all_ones n)) ≡ n
unfolding all_ones flip_first
all_ones_words zero = refl
all_ones_words (suc n) = ap suc (length-replicate n _)

all_ones_widths : (n i : ℕ) → i < n → length (get_or (flip_first (all_ones n)) i []) ≡ 64
unfolding all_ones flip_first
all_ones_widths zero i h = absurd (omega arith)
all_ones_widths (suc n) zero h = refl
all_ones_widths (suc n) (suc i) h =
    ap length (get_or-replicate n i (replicate 64 true) [] (omega arith))

-- All ports but 0 are free.
all_ones_bits :
    (n i j : ℕ) → i < n → j < 64 → bit (flip_first (all_ones n)) i j ≡ not ((i == 0) && (j == 0))
unfolding all_ones flip_first
all_ones_bits zero i j h k = absurd (omega arith)
all_ones_bits (suc n) zero zero h k = refl
all_ones_bits (suc n) zero (suc j) h k =
    get_or-replicate 63 j true false (omega arith) ∙ ground arith
all_ones_bits (suc n) (suc i) j h k =
    ap (λ w. get_or w j false) (get_or-replicate n i (replicate 64 true) [] (omega arith))
    ∙ get_or-replicate 64 j true false k
    ∙ ground arith

module _ (st : Ports) (h : st.init_array ≡ true) where
  -- The first call of the file makes every port but 0 free, and establishes the invariant.
  pub init-Inv : Inv (init_scif_array st)
  unfolding init_scif_array
  init-Inv = rw h (record {
    ready = refl;
    words = all_ones_words 1024;
    widths = all_ones_widths 1024;
    above_reserved = omega arith;
    in_array = omega arith;
    taken = λ i p q. absurd (omega arith);
    zero_never = all_ones_bits 1024 0 0 (omega arith) (omega arith);
  })

  pub init-free : (p : ℕ) → 0 < p → p < 65536 → free (init_scif_array st) p ≡ true
  unfolding init_scif_array
  init-free p hp hq =
      rw h (all_ones_bits 1024 (p / 64) (p % 64) (omega arith) (omega arith) ∙ ground arith)

-- Once initialised, the array is left alone.
pub init_scif_array_ready : (st : Ports) → st.init_array ≡ false → init_scif_array st ≡ st
unfolding init_scif_array
init_scif_array_ready st h = rw h
