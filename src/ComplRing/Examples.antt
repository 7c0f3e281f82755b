-- ===== src/ComplRing/Examples.antt =====
-- A ring of four entries, two of which wait.
use intel_xeon_phi_kernel_dr.Common.{ℕ, suc, ◌+◌, ◌%◌, ◌<◌, ◌≡◌, ◌≢◌, refl, ◌⊎◌, none, some, arith}
use intel_xeon_phi_kernel_dr.ComplRing.{ComplBufRing, allocate_buffer, incr_head}
use intel_xeon_phi_kernel_dr.ComplRing.Space.{Waiting, allocate_buffer_lem}

abbrev four : ComplBufRing
four = record { head = 2; tail = 0; size = 4 }

two_wait : (j : ℕ) → Waiting 4 2 0 2
two_wait j = record {
  tail_lt = omega arith;
  head_lt = omega arith;
  some_free = omega arith;
  head_at = refl;
}

allocate_buffer_lem_example :
    ((allocate_buffer (λ j. 0) four ≡ none) × ((j : ℕ) → j < 20 → suc 2 ≡ 4))
    ⊎ ((allocate_buffer (λ j. 0) four ≡ some 2)
        × ((j : ℕ) × (j < 20
              × (Waiting 4 (incr_head four).head 0 3 × ((i : ℕ) → i < 2 → (0 + i) % 4 ≢ 2)))))
allocate_buffer_lem_example = allocate_buffer_lem (λ j. 0) (λ j. 2) four two_wait
