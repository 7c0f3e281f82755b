-- ===== src/VaGen/Examples.antt =====
-- The window that SCIF uses, and a claim beside another.
use intel_xeon_phi_kernel_dr.Common.{ℕ, ◌+◌, ◌-◌, ◌/◌, ◌≡◌, refl, some, [], ◌∷◌, arith}
use intel_xeon_phi_kernel_dr.VaGen.{
  VaGenAddr, page_bytes, pages, address_of, first_fit, va_gen_alloc_internal, va_gen_alloc_aligned,
  va_gen_alloc, va_gen_free, va_gen_init, va_gen_init_internal,
}
use intel_xeon_phi_kernel_dr.VaGen.Holes.{at, held}
use intel_xeon_phi_kernel_dr.VaGen.Aligned.{va_gen_alloc_aligned_lem}
use intel_xeon_phi_kernel_dr.VaGen.Grants.{Grant, owners, Window}
use intel_xeon_phi_kernel_dr.VaGen.Runs.{Runs, start, alloc, Runs-balance, va_gen_free_in_Runs}

abbrev va_gen_min : ℕ
va_gen_min = 0x4000000000000000

abbrev va_gen_range : ℕ
va_gen_range = 0x3f00000000000000

scif_Window : Window va_gen_min va_gen_range
scif_Window = record { addresses = omega arith; indices = omega arith; some_page = omega arith }

-- After an allocation of 5000 bytes, which takes two pages.
abbrev one_allocated : VaGenAddr
one_allocated = record {
  hole_list = record { base = 2; range = 0x3f00000000000000 / 4096 - 2 } ∷ [];
  claims_list = [];
  base = va_gen_min;
}

abbrev grant : Grant
grant = record { address = va_gen_min; num_bytes = 5000 }

allocates :
    va_gen_alloc 5000 page_bytes (va_gen_init va_gen_min va_gen_range)
    ≡ some (va_gen_min, one_allocated)
unfolding va_gen_alloc va_gen_init va_gen_init_internal va_gen_alloc_aligned va_gen_alloc_internal
    first_fit address_of pages
allocates = refl

one_run : Runs va_gen_min va_gen_range one_allocated (grant ∷ [])
one_run = alloc 5000 va_gen_min start allocates (omega arith)

Runs-balance_example :
    held 1 one_allocated.hole_list + owners va_gen_min (grant ∷ []) 1
    ≡ at 1 0 (va_gen_range / page_bytes)
Runs-balance_example = Runs-balance va_gen_min va_gen_range scif_Window one_run 1

va_gen_free_in_Runs_example :
    (st' : VaGenAddr) × (va_gen_free va_gen_min 5000 one_allocated ≡ some st')
va_gen_free_in_Runs_example =
    va_gen_free_in_Runs va_gen_min va_gen_range scif_Window [] grant [] one_run

va_gen_alloc_aligned_lem_example :
    va_gen_alloc_aligned 3 4 one_allocated.hole_list ≡ some (first_fit 6 one_allocated.hole_list)
va_gen_alloc_aligned_lem_example =
    va_gen_alloc_aligned_lem 3 4 one_allocated.hole_list (omega arith) (omega arith) (omega arith)
      (omega arith) (record { low = omega arith; nonempty = omega arith; ends = omega arith }, tt)
