-- ===== src/VaNodes/Examples.antt =====
-- The first slab.
use intel_xeon_phi_kernel_dr.Common.{ℕ, ◌+◌, ◌≡◌, refl, true, some, List, [], ◌∷◌, length, arith}
use intel_xeon_phi_kernel_dr.VaNodes.{
  VaNodeAllocator, Memory, va_node_init, va_node_is_valid, va_node_realloc, new_slab, add_slab,
  va_node_grow, take_free, va_node_alloc,
}
use intel_xeon_phi_kernel_dr.VaNodes.Chain.{count, Chain, within}
use intel_xeon_phi_kernel_dr.VaNodes.Owners.{Runs, start, alloc, Runs-partition}

abbrev enough : Memory
enough = record { directory = true; slab = true }

one_taken : VaNodeAllocator
one_taken = record {
  next = new_slab 127 0 0xffffffff;
  num_slabs = 1;
  num_free_slabs = 0;
  free_list = 1;
}

first_node : va_node_alloc enough va_node_init ≡ (some 0, one_taken)
unfolding va_node_alloc va_node_init va_node_is_valid va_node_realloc va_node_grow add_slab new_slab
    take_free one_taken
first_node = refl

one_run : Runs one_taken (0 ∷ [])
unfolding va_node_init
one_run = alloc enough 0 start (omega arith) first_node

Runs-partition_example :
    (frees : List ℕ) × (Chain one_taken.next one_taken.free_list frees
      × ((i : ℕ) → count i frees + count i (0 ∷ []) ≡ within i 0 (length one_taken.next)))
Runs-partition_example = Runs-partition one_run
