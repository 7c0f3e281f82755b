-- ===== src/VaNodes.antt =====
-- micscif/micscif_va_node.c: the nodes of the window allocator, in slabs of 128 that are handed out
-- by index and chained through their `next` fields while they are free. The array of slabs is one
-- list of the `next` fields; `slab_shift`, `nodes_in_slab` and `slab_mask` are the constants that
-- `va_node_init` sets. What the two allocations of the kernel answer is an argument.
pub mod Chain
pub mod Owners
mod Examples
use intel_xeon_phi_kernel_dr.Common.{
  ℕ, zero, suc, ◌+◌, ◌-◌, ◌*◌, ◌^◌, ◌≡◌, Bool, true, false, not, ◌&&◌, Option, none, some, List, [],
  ◌∷◌, ◌++◌, get_or, set, ◌==◌, if◌then◌else◌,
}

abbrev pub invalid_va_node_index : ℕ
invalid_va_node_index = 2 ^ 32 - 1

abbrev pub nodes_in_slab : ℕ
nodes_in_slab = 128

-- `struct va_node_allocator`; `next` holds the `next` field of every node.
pub record VaNodeAllocator : Type 0 where
  pub next : List ℕ
  pub num_slabs : ℕ
  pub num_free_slabs : ℕ
  pub free_list : ℕ

-- Whether `kzalloc` finds memory for a directory and for a slab.
pub record Memory : Type 0 where
  pub directory : Bool
  pub slab : Bool

pub va_node_init : VaNodeAllocator
va_node_init = record {
  next = [];
  num_slabs = 0;
  num_free_slabs = 0;
  free_list = invalid_va_node_index;
}

pub va_node_is_valid : ℕ → Bool
va_node_is_valid index = not (index == invalid_va_node_index)

-- The flag is false for -ENOMEM, here and below.
pub va_node_realloc : Memory → VaNodeAllocator → Bool × VaNodeAllocator
va_node_realloc mem node =
    if mem.directory
    then (true, record node { num_free_slabs = 2 * node.num_slabs + 1 - node.num_slabs })
    else (false, node)

-- The `next` fields of a new slab whose first `n` nodes lead to the node behind them, the first of
-- them at `index`.
pub new_slab : ℕ → ℕ → ℕ → List ℕ
new_slab zero index free_list = free_list ∷ []
new_slab (suc n) index free_list = (index + 1) ∷ new_slab n (index + 1) free_list

-- `va_node_grow` behind the call of `va_node_realloc`.
pub add_slab : Memory → Bool × VaNodeAllocator → Bool × VaNodeAllocator
add_slab mem (ready, node) =
    let start = node.num_slabs * nodes_in_slab in
    if ready && mem.slab
    then (
      true,
      record {
        next = node.next ++ new_slab (nodes_in_slab - 1) start node.free_list;
        num_slabs = node.num_slabs + 1;
        num_free_slabs = node.num_free_slabs - 1;
        free_list = start;
      },
    )
    else (false, node)

pub va_node_grow : Memory → VaNodeAllocator → Bool × VaNodeAllocator
va_node_grow mem node =
    add_slab mem (if node.num_free_slabs == 0 then va_node_realloc mem node else (true, node))

-- The first node of the free list is taken; `none` is -ENOMEM.
pub take_free : Bool × VaNodeAllocator → Option ℕ × VaNodeAllocator
take_free (ready, node) =
    if ready
    then (some node.free_list, record node { free_list = get_or node.next node.free_list 0 })
    else (none, node)

pub va_node_alloc : Memory → VaNodeAllocator → Option ℕ × VaNodeAllocator
va_node_alloc mem node =
    take_free (if va_node_is_valid node.free_list then (true, node) else va_node_grow mem node)

pub va_node_free : ℕ → VaNodeAllocator → VaNodeAllocator
va_node_free index node = record node {
  next = set node.next index node.free_list;
  free_list = index;
}

-- A write to the `next` field of a node, by the code that owns the node.
pub set_next : ℕ → ℕ → VaNodeAllocator → VaNodeAllocator
set_next index value node = record node { next = set node.next index value }
