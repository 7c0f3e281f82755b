-- ===== src/VaNodes/Owners.antt =====
-- Histories of the node allocator, and who owns each node.
use mathlib.Core.Option.{some-injective, none-ne-some}
use intel_xeon_phi_kernel_dr.Common.{
  ℕ, ◌+◌, ◌-◌, ◌*◌, ◌≤◌, ◌<◌, ◌≡◌, refl, sym, ap, ◌∙◌, subst, ◌⊎◌, inl, inr, true, false, none,
  some, List, [], ◌∷◌, ◌++◌, get_or, set, length, ◌==◌, length-set, length-append, get_or-set_self,
  Bool-cases, arith,
}
use intel_xeon_phi_kernel_dr.VaNodes.{
  VaNodeAllocator, Memory, invalid_va_node_index, nodes_in_slab, va_node_init, va_node_is_valid,
  va_node_realloc, new_slab, add_slab, va_node_grow, take_free, va_node_alloc, va_node_free,
  set_next,
}
use intel_xeon_phi_kernel_dr.VaNodes.Chain.{
  is, count, Chain, Chain-set, up_from, slab_first, within, count-up_from, length-new_slab,
  new_slab-Chain, Inv, init-Inv, take-Inv,
}

-- `Runs node owned`: calls have led from `va_node_init` to `node`, and the nodes `owned` were handed
-- out and not freed. An allocation may fail. Slabs are added while their indices stay below the invalid one; a node is
-- freed, and its `next` field written, by its owner.
pub data Runs : VaNodeAllocator → List ℕ → Type 0 where
  start : Runs va_node_init []
  alloc :
      {node node' : VaNodeAllocator} {owned : List ℕ} (mem : Memory) (index : ℕ)
      → Runs node owned
      → (node.num_slabs + 1) * nodes_in_slab ≤ invalid_va_node_index
      → va_node_alloc mem node ≡ (some index, node')
      → Runs node' (index ∷ owned)
  refuse :
      {node node' : VaNodeAllocator} {owned : List ℕ} (mem : Memory)
      → Runs node owned
      → va_node_alloc mem node ≡ (none, node')
      → Runs node' owned
  release :
      {node : VaNodeAllocator} (before : List ℕ) (index : ℕ) (after : List ℕ)
      → Runs node (before ++ index ∷ after)
      → Runs (va_node_free index node) (before ++ after)
  write :
      {node : VaNodeAllocator} (before : List ℕ) (index value : ℕ) (after : List ℕ)
      → Runs node (before ++ index ∷ after)
      → Runs (set_next index value node) (before ++ index ∷ after)

count-middle :
    (i : ℕ) (xs : List ℕ) (j : ℕ) (ys : List ℕ)
    → count i (xs ++ j ∷ ys) ≡ is i j + count i (xs ++ ys)
count-middle i [] j ys = refl
count-middle i (x ∷ xs) j ys = omega (arith, count-middle i xs j ys)

is_self : (i : ℕ) → is i i ≡ 1
is_self i = ground arith

within_le : (i lo hi : ℕ) → within i lo hi ≤ 1
within_le i lo hi = ground arith

within-join : (i m n : ℕ) → m ≤ n → within i 0 n ≡ within i 0 m + within i m n
within-join i m n h = ground arith

-- An owned node is in the array and not in the free list.
owned-apart :
    (node : VaNodeAllocator) (frees before : List ℕ) (i : ℕ) (after : List ℕ)
    → Inv node frees (before ++ i ∷ after)
    → (count i frees ≡ 0) × (i < length node.next)
owned-apart node frees before i after inv =
    let one : within i 0 (length node.next) ≡ 1 = omega (
      arith,
      inv.partition i,
      count-middle i before i after,
      is_self i,
      within_le i 0 (length node.next),
    ) in
    (
      omega (
        arith,
        inv.partition i,
        count-middle i before i after,
        is_self i,
        within_le i 0 (length node.next),
      ),
      ground (arith, one),
    )

free-Inv :
    (node : VaNodeAllocator) (frees before : List ℕ) (i : ℕ) (after : List ℕ)
    → Inv node frees (before ++ i ∷ after)
    → Inv (va_node_free i node) (i ∷ frees) (before ++ after)
unfolding va_node_free
free-Inv node frees before i after inv =
    let (absent, inside) = owned-apart node frees before i after inv in
    record {
      chain = (
        refl,
        (
          omega (arith, inside, length-set node.next i node.free_list),
          subst (λ k. Chain (set node.next i node.free_list) k frees)
              (sym (get_or-set_self node.next i node.free_list 0 inside))
              (Chain-set node.next node.free_list i node.free_list frees absent inv.chain),
        ),
      );
      partition = λ j.
          omega (arith, inv.partition j, count-middle j before i after)
          ∙ ap (within j 0) (sym (length-set node.next i node.free_list));
      size = length-set node.next i node.free_list ∙ inv.size;
      small = omega (arith, inv.small, length-set node.next i node.free_list);
    }

write-Inv :
    (node : VaNodeAllocator) (frees before : List ℕ) (i value : ℕ) (after : List ℕ)
    → Inv node frees (before ++ i ∷ after)
    → Inv (set_next i value node) frees (before ++ i ∷ after)
unfolding set_next
write-Inv node frees before i value after inv =
    let (absent, inside) = owned-apart node frees before i after inv in
    record {
      chain = Chain-set node.next node.free_list i value frees absent inv.chain;
      partition = λ j. inv.partition j ∙ ap (within j 0) (sym (length-set node.next i value));
      size = length-set node.next i value ∙ inv.size;
      small = omega (arith, inv.small, length-set node.next i value);
    }

-- What `va_node_grow` adds to an allocator without free nodes.
pub grown : VaNodeAllocator → ℕ → VaNodeAllocator
grown node free_slabs = record {
  next = node.next ++ new_slab 127 (node.num_slabs * nodes_in_slab) node.free_list;
  num_slabs = node.num_slabs + 1;
  num_free_slabs = free_slabs;
  free_list = node.num_slabs * nodes_in_slab;
}

-- Whether there is memory or not: a failure leaves all but the number of free slabs.
va_node_grow_cases :
    (mem : Memory) (node : VaNodeAllocator)
    → ((n : ℕ) × (va_node_grow mem node ≡ (false, record node { num_free_slabs = n })))
      ⊎ ((n : ℕ) × (va_node_grow mem node ≡ (true, grown node n)))
unfolding va_node_grow add_slab va_node_realloc grown
va_node_grow_cases mem node = elim (Bool-cases (node.num_free_slabs == 0)) [
  | inl y ↦ elim (Bool-cases mem.directory) [
    | inl z ↦ elim (Bool-cases mem.slab) [
      | inl w ↦ rw (y, z, w) (inr (2 * node.num_slabs + 1 - node.num_slabs - 1, refl))
      | inr w ↦ rw (y, z, w) (inl (2 * node.num_slabs + 1 - node.num_slabs, refl))
    ]
    | inr z ↦ rw (y, z) (inl (node.num_free_slabs, refl))
  ]
  | inr y ↦ elim (Bool-cases mem.slab) [
    | inl w ↦ rw (y, w) (inr (node.num_free_slabs - 1, refl))
    | inr w ↦ rw (y, w) (inl (node.num_free_slabs, refl))
  ]
]

grown-Inv :
    (node : VaNodeAllocator) (owned : List ℕ) (n : ℕ)
    → Inv node [] owned
    → (node.num_slabs + 1) * nodes_in_slab ≤ invalid_va_node_index
    → Inv (grown node n) (up_from 127 (node.num_slabs * nodes_in_slab)) owned
unfolding grown
grown-Inv node owned n inv room =
    let slab_end : node.num_slabs * nodes_in_slab + 127 + 1 ≡ (node.num_slabs + 1) * nodes_in_slab =
      omega arith in
    let longer : length (node.next ++ new_slab 127 (node.num_slabs * nodes_in_slab) node.free_list)
        ≡ (node.num_slabs + 1) * nodes_in_slab =
      length-append node.next (new_slab 127 (node.num_slabs * nodes_in_slab) node.free_list)
      ∙ omega
          (arith, inv.size, length-new_slab 127 (node.num_slabs * nodes_in_slab) node.free_list) in
    record {
      chain =
          subst
            (λ v.
              Chain (node.next ++ new_slab 127 (node.num_slabs * nodes_in_slab) v)
                (node.num_slabs * nodes_in_slab) (up_from 127 (node.num_slabs * nodes_in_slab)))
            (sym inv.chain)
            (new_slab-Chain 127 node.next (node.num_slabs * nodes_in_slab) inv.size);
      partition = λ i. omega (
        arith,
        count-up_from 127 (node.num_slabs * nodes_in_slab) i,
        inv.partition i,
        within-join i (node.num_slabs * nodes_in_slab) ((node.num_slabs + 1) * nodes_in_slab)
            (omega arith),
        ap (within i 0) inv.size,
        ap (within i 0) longer,
        ap (within i (node.num_slabs * nodes_in_slab)) slab_end,
      );
      size = longer;
      small = omega (arith, longer, room);
    }

-- Every allocation that succeeds takes a free node, of a new slab if there was none before.
alloc-Inv :
    (mem : Memory) (node node' : VaNodeAllocator) (frees owned : List ℕ) (index : ℕ)
    → Inv node frees owned
    → (node.num_slabs + 1) * nodes_in_slab ≤ invalid_va_node_index
    → va_node_alloc mem node ≡ (some index, node')
    → (frees' : List ℕ) × Inv node' frees' (index ∷ owned)
unfolding va_node_alloc va_node_is_valid take_free
alloc-Inv mem node node' (j ∷ js) owned index inv room got =
    let (first, inv') = take-Inv node j js owned inv in
    let valid : (node.free_list == invalid_va_node_index) ≡ false =
      ground (arith, first, inv.chain.1.0, inv.small) in
    let same = sym (rw (valid) refl) ∙ got in
    (
      js,
      subst (λ x. Inv x js (index ∷ owned)) (ap (λ p. p.1) same)
          (subst
            (λ i.
              Inv (record node { free_list = get_or node.next node.free_list 0 }) js (i ∷ owned))
            (sym first ∙ some-injective _ _ (ap (λ p. p.0) same)) inv'),
    )
alloc-Inv mem node node' [] owned index inv room got =
    let empty : (node.free_list == invalid_va_node_index) ≡ true = ground (arith, inv.chain) in
    let grow : take_free (va_node_grow mem node) ≡ (some index, node') =
      sym (rw (empty) refl) ∙ got in
    elim (va_node_grow_cases mem node) [
      | inl (n, e) ↦ absurd (none-ne-some index (ap (λ p. p.0) (ap take_free (sym e) ∙ grow)))
      | inr (n, e) ↦
          let (first, inv') =
            take-Inv (grown node n) (node.num_slabs * nodes_in_slab)
              (up_from 126 (node.num_slabs * nodes_in_slab + 1)) owned
              (subst (λ f. Inv (grown node n) f owned) (slab_first (node.num_slabs * nodes_in_slab))
                (grown-Inv node owned n inv room)) in
          let same = ap take_free (sym e) ∙ grow in
          (
            up_from 126 (node.num_slabs * nodes_in_slab + 1),
            subst (λ x. Inv x (up_from 126 (node.num_slabs * nodes_in_slab + 1)) (index ∷ owned))
                (ap (λ p. p.1) same)
                (subst
                  (λ i.
                    Inv
                      (record (grown node n) {
                        free_list = get_or (grown node n).next (grown node n).free_list 0;
                      })
                      (up_from 126 (node.num_slabs * nodes_in_slab + 1)) (i ∷ owned))
                  (sym first ∙ some-injective _ _ (ap (λ p. p.0) same)) inv'),
          )
    ]

free_slabs-Inv :
    (node : VaNodeAllocator) (frees owned : List ℕ) (n : ℕ)
    → Inv node frees owned
    → Inv (record node { num_free_slabs = n }) frees owned
free_slabs-Inv node frees owned n inv = record {
  chain = inv.chain;
  partition = inv.partition;
  size = inv.size;
  small = inv.small;
}

-- An allocation that fails leaves the nodes and the free list.
refuse-Inv :
    (mem : Memory) (node node' : VaNodeAllocator) (frees owned : List ℕ)
    → Inv node frees owned
    → va_node_alloc mem node ≡ (none, node')
    → Inv node' frees owned
unfolding va_node_alloc va_node_is_valid take_free
refuse-Inv mem node node' frees owned inv got =
    elim (Bool-cases (node.free_list == invalid_va_node_index)) [
      | inr valid ↦
          let taken : take_free (true, node) ≡ (none, node') = sym (rw (valid) refl) ∙ got in
          absurd (none-ne-some node.free_list (sym (ap (λ p. p.0) taken)))
      | inl empty ↦
          let grow : take_free (va_node_grow mem node) ≡ (none, node') =
            sym (rw (empty) refl) ∙ got in
          elim (va_node_grow_cases mem node) [
            | inl (n, e) ↦
                subst (λ x. Inv x frees owned) (ap (λ p. p.1) (ap take_free (sym e) ∙ grow))
                  (free_slabs-Inv node frees owned n inv)
            | inr (n, e) ↦ absurd (
                none-ne-some (grown node n).free_list
                  (sym (ap (λ p. p.0) (ap take_free (sym e) ∙ grow))))
          ]
    ]

Runs-Inv :
    {node : VaNodeAllocator} {owned : List ℕ}
    → Runs node owned
    → (frees : List ℕ) × Inv node frees owned
Runs-Inv start = ([], init-Inv)
Runs-Inv (alloc {node} {node'} {owned} mem index r room got) =
    let (frees, inv) = Runs-Inv r in alloc-Inv mem node node' frees owned index inv room got
Runs-Inv (refuse {node} {node'} {owned} mem r got) =
    let (frees, inv) = Runs-Inv r in (frees, refuse-Inv mem node node' frees owned inv got)
Runs-Inv (release {node} before index after r) =
    let (frees, inv) = Runs-Inv r in (index ∷ frees, free-Inv node frees before index after inv)
Runs-Inv (write {node} before index value after r) =
    let (frees, inv) = Runs-Inv r in (frees, write-Inv node frees before index value after inv)

-- After any history of calls, failed ones included, there is a list of nodes that the chain of the allocator runs through,
-- and every node of its slabs stands in it once and has no owner, or does not stand in it and has
-- exactly one owner; no other node is free or owned.
pub Runs-partition :
    {node : VaNodeAllocator} {owned : List ℕ}
    → Runs node owned
    → (frees : List ℕ) × (Chain node.next node.free_list frees
        × ((i : ℕ) → count i frees + count i owned ≡ within i 0 (length node.next)))
Runs-partition r = let (frees, inv) = Runs-Inv r in (frees, (inv.chain, inv.partition))
