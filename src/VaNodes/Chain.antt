-- ===== src/VaNodes/Chain.antt =====
-- The free list of the nodes, and what each operation does to it.
use mathlib.Core.List.{append_assoc}
use intel_xeon_phi_kernel_dr.Common.{
  ℕ, zero, suc, ◌+◌, ◌*◌, ◌≤◌, ◌<◌, ◌≡◌, ◌≢◌, refl, sym, ap, ◌∙◌, subst, ◌&&◌, List, [], ◌∷◌, ◌++◌,
  get_or, set, length, ltb, leb, ◌==◌, length-set, length-append, get_or-set_ne, if◌then◌else◌,
  arith,
}
use intel_xeon_phi_kernel_dr.VaNodes.{
  VaNodeAllocator, invalid_va_node_index, nodes_in_slab, va_node_init, new_slab,
}

-- 1 for the node itself, 0 for another.
abbrev pub is : ℕ → ℕ → ℕ
is i j = if i == j then 1 else 0

-- How often node `i` stands in a list.
abbrev pub count : ℕ → List ℕ → ℕ
count i [] = 0
count i (j ∷ js) = is i j + count i js

-- The free list, from the node at `index` on, is `free`.
abbrev pub Chain : List ℕ → ℕ → List ℕ → Type 0
Chain next index [] = index ≡ invalid_va_node_index
Chain next index (j ∷ js) = (index ≡ j) × ((j < length next) × Chain next (get_or next j 0) js)

-- A write to a node that is not in the chain.
pub Chain-set :
    (next : List ℕ) (index i v : ℕ) (free : List ℕ)
    → count i free ≡ 0
    → Chain next index free
    → Chain (set next i v) index free
Chain-set next index i v [] h c = c
Chain-set next index i v (j ∷ js) h c =
    let apart : i ≢ j = ground (arith, h) in
    (
      c.0,
      (
        omega (arith, length-set next i v, c.1.0),
        subst (λ k. Chain (set next i v) k js) (sym (get_or-set_ne next v 0 apart))
            (Chain-set next (get_or next j 0) i v js (omega (arith, h)) c.1.1),
      ),
    )

get_or-append_at : (xs : List ℕ) (y : ℕ) (ys : List ℕ) → get_or (xs ++ y ∷ ys) (length xs) 0 ≡ y
get_or-append_at [] y ys = refl
get_or-append_at (x ∷ xs) y ys = get_or-append_at xs y ys

-- The indices of a new slab.
pub up_from : ℕ → ℕ → List ℕ
up_from zero index = index ∷ []
up_from (suc n) index = index ∷ up_from n (index + 1)

pub slab_first : (index : ℕ) → up_from 127 index ≡ index ∷ up_from 126 (index + 1)
unfolding up_from
slab_first index = refl

abbrev pub within : ℕ → ℕ → ℕ → ℕ
within i lo hi = if leb lo i && ltb i hi then 1 else 0

pub count-up_from : (n index i : ℕ) → count i (up_from n index) ≡ within i index (index + n + 1)
unfolding up_from
count-up_from zero index i = ground arith
count-up_from (suc n) index i = ground (arith, count-up_from n (index + 1) i)

pub length-new_slab : (n index v : ℕ) → length (new_slab n index v) ≡ n + 1
unfolding new_slab
length-new_slab zero index v = omega arith
length-new_slab (suc n) index v = omega (arith, length-new_slab n (index + 1) v)

pub new_slab-Chain :
    (n : ℕ) (pre : List ℕ) (index : ℕ)
    → length pre ≡ index
    → Chain (pre ++ new_slab n index invalid_va_node_index) index (up_from n index)
unfolding new_slab up_from
new_slab-Chain zero pre index e = (
  refl,
  (
    omega (arith, e, length-append pre (invalid_va_node_index ∷ [])),
    ap (λ k. get_or (pre ++ invalid_va_node_index ∷ []) k 0) (sym e)
        ∙ get_or-append_at pre invalid_va_node_index [],
  ),
)
new_slab-Chain (suc n) pre index e =
    let rest : List ℕ = new_slab n (index + 1) invalid_va_node_index in
    let whole : (pre ++ ((index + 1) ∷ [])) ++ rest ≡ pre ++ ((index + 1) ∷ rest) =
      append_assoc pre ((index + 1) ∷ []) rest in
    let long : length (pre ++ ((index + 1) ∷ [])) ≡ index + 1 =
      length-append pre ((index + 1) ∷ []) ∙ omega (arith, e) in
    let there : get_or (pre ++ ((index + 1) ∷ rest)) index 0 ≡ index + 1 =
      ap (λ k. get_or (pre ++ ((index + 1) ∷ rest)) k 0) (sym e)
      ∙ get_or-append_at pre (index + 1) rest in
    (
      refl,
      (
        omega (arith, e, length-append pre ((index + 1) ∷ rest)),
        subst (λ k. Chain (pre ++ ((index + 1) ∷ rest)) k (up_from n (index + 1))) (sym there)
            (subst (λ t. Chain t (index + 1) (up_from n (index + 1))) whole
              (new_slab-Chain n (pre ++ ((index + 1) ∷ [])) (index + 1) long)),
      ),
    )

-- Every node is free or owned, once: `free` is the free list, and `owned` the nodes handed out.
pub record Inv (node : VaNodeAllocator) (free owned : List ℕ) : Type 0 where
  pub chain : Chain node.next node.free_list free
  pub partition : (i : ℕ) → count i free + count i owned ≡ within i 0 (length node.next)
  pub size : length node.next ≡ node.num_slabs * nodes_in_slab
  pub small : length node.next ≤ invalid_va_node_index

pub init-Inv : Inv va_node_init [] []
unfolding va_node_init
init-Inv = record { chain = refl; partition = λ i. ground arith; size = refl; small = omega arith }

-- The first node of a free list that is not empty.
pub take-Inv :
    (node : VaNodeAllocator) (j : ℕ) (js owned : List ℕ)
    → Inv node (j ∷ js) owned
    → (node.free_list ≡ j)
      × Inv (record node { free_list = get_or node.next node.free_list 0 }) js (j ∷ owned)
take-Inv node j js owned inv = (
  inv.chain.0,
  record {
    chain = subst (λ k. Chain node.next (get_or node.next k 0) js) (sym inv.chain.0) inv.chain.1.1;
    partition = λ i. omega (arith, inv.partition i);
    size = inv.size;
    small = inv.small;
  },
)
