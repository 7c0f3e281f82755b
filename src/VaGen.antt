-- ===== src/VaGen.antt =====
-- micscif/micscif_va_gen.c: the allocator of window addresses. The list of holes and the list of
-- claims, chained by node indices in the source, are lists here; `va_node_alloc` is taken to find
-- memory for a node, since the source stops at a BUG_ON when it does not. Pages have 4096 bytes.
pub mod Holes
pub mod Insert
pub mod Grants
pub mod Runs
pub mod Aligned
mod Examples
use intel_xeon_phi_kernel_dr.Common.{
  ℕ, zero, suc, ◌+◌, ◌-◌, ◌*◌, ◌/◌, ◌%◌, ◌^◌, ◌≡◌, Bool, true, false, not, ◌&&◌, ◌||◌, Option, none,
  some, List, [], ◌∷◌, ltb, leb, ◌==◌, if◌then◌else◌,
}

abbrev pub page_bytes : ℕ
page_bytes = 4096

abbrev pub invalid_va_page_index : ℕ
invalid_va_page_index = 0xff00000000000

abbrev pub invalid_va_gen_address : ℕ
invalid_va_gen_address = 0xff00000000000000

abbrev pub u64 : ℕ → ℕ
u64 n = n % 2 ^ 64

-- `struct va_node`, without the index of the next node.
pub record VaNode : Type 0 where
  pub base : ℕ
  pub range : ℕ

-- `struct va_gen_addr`; the bases of the nodes are pages, `base` is an address.
pub record VaGenAddr : Type 0 where
  pub hole_list : List VaNode
  pub claims_list : List VaNode
  pub base : ℕ

pub va_gen_init_internal : ℕ → List VaNode × List VaNode
va_gen_init_internal range = (record { base = 0; range = range } ∷ [], [])

-- First fit: the base of the hole, and the holes that are left.
pub first_fit : ℕ → List VaNode → ℕ × List VaNode
first_fit range [] = (invalid_va_page_index, [])
first_fit range (find ∷ nodes) =
    let (base, rest) = first_fit range nodes in
    if leb range find.range
    then (
      find.base,
      if find.range == range
          then nodes
          else record { base = u64 (find.base + range); range = find.range - range } ∷ nodes,
    )
    else (base, find ∷ rest)

pub va_gen_alloc_internal : ℕ → List VaNode → ℕ × List VaNode
va_gen_alloc_internal range holes =
    if range == 0 then (invalid_va_page_index, holes) else first_fit range holes

-- The node that has grown up to `end_range` swallows the next one if that starts there.
pub swallow_next : ℕ → VaNode → List VaNode → List VaNode
swallow_next end_range find [] = find ∷ []
swallow_next end_range find (next ∷ nodes) =
    if next.base == end_range
    then record find { range = u64 (find.range + next.range) } ∷ nodes
    else find ∷ next ∷ nodes

pub keep_node : VaNode → Option (List VaNode) → Option (List VaNode)
keep_node find none = none
keep_node find (some nodes) = some (find ∷ nodes)

-- `none` is the result -1.
pub va_gen_insert_and_coalesce : ℕ → ℕ → List VaNode → Option (List VaNode)
va_gen_insert_and_coalesce base range [] = some (record { base = base; range = range } ∷ [])
va_gen_insert_and_coalesce base range (find ∷ nodes) =
    let end_range = u64 (base + range) in
    let overlap =
      if ltb find.base base
      then ltb base (u64 (find.base + find.range))
      else ltb find.base end_range in
    let rest = va_gen_insert_and_coalesce base range nodes in
    if overlap
    then none
    else if end_range == find.base
    then some (record { base = base; range = u64 (find.range + range) } ∷ nodes)
    else if u64 (find.base + find.range) == base
    then some (swallow_next end_range (record find { range = u64 (find.range + range) }) nodes)
    else if ltb end_range find.base
    then some (record { base = base; range = range } ∷ find ∷ nodes)
    else keep_node find rest

-- The claims that are left when `range` pages from `base` on are no longer claimed.
pub free_in_claims : ℕ → ℕ → List VaNode → List VaNode
free_in_claims base range [] = []
free_in_claims base range (node ∷ nodes) =
    let rest = free_in_claims base range nodes in
    let node_end = u64 (node.base + node.range) in
    let end_range = u64 (base + range) in
    if leb node.base base && leb end_range node_end
    then if node.base == base
      then if node.range == range
        then nodes
        else record { base = end_range; range = u64 (node.range + 2 ^ 64 - range) } ∷ nodes
      else if node_end == end_range
      then record node { range = u64 (node.range + 2 ^ 64 - range) } ∷ nodes
      else record node { range = base - node.base }
        ∷ record { base = end_range; range = u64 (node.range + 2 ^ 64 - end_range) }
        ∷ nodes
    else if ltb end_range node.base
    then node ∷ nodes
    else if if ltb node.base base then ltb base node_end else ltb node.base end_range
    then node ∷ nodes
    else node ∷ rest

pub va_gen_free_claim : ℕ → ℕ → List VaNode → List VaNode
va_gen_free_claim base range claims =
    if range == 0 then claims else free_in_claims base range claims

-- A result -1 stops the kernel at a BUG_ON: `none`.
pub va_gen_free_internal : ℕ → ℕ → List VaNode → Option (List VaNode)
va_gen_free_internal base range holes = va_gen_insert_and_coalesce base range holes

-- The pages behind an allocation that was made larger for its alignment; `base` is the aligned base
-- as well.
pub free_behind : ℕ → ℕ → ℕ → List VaNode → Option (ℕ × List VaNode)
free_behind base range unit_align holes =
    let behind = u64 (base + range) in
    let end = u64 (base + unit_align + 2 ^ 64 - 1) in
    if ltb behind end
    then elim (va_gen_free_internal behind (u64 (end + 2 ^ 64 - behind)) holes) [
      | none ↦ none
      | some holes' ↦ some (base, holes')
    ]
    else some (base, holes)

pub va_gen_alloc_aligned : ℕ → ℕ → List VaNode → Option (ℕ × List VaNode)
va_gen_alloc_aligned range unit_align holes =
    let (base, rest) = va_gen_alloc_internal (u64 (range + unit_align + 2 ^ 64 - 1)) holes in
    if (range == 0) || (unit_align == 0)
    then some (invalid_va_page_index, rest)
    else if (unit_align == 1) || (base == invalid_va_page_index)
    then some (base, rest)
    else free_behind base range unit_align rest

pub va_gen_claim_internal : ℕ → ℕ → List VaNode → Option (List VaNode)
va_gen_claim_internal base range claims = va_gen_insert_and_coalesce base range claims

pub pages : ℕ → ℕ
pages num_bytes = u64 (page_bytes - 1 + num_bytes) / page_bytes

-- The address of the page that was found.
pub address_of : VaGenAddr → Option (ℕ × List VaNode) → Option (ℕ × VaGenAddr)
address_of addr none = none
address_of addr (some (index, holes)) = some (
  if index == invalid_va_page_index
      then invalid_va_gen_address
      else u64 (u64 (index * page_bytes) + addr.base),
  record addr { hole_list = holes },
)

pub va_gen_alloc : ℕ → ℕ → VaGenAddr → Option (ℕ × VaGenAddr)
va_gen_alloc num_bytes align_bytes addr =
    if ltb align_bytes page_bytes
    then some (invalid_va_gen_address, addr)
    else if ltb (0xffffffff * page_bytes) num_bytes
    then some (invalid_va_gen_address, addr)
    else address_of addr (
        va_gen_alloc_aligned (pages num_bytes) (align_bytes / page_bytes % 0xffffffff)
          addr.hole_list)

pub va_gen_claim : ℕ → ℕ → VaGenAddr → ℕ × VaGenAddr
va_gen_claim address num_bytes addr =
    if ltb addr.base (u64 (address + num_bytes))
    then (invalid_va_gen_address, addr)
    else if not (address % page_bytes == 0)
    then (invalid_va_gen_address, addr)
    else elim (va_gen_claim_internal (address / page_bytes) (pages num_bytes) addr.claims_list) [
      | none ↦ (invalid_va_gen_address, addr)
      | some claims ↦ (address, record addr { claims_list = claims })
    ]

pub va_gen_free : ℕ → ℕ → VaGenAddr → Option VaGenAddr
va_gen_free address num_bytes addr =
    if leb addr.base address
    then elim (va_gen_free_internal ((address - addr.base) / page_bytes) (pages num_bytes)
        addr.hole_list) [ none ↦ none | some holes ↦ some (record addr { hole_list = holes }) ]
    else some (record addr {
      claims_list = va_gen_free_claim (address / page_bytes) (pages num_bytes) addr.claims_list;
    })

pub va_gen_init : ℕ → ℕ → VaGenAddr
va_gen_init base range =
    let (holes, claims) = va_gen_init_internal (range / page_bytes) in
    record { hole_list = holes; claims_list = claims; base = base }
