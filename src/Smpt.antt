-- ===== src/Smpt.antt =====
-- micscif/micscif_smpt.c and include/mic/micscif_smpt.h, the host side: the table that maps the 32
-- system pages of a board (16 GiB each) to host DMA addresses. The kernel's ALIGN is a parameter.
-- CONFIG_ML1OM is off. Board messages and register writes are kept in the order in which they are
-- made. A call runs under `smpt_lock`, so each is one step; reference counts do not reach int64_t's
-- end.
pub mod Pages
pub mod Window
pub mod Entries
pub mod Grant
pub mod Mapping
pub mod Leases
mod Examples
use intel_xeon_phi_kernel_dr.Common.{
  ℕ, zero, suc, ◌+◌, ◌-◌, ◌*◌, ◌/◌, ◌%◌, ◌^◌, ◌≡◌, min, Bool, true, false, not, ◌&&◌, Option, none,
  some, List, [], ◌∷◌, ◌++◌, length, get_or, set, ltb, leb, ◌==◌, if◌then◌else◌,
}
use intel_xeon_phi_kernel_dr.Common.Int.{ℤ, pos, negsuc, ◌+ℤ◌, ◌-ℤ◌}

-- `ALIGN(x, a)` of the kernel rounds up to a multiple of a power of two, in 64 bits.
pub record Align : Type 0 where
  pub align : ℕ → ℕ → ℕ
  pub align_lem : (k x : ℕ) → align x (2 ^ k) ≡ (x + 2 ^ k - 1) % 2 ^ 64 / 2 ^ k * 2 ^ k

abbrev pub page_size : ℕ
page_size = 0x0400000000

abbrev pub page_mask : ℕ
page_mask = page_size - 1

abbrev pub system_base : ℕ
system_base = 0x8000000000

abbrev pub num_smpt_entries : ℕ
num_smpt_entries = 32

abbrev pub u64 : ℕ → ℕ
u64 n = n % 2 ^ 64

-- `mic_smpt_t`
pub record Entry : Type 0 where
  pub dma_addr : ℕ
  pub ref_count : ℤ

pub data Family : Type 0 where
  family_unknown family_abr family_knc : Family

-- What a board is told: an SMPT_SET message, or a write to SBOX_SMPT00 + 4 * index.
pub data Event : Type 0 where
  smpt_set_msg : ℕ → ℕ → Event
  smpt_reg : ℕ → ℕ → Event

pub record Board : Type 0 where
  pub bi_family : Family
  pub mic_smpt : List Entry
  pub events : List Event

abbrev pub no_entry : Entry
no_entry = record { dma_addr = 0; ref_count = pos 0 }

abbrev pub is_zero : ℤ → Bool
is_zero (pos n) = n == 0
is_zero (negsuc n) = false

-- `BUILD_SMPT(SNOOP_ON, addr >> MIC_SYSTEM_PAGE_SHIFT)`: the two low bits of the shifted value are 0.
pub build_smpt : ℕ → ℕ
build_smpt addr = addr / page_size * 4 % 2 ^ 32

-- The write of `mic_smpt_set`.
pub mic_smpt_set : Board → ℕ → ℕ → Board
mic_smpt_set b addr index = record b { events = smpt_reg index (build_smpt addr) ∷ b.events }

-- Only on KNC the host writes the register when it fills or restores the table.
pub write_register : Family → Board → ℕ → ℕ → Board
write_register family_knc b addr i = mic_smpt_set b addr i
write_register family_abr b addr i = b
write_register family_unknown b addr i = b

-- A new entry is told by a message on ABR, and by the register otherwise.
tell : Family → Board → ℕ → ℕ → Board
tell family_abr b addr i = record b { events = smpt_set_msg addr i ∷ b.events }
tell family_knc b addr i = mic_smpt_set b addr i
tell family_unknown b addr i = mic_smpt_set b addr i

-- The entry and the board's register are set in the loop of `mic_smpt_init`.
pub init_entries : Board → ℕ → ℕ → Board
init_entries b zero i = b
init_entries b (suc n) i =
    let addr = i * page_size in
    let b' = write_register b.bi_family b addr i in
    init_entries
      (record b' { mic_smpt = b'.mic_smpt ++ (record { dma_addr = addr; ref_count = pos 0 } ∷ []) })
      n (i + 1)

pub mic_smpt_init : Board → Board
unfolding init_entries
mic_smpt_init b = init_entries (record b { mic_smpt = [] }) num_smpt_entries 0

restore_entries : Board → List Entry → ℕ → Board
restore_entries b [] i = b
restore_entries b (e ∷ es) i =
    let b' = write_register b.bi_family b e.dma_addr i in restore_entries b' es (i + 1)

pub mic_smpt_restore : Board → Board
unfolding restore_entries
mic_smpt_restore b = restore_entries b b.mic_smpt 0

-- One round of the loop of `add_smpt_entry`, at entry `i`.
pub add_one : Board → ℕ → ℕ → ℕ → Board
unfolding tell
add_one b i addr ref =
    let e = get_or b.mic_smpt i no_entry in
    let told = tell b.bi_family b addr i in
    if is_zero e.ref_count && not (e.dma_addr == addr)
    then record told {
      mic_smpt = set b.mic_smpt i (record { dma_addr = addr; ref_count = e.ref_count +ℤ pos ref });
    }
    else record b { mic_smpt = set b.mic_smpt i (record e { ref_count = e.ref_count +ℤ pos ref }) }

-- `ref` holds one count for each entry from `spt` on.
pub add_smpt_entry : ℕ → List ℕ → ℕ → Board → Board
add_smpt_entry spt [] addr b = b
add_smpt_entry spt (r ∷ rs) addr b =
    add_smpt_entry (spt + 1) rs (u64 (addr + page_size)) (add_one b spt addr r)

-- How the first loop of `smpt_op` ends: by `goto found` at an index, by `goto not_found`, or at its
-- end.
pub data Search : Type 0 where
  found : ℕ → Search
  not_found : Search
  ended : Search

pub find_existing : List Entry → ℕ → ℕ → ℕ → ℕ → Search
find_existing [] i ee addr entries = ended
find_existing (e ∷ es) i ee addr entries =
    let hit = e.dma_addr == addr in
    let ee' = if hit then ee + 1 else ee in
    let rest =
      find_existing es (i + 1) ee' (if hit then u64 (addr + page_size) else addr) entries in
    if not hit && not (ee == 0) then not_found else if ee' == entries then found i else rest

pub find_free : List Entry → ℕ → ℕ → ℕ → Search
find_free [] i fe entries = not_found
find_free (e ∷ es) i fe entries =
    let fe' = if is_zero e.ref_count then fe + 1 else 0 in
    let rest = find_free es (i + 1) fe' entries in if fe' == entries then found i else rest

-- Both searches, as far as a label is reached.
pub smpt_search : List Entry → ℕ → ℕ → Search
smpt_search es addr entries = elim (find_existing es 0 0 addr entries) [
  | found i ↦ found i
  | not_found ↦ not_found
  | ended ↦ find_free es 0 0 entries
]

pub smpt_op : ℕ → List ℕ → Board → ℕ × Board
smpt_op dma_addr ref b =
    let entries = length ref in
    elim (smpt_search b.mic_smpt dma_addr entries) [
      | found i ↦ (
        system_base + (i + 1 - entries) * page_size,
        add_smpt_entry (i + 1 - entries) ref dma_addr b,
      )
      | not_found ↦ (0, b)
      | ended ↦ (0, b)
    ]

abbrev pub prepend : ℕ → Option (List ℕ) → Option (List ℕ)
prepend n none = none
prepend n (some ns) = some (n ∷ ns)

abbrev pub max_system_addr : ℕ
max_system_addr = system_base + num_smpt_entries * page_size - 1

pub is_syspa : ℕ → Bool
is_syspa pa = leb system_base pa && leb pa max_system_addr

abbrev pub page_of : ℕ → ℕ
page_of mic_addr = (mic_addr - system_base) / page_size

pub mic_to_dma_addr : Board → ℕ → ℕ
mic_to_dma_addr b mic_addr =
    if is_syspa mic_addr
    then (get_or b.mic_smpt (page_of mic_addr) no_entry).dma_addr + mic_addr % page_size
    else 0

-- The loop of `mic_unmap`, from entry `i` on.
pub drop_refs : ℕ → List ℕ → Board → Board
drop_refs i [] b = b
drop_refs i (r ∷ rs) b =
    let e = get_or b.mic_smpt i no_entry in
    drop_refs (i + 1) rs
      (record b { mic_smpt = set b.mic_smpt i (record e { ref_count = e.ref_count -ℤ pos r }) })

module _ (a : Align) where
  abbrev pub smpt_align_high : ℕ → ℕ
  smpt_align_high x = a.align x page_size

  abbrev pub smpt_align_low : ℕ → ℕ
  smpt_align_low x = a.align (u64 (x + 2 ^ 64 - page_mask)) page_size

  -- The loop of `get_smpt_ref_count`; `room` is what is left of `ref[NUM_SMPT_ENTRIES_IN_USE]`, and
  -- `none` is a write past its end.
  pub ref_counts : ℕ → ℕ → ℕ → Option (List ℕ)
  ref_counts zero start end = if ltb start end then none else some []
  ref_counts (suc room) start end =
      let next = smpt_align_high (u64 (start + 1)) in
      let rest = ref_counts room next end in
      if ltb start end then prepend (min next end - start) rest else some []

  pub get_smpt_ref_count : ℕ → ℕ → Option (List ℕ)
  get_smpt_ref_count dma_addr size = ref_counts num_smpt_entries dma_addr (u64 (dma_addr + size))

  -- `none` is the write past the end of `ref`.
  pub mic_map : ℕ → ℕ → Board → Option (ℕ × Board)
  mic_map dma_addr size b =
      if size == 0 then some (0, b) else elim (get_smpt_ref_count dma_addr size) [
        | none ↦ none
        | some ref ↦
            (let (mic_addr, b') = smpt_op (smpt_align_low dma_addr) ref b in
              some ((if mic_addr == 0 then 0 else u64 (mic_addr + dma_addr % page_size)), b'))
      ]

  pub mic_unmap : ℕ → ℕ → Board → Option Board
  mic_unmap mic_addr size b =
      if size == 0
      then some b
      else if is_syspa mic_addr
      then elim (get_smpt_ref_count mic_addr size) [
        | none ↦ none
        | some ref ↦ some (drop_refs (page_of mic_addr) ref b)
      ]
      else some b
