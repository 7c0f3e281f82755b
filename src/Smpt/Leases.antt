-- ===== src/Smpt/Leases.antt =====
-- The ranges that are mapped at one time, and the bytes that each of them holds at the entries
-- of the table.
pub mod Bytes
pub mod Runs
pub mod Calls
pub mod Single
use mathlib.Core.Path.{ap₂}
use mathlib.Core.Option.{some-injective}
use intel_xeon_phi_kernel_dr.Common.{
  ℕ, zero, suc, ◌+◌, ◌-◌, ◌*◌, ◌/◌, ◌%◌, ◌^◌, ◌≤◌, ◌<◌, ◌≡◌, ◌≢◌, refl, sym, ap, ◌∙◌, subst, ◌⊎◌,
  inl, inr, Bool, true, false, Option, none, some, List, [], ◌∷◌, ◌++◌, length, get_or, ltb, leb,
  ◌==◌, le→leb, le→ltb_false, lt→ltb, if◌then◌else◌, arith,
}
use intel_xeon_phi_kernel_dr.Common.Int.{ℤ, pos, ◌+ℤ◌, ◌-ℤ◌, +ℤ_zero, -ℤ_zero, pos-add, pos-sub}
use intel_xeon_phi_kernel_dr.Smpt.{
  Align, Entry, Board, page_size, system_base, num_smpt_entries, max_system_addr, page_of, u64,
  no_entry, is_zero, is_syspa, add_smpt_entry, drop_refs, get_smpt_ref_count, mic_map, mic_unmap,
  mic_to_dma_addr, mic_smpt_init,
}
use intel_xeon_phi_kernel_dr.Smpt.Pages.{NoWrap, Covers}
use intel_xeon_phi_kernel_dr.Smpt.Entries.{
  entry, updated, dropped, updated_refs, add_smpt_entry-length, add_smpt_entry-below,
  add_smpt_entry-beyond, add_smpt_entry-within, drop_refs-below, drop_refs-beyond, drop_refs-within,
}
use intel_xeon_phi_kernel_dr.Smpt.Grant.{
  first_page, Granted, counts-Covers, mic_map-Granted, mic_map-refused,
}
use intel_xeon_phi_kernel_dr.Smpt.Mapping.{Place, place, translated, kept, counts_there}

-- A range that a caller has mapped: the address it was given, and what it asked for.
pub record Lease : Type 0 where
  pub mic_addr : ℕ
  pub dma : ℕ
  pub size : ℕ

-- Every address of the lease leads to its byte.
abbrev pub Translates : Board → Lease → Type 0
Translates b l = (off : ℕ) → off < l.size → mic_to_dma_addr b (l.mic_addr + off) ≡ l.dma + off

pub All : (Lease → Type 0) → List Lease → Type 0
All p [] = Unit
All p (l ∷ ls) = p l × All p ls

list_or_nil : Option (List ℕ) → List ℕ
list_or_nil none = []
list_or_nil (some ns) = ns

-- The bytes that a lease holds at entry `j`.
pub share : Align → Lease → ℕ → ℕ
share a l j =
    if ltb j (page_of l.mic_addr)
    then 0
    else get_or (list_or_nil (get_smpt_ref_count a l.mic_addr l.size)) (j - page_of l.mic_addr) 0

pub total : Align → List Lease → ℕ → ℕ
total a [] j = 0
total a (l ∷ ls) j = share a l j + total a ls j

-- What is known of a lease from the time it was given.
pub record Lawful (a : Align) (l : Lease) : Type 0 where
  pub sized : 0 < l.size
  pub ref : List ℕ
  pub counts : get_smpt_ref_count a l.mic_addr l.size ≡ some ref
  pub base : system_base ≤ l.mic_addr
  pub room : page_of l.mic_addr + length ref ≤ num_smpt_entries
  pub enough : l.mic_addr % page_size + l.size ≤ length ref * page_size
  pub used : (k : ℕ) → k < length ref → 0 < get_or ref k 0

module _ (a : Align) (l : Lease) (w : Lawful a l) where
  share-below : (j : ℕ) → j < page_of l.mic_addr → share a l j ≡ 0
  unfolding share
  share-below j h = rw (lt→ltb j (page_of l.mic_addr) h) refl

  pub share-within : (k : ℕ) → share a l (page_of l.mic_addr + k) ≡ get_or w.ref k 0
  unfolding share list_or_nil
  share-within k =
      rw (le→ltb_false (page_of l.mic_addr + k) (page_of l.mic_addr) (omega arith), w.counts)
        (ap (λ i. get_or w.ref i 0) (omega arith))

  pub share-used : (off : ℕ) → off < l.size → 0 < share a l (page_of (l.mic_addr + off))
  share-used off h =
      subst (λ j. 0 < share a l j) there
        (subst (λ n. 0 < n) (sym (share-within page)) (w.used page lt))
    where
      page : ℕ
      page = (l.mic_addr % page_size + off) / page_size

      lt : page < length w.ref
      lt = omega (arith, w.enough)

      there : page_of l.mic_addr + page ≡ page_of (l.mic_addr + off)
      there = omega (arith, w.base)

  pub mic_unmap-drops :
      (b : Board) → mic_unmap a l.mic_addr l.size b ≡ some (drop_refs (page_of l.mic_addr) w.ref b)
  unfolding mic_unmap is_syspa
  mic_unmap-drops b = rw (sized, low, high, w.counts) refl
    where
      sized : (l.size == 0) ≡ false
      sized = ground (arith, w.sized)

      low : leb system_base l.mic_addr ≡ true
      low = le→leb system_base l.mic_addr w.base

      nonempty : 0 < length w.ref
      nonempty = omega (arith, w.enough, w.sized)

      high : leb l.mic_addr max_system_addr ≡ true
      high = le→leb l.mic_addr max_system_addr (omega (arith, w.base, w.room, nonempty))

get_or-beyond : (xs : List ℕ) (k : ℕ) → length xs ≤ k → get_or xs k 0 ≡ 0
get_or-beyond [] k h = refl
get_or-beyond (x ∷ xs) zero h = absurd (omega arith)
get_or-beyond (x ∷ xs) (suc k) h = get_or-beyond xs k (omega arith)

pub share-outside :
    (a : Align) (l : Lease) (w : Lawful a l) (j : ℕ)
    → (j < page_of l.mic_addr) ⊎ (page_of l.mic_addr + length w.ref ≤ j)
    → share a l j ≡ 0
share-outside a l w j (inl h) = share-below a l w j h
share-outside a l w j (inr h) =
    ap (share a l) (omega arith)
    ∙ share-within a l w (j - page_of l.mic_addr)
    ∙ get_or-beyond w.ref (j - page_of l.mic_addr) (omega arith)

module _ (a : Align) (b b' : Board) (dma size m : ℕ) (full : length b.mic_smpt ≡ num_smpt_entries)
    (sized : 0 < size) (ends : NoWrap (dma + size)) (g : Granted a b b' dma size m) where
  pub given : Lease
  given = record { mic_addr = m; dma = dma; size = size }

  page_given : page_of m ≡ g.spt
  page_given = omega (arith, g.address)

  pub given-Lawful : Lawful a given
  unfolding given
  given-Lawful = record {
    sized = sized;
    ref = g.ref;
    counts = counts_there a b b' dma size m full sized ends g;
    base = omega (arith, g.address);
    room = omega (arith, page_given, g.room);
    enough = omega (
      arith,
      g.address,
      (counts-Covers a dma size b b' m full sized ends g.ref g.counts).enough (omega arith),
    );
    used = (counts-Covers a dma size b b' m full sized ends g.ref g.counts).used;
  }

  -- Every entry's count grows by the lease's share.
  pub given-refs : (j : ℕ) → (entry b' j).ref_count ≡ (entry b j).ref_count +ℤ pos (share a given j)
  unfolding given given-Lawful
  given-refs j = elim (place g.spt (length g.ref) j) [
    | inl (inl below) ↦
        ap (λ x. (entry x j).ref_count) g.result
        ∙ ap (λ e. e.ref_count) (add_smpt_entry-below g.ref g.spt (first_page dma) b j below)
        ∙ unshared (inl (omega (arith, page_given)))
    | inl (inr beyond) ↦
        ap (λ x. (entry x j).ref_count) g.result
        ∙ ap (λ e. e.ref_count) (add_smpt_entry-beyond g.ref g.spt (first_page dma) b j beyond)
        ∙ unshared (inr (omega (arith, page_given)))
    | inr (k, (lt, at)) ↦
        ap (λ x. (entry x j).ref_count) g.result
        ∙ ap (λ i. (entry (add_smpt_entry g.spt g.ref (first_page dma) b) i).ref_count) (sym at)
        ∙ ap (λ e. e.ref_count)
            (add_smpt_entry-within g.ref g.spt (first_page dma) b k (omega arith)
              (omega (arith, full, g.room)) lt)
        ∙ updated_refs (entry b (g.spt + k)) (u64 (first_page dma + k * page_size))
            (get_or g.ref k 0)
        ∙ ap₂ (λ i r. (entry b i).ref_count +ℤ pos r) at
            (sym (share-within a given given-Lawful k)
              ∙ ap (share a given) (omega (arith, page_given, at)))
  ]
    where
      unshared :
          (j < page_of m) ⊎ (page_of m + length g.ref ≤ j)
          → (entry b j).ref_count ≡ (entry b j).ref_count +ℤ pos (share a given j)
      unshared out =
          sym (+ℤ_zero (entry b j).ref_count)
          ∙ ap (λ r. (entry b j).ref_count +ℤ pos r)
              (sym (share-outside a given given-Lawful j out))

module _ (a : Align) (l : Lease) (w : Lawful a l) (b : Board)
    (full : length b.mic_smpt ≡ num_smpt_entries) where
  pub dropped-entry :
      (j : ℕ) → entry (drop_refs (page_of l.mic_addr) w.ref b) j ≡ dropped (entry b j) (share a l j)
  dropped-entry j = elim (place (page_of l.mic_addr) (length w.ref) j) [
    | inl (inl below) ↦ drop_refs-below w.ref (page_of l.mic_addr) b j below ∙ unshared (inl below)
    | inl (inr beyond) ↦
        drop_refs-beyond w.ref (page_of l.mic_addr) b j beyond ∙ unshared (inr beyond)
    | inr (k, (lt, at)) ↦
        ap (entry (drop_refs (page_of l.mic_addr) w.ref b)) (sym at)
        ∙ drop_refs-within w.ref (page_of l.mic_addr) b k (omega (arith, full, w.room)) lt
        ∙ ap₂ (λ i r. dropped (entry b i) r) at (sym (share-within a l w k) ∙ ap (share a l) at)
  ]
    where
      unshared :
          (j < page_of l.mic_addr) ⊎ (page_of l.mic_addr + length w.ref ≤ j)
          → entry b j ≡ dropped (entry b j) (share a l j)
      unshared out =
          ap (λ c. record (entry b j) { ref_count = c }) (sym (-ℤ_zero (entry b j).ref_count))
          ∙ ap (dropped (entry b j)) (sym (share-outside a l w j out))
