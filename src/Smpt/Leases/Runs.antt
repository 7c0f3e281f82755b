-- ===== src/Smpt/Leases/Runs.antt =====
-- The boards and the mapped ranges that sequences of `mic_map` and `mic_unmap` calls lead to.
use mathlib.Core.Option.{some-injective}
use intel_xeon_phi_kernel_dr.Common.{
  ℕ, zero, suc, ◌+◌, ◌*◌, ◌%◌, ◌<◌, ◌≡◌, ◌≢◌, refl, sym, ap, ◌∙◌, subst, false, ◌&&◌, some, List,
  [], ◌∷◌, ◌++◌, length, length-append, get_or, leb, if◌then◌else◌, arith,
}
use intel_xeon_phi_kernel_dr.Common.Int.{pos, ◌+ℤ◌, ◌-ℤ◌, pos-add, pos-sub}
use intel_xeon_phi_kernel_dr.Smpt.{
  Align, Entry, Board, Family, family_abr, family_unknown, family_knc, page_size, system_base,
  num_smpt_entries, max_system_addr, page_of, no_entry, is_zero, is_syspa, drop_refs, mic_map,
  mic_unmap, mic_to_dma_addr, mic_smpt_init, init_entries, write_register, mic_smpt_set,
}
use intel_xeon_phi_kernel_dr.Smpt.Pages.{NoWrap}
use intel_xeon_phi_kernel_dr.Smpt.Entries.{entry, dropped, add_smpt_entry-length, drop_refs-length}
use intel_xeon_phi_kernel_dr.Smpt.Grant.{Granted, first_page, mic_map-Granted, mic_map-refused}
use intel_xeon_phi_kernel_dr.Smpt.Mapping.{translated, kept}
use intel_xeon_phi_kernel_dr.Smpt.Leases.Bytes.{bytes_mapped, total-bytes_mapped}
use intel_xeon_phi_kernel_dr.Smpt.Leases.{
  Lease, Translates, All, share, total, Lawful, share-used, mic_unmap-drops, given, given-Lawful,
  given-refs, dropped-entry,
}

-- `Runs a b ls`: from the table that `mic_smpt_init` leaves, calls of `mic_map` and `mic_unmap` have
-- led to board `b`, where the ranges `ls` are mapped. A range that is unmapped is one of these.
pub data Runs (a : Align) : Board → List Lease → Type 0 where
  start : (b : Board) → Runs a (mic_smpt_init b) []
  mapped :
      {b b' : Board} {ls : List Lease} (dma size m : ℕ)
      → Runs a b ls
      → 0 < size
      → NoWrap (dma + size)
      → mic_map a dma size b ≡ some (m, b')
      → m ≢ 0
      → Runs a b' (record { mic_addr = m; dma = dma; size = size } ∷ ls)
  refused :
      {b b' : Board} {ls : List Lease} (dma size : ℕ)
      → Runs a b ls
      → 0 < size
      → NoWrap (dma + size)
      → mic_map a dma size b ≡ some (0, b')
      → Runs a b' ls
  unmapped :
      {b b' : Board} (before : List Lease) (l : Lease) (after : List Lease)
      → Runs a b (before ++ l ∷ after)
      → mic_unmap a l.mic_addr l.size b ≡ some b'
      → Runs a b' (before ++ after)

-- The count of an entry is the number of bytes that the mapped ranges hold there.
pub record Inv (a : Align) (b : Board) (ls : List Lease) : Type 0 where
  pub full : length b.mic_smpt ≡ num_smpt_entries
  pub refs : (j : ℕ) → (entry b j).ref_count ≡ pos (total a ls j)
  pub lawful : All (Lawful a) ls
  pub translates : All (Translates b) ls

All-middle :
    (p : Lease → Type 0) (xs : List Lease) (l : Lease) (ys : List Lease)
    → All p (xs ++ l ∷ ys)
    → p l × All p (xs ++ ys)
unfolding All
All-middle p [] l ys h = h
All-middle p (x ∷ xs) l ys h = let (here, rest) = All-middle p xs l ys h.1 in (here, (h.0, rest))

total-middle :
    (a : Align) (xs : List Lease) (l : Lease) (ys : List Lease) (j : ℕ)
    → total a (xs ++ l ∷ ys) j ≡ share a l j + total a (xs ++ ys) j
unfolding total
total-middle a [] l ys j = refl
total-middle a (x ∷ xs) l ys j = omega (arith, total-middle a xs l ys j)

-- Ranges whose entries keep their pages are translated as before.
kept_translations :
    (a : Align) (b b' : Board) (ls : List Lease)
    → ((j : ℕ) → 0 < total a ls j → (entry b' j).dma_addr ≡ (entry b j).dma_addr)
    → All (Lawful a) ls
    → All (Translates b) ls
    → All (Translates b') ls
unfolding All total mic_to_dma_addr is_syspa
kept_translations a b b' [] keeps w t = t
kept_translations a b b' (l ∷ ls) keeps w t =
    (head, kept_translations a b b' ls (λ j h. keeps j (omega arith)) w.1 t.1)
  where
    head : Translates b' l
    head off h =
        ap
          (λ e.
            if leb system_base (l.mic_addr + off) && leb (l.mic_addr + off) max_system_addr
            then e + (l.mic_addr + off) % page_size
            else 0)
          (keeps (page_of (l.mic_addr + off)) (omega (arith, share-used a l w.0 off h)))
        ∙ t.0 off h

module _ (a : Align) (b b' : Board) (ls : List Lease) (inv : Inv a b ls) where
  in_use : (j : ℕ) → 0 < total a ls j → is_zero (entry b j).ref_count ≡ false
  in_use j h = rw (inv.refs j) (ground arith)

  mapped-Inv :
      (dma size m : ℕ)
      → 0 < size
      → NoWrap (dma + size)
      → mic_map a dma size b ≡ some (m, b')
      → m ≢ 0
      → Inv a b' (record { mic_addr = m; dma = dma; size = size } ∷ ls)
  unfolding All total given
  mapped-Inv dma size m sized ends got some_addr =
      let g : Granted a b b' dma size m =
        mic_map-Granted a dma size b b' m inv.full sized ends got some_addr in
      record {
        full =
            ap (λ x. length x.mic_smpt) g.result
            ∙ add_smpt_entry-length g.ref g.spt (first_page dma) b
            ∙ inv.full;
        refs = λ j.
            given-refs a b b' dma size m inv.full sized ends g j
            ∙ ap (λ c. c +ℤ pos (share a (given a b b' dma size m inv.full sized ends g) j))
                (inv.refs j)
            ∙ pos-add (total a ls j) (share a (given a b b' dma size m inv.full sized ends g) j);
        lawful = (given-Lawful a b b' dma size m inv.full sized ends g, inv.lawful);
        translates = (
          translated a b b' dma size m inv.full sized ends g,
          kept_translations a b b' ls
              (λ j h. kept a b b' dma size m inv.full sized ends g j (in_use j h)) inv.lawful
              inv.translates,
        );
      }

unmapped-Inv :
    (a : Align) (b b' : Board) (before : List Lease) (l : Lease) (after : List Lease)
    → Inv a b (before ++ l ∷ after)
    → mic_unmap a l.mic_addr l.size b ≡ some b'
    → Inv a b' (before ++ after)
unmapped-Inv a b b' before l after inv got = record {
  full =
      ap (λ x. length x.mic_smpt) (sym there)
      ∙ drop_refs-length w.ref (page_of l.mic_addr) b
      ∙ inv.full;
  refs = λ j.
      ap (λ e. e.ref_count) (at j)
      ∙ ap (λ c. c -ℤ pos (share a l j)) (inv.refs j ∙ ap pos (total-middle a before l after j))
      ∙ pos-sub (share a l j) (total a (before ++ after) j);
  lawful = (All-middle (Lawful a) before l after inv.lawful).1;
  translates =
      kept_translations a b b' (before ++ after) (λ j h. ap (λ e. e.dma_addr) (at j))
        (All-middle (Lawful a) before l after inv.lawful).1
        (All-middle (Translates b) before l after inv.translates).1;
}
  where
    w : Lawful a l
    w = (All-middle (Lawful a) before l after inv.lawful).0

    there : drop_refs (page_of l.mic_addr) w.ref b ≡ b'
    there = some-injective _ _ (sym (mic_unmap-drops a l w b) ∙ got)

    at : (j : ℕ) → entry b' j ≡ dropped (entry b j) (share a l j)
    at j = ap (λ x. entry x j) (sym there) ∙ dropped-entry a l w b inv.full j

-- No entry of a table is in use.
Idle : List Entry → Type 0
Idle es = (j : ℕ) → (get_or es j no_entry).ref_count ≡ pos 0

Idle-snoc :
    (es : List Entry) (addr : ℕ)
    → Idle es
    → Idle (es ++ (record { dma_addr = addr; ref_count = pos 0 } ∷ []))
unfolding Idle
Idle-snoc [] addr h zero = refl
Idle-snoc [] addr h (suc j) = refl
Idle-snoc (e ∷ es) addr h zero = h 0
Idle-snoc (e ∷ es) addr h (suc j) = Idle-snoc es addr (λ k. h (suc k)) j

write_register-table :
    (f : Family) (b : Board) (addr i : ℕ) → (write_register f b addr i).mic_smpt ≡ b.mic_smpt
unfolding write_register mic_smpt_set
write_register-table family_abr b addr i = refl
write_register-table family_knc b addr i = refl
write_register-table family_unknown b addr i = refl

init_entries-Idle :
    (n : ℕ) (b : Board) (i : ℕ)
    → Idle b.mic_smpt
    → (length (init_entries b n i).mic_smpt ≡ length b.mic_smpt + n)
      × Idle (init_entries b n i).mic_smpt
unfolding init_entries
init_entries-Idle zero b i h = (omega arith, h)
init_entries-Idle (suc n) b i h =
    let w : Board = write_register b.bi_family b (i * page_size) i in
    let es : List Entry =
      w.mic_smpt ++ (record { dma_addr = i * page_size; ref_count = pos 0 } ∷ []) in
    let same : w.mic_smpt ≡ b.mic_smpt = write_register-table b.bi_family b (i * page_size) i in
    let longer : length es ≡ length b.mic_smpt + 1 =
      length-append w.mic_smpt (record { dma_addr = i * page_size; ref_count = pos 0 } ∷ [])
      ∙ ap (λ x. length x + 1) same in
    let (len, idle) =
      init_entries-Idle n (record w { mic_smpt = es }) (i + 1)
        (Idle-snoc w.mic_smpt (i * page_size) (subst Idle (sym same) h)) in
    (len ∙ omega (arith, longer), idle)

init-Inv : (a : Align) (b : Board) → Inv a (mic_smpt_init b) []
unfolding mic_smpt_init All total Idle
init-Inv a b =
    let (len, idle) =
      init_entries-Idle num_smpt_entries (record b { mic_smpt = [] }) 0 (λ j. refl) in
    record { full = len; refs = idle; lawful = tt; translates = tt }

Runs-Inv : (a : Align) {b : Board} {ls : List Lease} → Runs a b ls → Inv a b ls
Runs-Inv a (start b) = init-Inv a b
Runs-Inv a (mapped {b} {b'} {ls} dma size m r sized ends got nonzero) =
    mapped-Inv a b b' ls (Runs-Inv a r) dma size m sized ends got nonzero
Runs-Inv a (refused {b} {b'} {ls} dma size r sized ends got) =
    subst (λ x. Inv a x ls)
      (sym (mic_map-refused a dma size b b' 0 (Runs-Inv a r).full sized ends refl got))
      (Runs-Inv a r)
Runs-Inv a (unmapped {b} {b'} before l after r got) =
    unmapped-Inv a b b' before l after (Runs-Inv a r) got

-- From the table that `mic_smpt_init` leaves, after any calls of `mic_map` for ranges of some bytes
-- that end a page before the end of the address space and any calls of `mic_unmap` for what is
-- mapped, every address of a range that is still mapped leads to the byte that was asked for.
pub Runs-Translates :
    (a : Align) {b : Board} {ls : List Lease} → Runs a b ls → All (Translates b) ls
Runs-Translates a r = (Runs-Inv a r).translates

-- After any such calls, of `mic_map` for ranges of some bytes that end a page before the end of the
-- address space and of `mic_unmap` for what is mapped, the count of every entry is the number of
-- addresses that the ranges still mapped have in the page of that entry, from `system_base` on.
pub Runs-counts :
    (a : Align) {b : Board} {ls : List Lease}
    → Runs a b ls
    → (j : ℕ) → (entry b j).ref_count ≡ pos (bytes_mapped ls j)
Runs-counts a {ls} r j =
    let inv = Runs-Inv a r in inv.refs j ∙ ap pos (total-bytes_mapped a ls inv.lawful j)
