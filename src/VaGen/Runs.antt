-- ===== src/VaGen/Runs.antt =====
-- Histories of `va_gen_alloc`, for whole pages, and `va_gen_free`.
use mathlib.Core.Option.{some-injective}
use intel_xeon_phi_kernel_dr.Common.{
  ℕ, ◌+◌, ◌-◌, ◌*◌, ◌/◌, ◌<◌, ◌≡◌, ◌≢◌, refl, sym, ap, ◌∙◌, subst, inl, inr, true, some, List, [],
  ◌∷◌, ◌++◌, ltb, leb, le→leb, ltb→lt, Bool-cases, arith,
}
use intel_xeon_phi_kernel_dr.VaGen.{
  VaNode, VaGenAddr, u64, page_bytes, invalid_va_gen_address, pages, va_gen_alloc, va_gen_free,
  va_gen_free_internal, va_gen_init, va_gen_insert_and_coalesce,
}
use intel_xeon_phi_kernel_dr.VaGen.Holes.{at, held, Taken}
use intel_xeon_phi_kernel_dr.VaGen.Insert.{insert_lem}
use intel_xeon_phi_kernel_dr.VaGen.Grants.{
  Grant, owners, Window, Inv, Outcome, nothing, page, at_le, va_gen_alloc-Outcome, AllGiven-middle,
  owners-middle, init-Inv,
}

-- `Runs base range st gs`: calls have led from `va_gen_init base range` to the state `st`, and the
-- grants `gs` have not been freed. What is freed is one of them.
pub data Runs (base range : ℕ) : VaGenAddr → List Grant → Type 0 where
  start : Runs base range (va_gen_init base range) []
  alloc :
      {st st' : VaGenAddr} {gs : List Grant} (num_bytes address : ℕ)
      → Runs base range st gs
      → va_gen_alloc num_bytes page_bytes st ≡ some (address, st')
      → address ≢ invalid_va_gen_address
      → Runs base range st' (record { address = address; num_bytes = num_bytes } ∷ gs)
  refuse :
      {st st' : VaGenAddr} {gs : List Grant} (num_bytes : ℕ)
      → Runs base range st gs
      → va_gen_alloc num_bytes page_bytes st ≡ some (invalid_va_gen_address, st')
      → Runs base range st' gs
  free :
      {st st' : VaGenAddr} (before : List Grant) (g : Grant) (after : List Grant)
      → Runs base range st (before ++ g ∷ after)
      → va_gen_free g.address g.num_bytes st ≡ some st'
      → Runs base range st' (before ++ after)

module _ (base range : ℕ) (w : Window base range) where
  held_lt :
      {st : VaGenAddr} {gs : List Grant}
      → Inv base range st gs
      → (x : ℕ) → 0 < held x st.hole_list
      → x < range / page_bytes
  held_lt inv x h = elim (Bool-cases (ltb x (range / page_bytes))) [
    | inl y ↦ ltb→lt x (range / page_bytes) y
    | inr y ↦
        let out : at x 0 (range / page_bytes) ≡ 0 = ground arith in
        absurd (omega (arith, out, inv.balance x))
  ]

  outcome :
      (st : VaGenAddr) (gs : List Grant) (num_bytes : ℕ)
      → Inv base range st gs
      → Outcome num_bytes st (va_gen_alloc num_bytes page_bytes st)
  outcome st gs num_bytes inv =
      va_gen_alloc-Outcome num_bytes st inv.sorted
        (λ x h. omega (arith, held_lt inv x h, w.indices))

  -- The page that was found, as an address of the window.
  page_address :
      (st : VaGenAddr) (gs : List Grant) (index n : ℕ) (holes : List VaNode)
      → Inv base range st gs
      → 0 < n
      → Taken n 0 index st.hole_list holes
      → (u64 (u64 (index * page_bytes) + st.base) ≡ index * page_bytes + base)
        × (index * page_bytes + base < invalid_va_gen_address)
  page_address st gs index n holes inv more t =
      let one : at index index n ≡ 1 = ground (arith, more) in
      let small : index < range / page_bytes =
        held_lt inv index (omega (arith, t.pages index, one)) in
      (omega (arith, small, w.addresses, inv.based), omega (arith, small, w.addresses))

  page-Inv :
      (st : VaGenAddr) (gs : List Grant) (num_bytes address index : ℕ) (holes : List VaNode)
      → Inv base range st gs
      → 0 < pages num_bytes
      → Taken (pages num_bytes) 0 index st.hole_list holes
      → address ≡ index * page_bytes + base
      → Inv base range
          (record st { hole_list = holes })
          (record { address = address; num_bytes = num_bytes } ∷ gs)
  page-Inv st gs num_bytes address index holes inv more t there =
      let back : (address - base) / page_bytes ≡ index = omega (arith, there) in
      record {
        based = inv.based;
        sorted = t.sorted;
        balance = λ x.
            ap (λ i. held x holes + (at x i (pages num_bytes) + owners base gs x)) back
            ∙ omega (arith, t.pages x, inv.balance x);
        given = (
          record {
            above = omega (arith, there);
            nonempty = more;
            ends = omega (arith, back, t.inside);
          },
          inv.given,
        );
      }

  alloc-Inv :
      (st st' : VaGenAddr) (gs : List Grant) (num_bytes address : ℕ)
      → Inv base range st gs
      → va_gen_alloc num_bytes page_bytes st ≡ some (address, st')
      → address ≢ invalid_va_gen_address
      → Inv base range st' (record { address = address; num_bytes = num_bytes } ∷ gs)
  alloc-Inv st st' gs num_bytes address inv got valid = by_outcome (outcome st gs num_bytes inv)
    where
      by_outcome :
          Outcome num_bytes st (va_gen_alloc num_bytes page_bytes st)
          → Inv base range st' (record { address = address; num_bytes = num_bytes } ∷ gs)
      by_outcome (nothing e) =
          absurd (valid (sym (ap (λ p. p.0) (some-injective _ _ (sym e ∙ got)))))
      by_outcome (page index holes e more t) =
          let same = some-injective _ _ (sym e ∙ got) in
          let (reached, inside) = page_address st gs index (pages num_bytes) holes inv more t in
          subst (λ x. Inv base range x (record { address = address; num_bytes = num_bytes } ∷ gs))
            (ap (λ p. p.1) same)
            (page-Inv st gs num_bytes address index holes inv more t
              (sym (ap (λ p. p.0) same) ∙ reached))

  refuse-Inv :
      (st st' : VaGenAddr) (gs : List Grant) (num_bytes : ℕ)
      → Inv base range st gs
      → va_gen_alloc num_bytes page_bytes st ≡ some (invalid_va_gen_address, st')
      → st' ≡ st
  refuse-Inv st st' gs num_bytes inv got = by_outcome (outcome st gs num_bytes inv)
    where
      by_outcome : Outcome num_bytes st (va_gen_alloc num_bytes page_bytes st) → st' ≡ st
      by_outcome (nothing e) = sym (ap (λ p. p.1) (some-injective _ _ (sym e ∙ got)))
      by_outcome (page index holes e more t) =
          let same = ap (λ p. p.0) (some-injective _ _ (sym e ∙ got)) in
          let (reached, inside) = page_address st gs index (pages num_bytes) holes inv more t in
          absurd (omega (arith, same, reached, inside))

  free-some :
      (st : VaGenAddr) (before : List Grant) (g : Grant) (after : List Grant)
      → Inv base range st (before ++ g ∷ after)
      → (st' : VaGenAddr) × ((va_gen_free g.address g.num_bytes st ≡ some st')
          × Inv base range st' (before ++ after))
  unfolding va_gen_free va_gen_free_internal
  free-some st before g after inv =
      let (one, rest) = AllGiven-middle base before g after inv.given in
      let (holes, (found, i)) =
        insert_lem st.hole_list 0 ((g.address - base) / page_bytes) (pages g.num_bytes)
          (omega arith) one.nonempty one.ends inv.sorted
          (λ x. omega (
            arith,
            owners-middle base before g after x,
            inv.balance x,
            at_le x 0 (range / page_bytes),
          )) in
      let above : leb st.base g.address ≡ true =
        le→leb st.base g.address (omega (arith, one.above, inv.based)) in
      let found_here : va_gen_insert_and_coalesce ((g.address - st.base) / page_bytes)
            (pages g.num_bytes) st.hole_list
          ≡ some holes =
        ap
          (λ b.
            va_gen_insert_and_coalesce ((g.address - b) / page_bytes) (pages g.num_bytes)
              st.hole_list)
          inv.based
        ∙ found in
      (
        record st { hole_list = holes },
        (
          rw (above, found_here) refl,
          record {
            based = inv.based;
            sorted = i.sorted;
            balance =
                λ x. omega (arith, i.pages x, owners-middle base before g after x, inv.balance x);
            given = rest;
          },
        ),
      )

  Runs-Inv : {st : VaGenAddr} {gs : List Grant} → Runs base range st gs → Inv base range st gs
  Runs-Inv start = init-Inv base range w
  Runs-Inv (alloc {st} {st'} {gs} num_bytes address r got valid) =
      alloc-Inv st st' gs num_bytes address (Runs-Inv r) got valid
  Runs-Inv (refuse {st} {st'} {gs} num_bytes r got) =
      subst (λ x. Inv base range x gs) (sym (refuse-Inv st st' gs num_bytes (Runs-Inv r) got))
        (Runs-Inv r)
  Runs-Inv (free {st} {st'} before g after r got) =
      let (x, (found, inv)) = free-some st before g after (Runs-Inv r) in
      subst (λ x. Inv base range x (before ++ after)) (some-injective _ _ (sym found ∙ got)) inv

  -- In a window below the addresses and indices that stand for failure, after any history of
  -- allocations of whole pages and of frees, every page of the window lies in exactly one hole or
  -- has exactly one owner, and no page outside the window does.
  pub Runs-balance :
      {st : VaGenAddr} {gs : List Grant}
      → Runs base range st gs
      → (x : ℕ) → held x st.hole_list + owners base gs x ≡ at x 0 (range / page_bytes)
  Runs-balance r = (Runs-Inv r).balance

  -- In a window below the addresses and indices that stand for failure, after any history of
  -- allocations of whole pages and of frees, `va_gen_free` of what was given and not freed does not
  -- reach the BUG_ON.
  pub va_gen_free_in_Runs :
      {st : VaGenAddr} (before : List Grant) (g : Grant) (after : List Grant)
      → Runs base range st (before ++ g ∷ after)
      → (st' : VaGenAddr) × (va_gen_free g.address g.num_bytes st ≡ some st')
  va_gen_free_in_Runs {st} before g after r =
      let (st', (found, inv)) = free-some st before g after (Runs-Inv r) in (st', found)
