-- ===== src/VaGen/Grants.antt =====
-- What callers own of the window, and what one call of `va_gen_alloc` for whole pages does.
use intel_xeon_phi_kernel_dr.Common.{
  ℕ, ◌+◌, ◌-◌, ◌*◌, ◌/◌, ◌^◌, ◌≤◌, ◌<◌, ◌≡◌, refl, inl, inr, false, Option, some, List, [], ◌∷◌,
  ◌++◌, ltb, ◌==◌, Bool-cases, arith,
}
use intel_xeon_phi_kernel_dr.VaGen.{
  VaNode, VaGenAddr, u64, page_bytes, invalid_va_page_index, invalid_va_gen_address, pages,
  address_of, first_fit, va_gen_alloc_internal, va_gen_alloc_aligned, va_gen_alloc, va_gen_init,
  va_gen_init_internal,
}
use intel_xeon_phi_kernel_dr.VaGen.Holes.{at, held, Sorted, Taken, first_fit_lem}

-- What a caller was given: the address, and the bytes that it asked for.
pub record Grant : Type 0 where
  pub address : ℕ
  pub num_bytes : ℕ

-- The number of grants that own page `x` of the window.
abbrev pub owners : ℕ → List Grant → ℕ → ℕ
owners base [] x = 0
owners base (g ∷ gs) x =
    at x ((g.address - base) / page_bytes) (pages g.num_bytes) + owners base gs x

-- The window is below the address that stands for failure, and the pages below that index.
pub record Window (base range : ℕ) : Type 0 where
  pub addresses : base + range ≤ invalid_va_gen_address
  pub indices : range / page_bytes ≤ invalid_va_page_index
  pub some_page : page_bytes ≤ range

pub record Given (base : ℕ) (g : Grant) : Type 0 where
  pub above : base ≤ g.address
  pub nonempty : 0 < pages g.num_bytes
  pub ends : (g.address - base) / page_bytes + pages g.num_bytes < 2 ^ 64

abbrev pub AllGiven : ℕ → List Grant → Type 0
AllGiven base [] = Unit
AllGiven base (g ∷ gs) = Given base g × AllGiven base gs

-- Every page of the window is in one hole or has one owner.
pub record Inv (base range : ℕ) (st : VaGenAddr) (gs : List Grant) : Type 0 where
  pub based : st.base ≡ base
  pub sorted : Sorted 0 st.hole_list
  pub balance : (x : ℕ) → held x st.hole_list + owners base gs x ≡ at x 0 (range / page_bytes)
  pub given : AllGiven base gs

-- What `va_gen_alloc` of whole pages does.
pub data Outcome (num_bytes : ℕ) (st : VaGenAddr) (r : Option (ℕ × VaGenAddr)) : Type 0 where
  nothing : r ≡ some (invalid_va_gen_address, st) → Outcome num_bytes st r
  page :
      (index : ℕ) (holes : List VaNode)
      → r ≡ some (u64 (u64 (index * page_bytes) + st.base), record st { hole_list = holes })
      → 0 < pages num_bytes
      → Taken (pages num_bytes) 0 index st.hole_list holes
      → Outcome num_bytes st r

pub at_le : (x base range : ℕ) → at x base range ≤ 1
at_le x base range = ground arith

pages_lt : (n : ℕ) → pages n < 2 ^ 64
unfolding pages
pages_lt n = omega arith

pub va_gen_alloc-Outcome :
    (num_bytes : ℕ) (st : VaGenAddr)
    → Sorted 0 st.hole_list
    → ((x : ℕ) → 0 < held x st.hole_list → x < invalid_va_page_index)
    → Outcome num_bytes st (va_gen_alloc num_bytes page_bytes st)
unfolding va_gen_alloc va_gen_alloc_aligned va_gen_alloc_internal address_of
va_gen_alloc-Outcome num_bytes st s below =
    elim (Bool-cases (ltb (0xffffffff * page_bytes) num_bytes)) [
      | inl y ↦ nothing (rw (y) refl)
      | inr y ↦
          let same : u64 (pages num_bytes + 1 + 2 ^ 64 - 1) ≡ pages num_bytes =
            omega (arith, pages_lt num_bytes) in
          elim (Bool-cases (pages num_bytes == 0)) [
            | inl z ↦ nothing (rw (y, same, z) refl)
            | inr z ↦
                let more : 0 < pages num_bytes = ground (arith, z) in
                elim (first_fit_lem st.hole_list 0 (pages num_bytes) more s) [
                  | inl f ↦ nothing (rw (y, same, z, f) refl)
                  | inr t ↦
                      let here : at (first_fit (pages num_bytes) st.hole_list).0
                            (first_fit (pages num_bytes) st.hole_list).0 (pages num_bytes)
                          ≡ 1 =
                        ground (arith, more) in
                      let valid : (first_fit (pages num_bytes) st.hole_list).0
                          < invalid_va_page_index =
                        below (first_fit (pages num_bytes) st.hole_list).0 (
                          omega
                            (arith, t.pages (first_fit (pages num_bytes) st.hole_list).0, here)) in
                      let real : ((first_fit (pages num_bytes) st.hole_list).0
                            == invalid_va_page_index)
                          ≡ false =
                        ground (arith, valid) in
                      page (first_fit (pages num_bytes) st.hole_list).0
                        (first_fit (pages num_bytes) st.hole_list).1 (rw (y, same, z, real) refl)
                        more t
                ]
          ]
    ]

pub AllGiven-middle :
    (base : ℕ) (xs : List Grant) (g : Grant) (ys : List Grant)
    → AllGiven base (xs ++ g ∷ ys)
    → Given base g × AllGiven base (xs ++ ys)
AllGiven-middle base [] g ys h = h
AllGiven-middle base (x ∷ xs) g ys h =
    let (here, rest) = AllGiven-middle base xs g ys h.1 in (here, (h.0, rest))

pub owners-middle :
    (base : ℕ) (xs : List Grant) (g : Grant) (ys : List Grant) (x : ℕ)
    → owners base (xs ++ g ∷ ys) x
      ≡ at x ((g.address - base) / page_bytes) (pages g.num_bytes) + owners base (xs ++ ys) x
owners-middle base [] g ys x = refl
owners-middle base (y ∷ xs) g ys x = omega (arith, owners-middle base xs g ys x)

pub init-Inv : (base range : ℕ) → Window base range → Inv base range (va_gen_init base range) []
unfolding va_gen_init va_gen_init_internal
init-Inv base range w = record {
  based = refl;
  sorted = (
    record {
      low = omega arith;
      nonempty = omega (arith, w.some_page);
      ends = omega (arith, w.addresses);
    },
    tt,
  );
  balance = λ x. omega arith;
  given = tt;
}
