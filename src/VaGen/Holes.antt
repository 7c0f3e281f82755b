-- ===== src/VaGen/Holes.antt =====
-- The pages that a list of nodes holds, and what first fit and insertion do to them.
use intel_xeon_phi_kernel_dr.Common.{
  ℕ, ◌+◌, ◌-◌, ◌^◌, ◌≤◌, ◌<◌, ◌≡◌, ◌≢◌, refl, ap, ◌∙◌, ◌⊎◌, inl, inr, ◌&&◌, List, [], ◌∷◌, ltb, leb,
  ◌==◌, ==_iff, leb→le, ltb→lt, Bool-cases, if◌then◌else◌, arith,
}
use intel_xeon_phi_kernel_dr.VaGen.{VaNode, u64, invalid_va_page_index, first_fit}

-- 1 for a page from `base` on that is less than `range` pages ahead, 0 otherwise.
abbrev pub at : ℕ → ℕ → ℕ → ℕ
at x base range = if leb base x && ltb x (base + range) then 1 else 0

-- The number of nodes that hold page `x`.
abbrev pub held : ℕ → List VaNode → ℕ
held x [] = 0
held x (n ∷ ns) = at x n.base n.range + held x ns

pub record Head (lo : ℕ) (n : VaNode) : Type 0 where
  pub low : lo ≤ n.base
  pub nonempty : 0 < n.range
  pub ends : n.base + n.range < 2 ^ 64

-- The nodes stand in order, from page `lo` on, with a gap between any two.
abbrev pub Sorted : ℕ → List VaNode → Type 0
Sorted lo [] = Unit
Sorted lo (n ∷ ns) = Head lo n × Sorted (n.base + n.range + 1) ns

pub Sorted-weaken : (lo lo' : ℕ) (ns : List VaNode) → lo' ≤ lo → Sorted lo ns → Sorted lo' ns
Sorted-weaken lo lo' [] h s = tt
Sorted-weaken lo lo' (n ∷ ns) h s =
    (record { low = omega (arith, s.0.low); nonempty = s.0.nonempty; ends = s.0.ends }, s.1)

pub at-split : (x base m n : ℕ) → m ≤ n → at x base n ≡ at x base m + at x (base + m) (n - m)
at-split x base m n h = ground arith

pub held-below : (x lo : ℕ) (ns : List VaNode) → x < lo → Sorted lo ns → held x ns ≡ 0
held-below x lo [] h s = refl
held-below x lo (n ∷ ns) h s =
    let out : at x n.base n.range ≡ 0 = ground (arith, s.0.low) in
    omega (arith, out, held-below x (n.base + n.range + 1) ns (omega (arith, s.0.low)) s.1)

-- No page is held twice.
pub held_le : (x lo : ℕ) (ns : List VaNode) → Sorted lo ns → held x ns ≤ 1
held_le x lo [] s = omega arith
held_le x lo (n ∷ ns) s = elim (Bool-cases (ltb x (n.base + n.range + 1))) [
  | inl y ↦
      let rest : held x ns ≡ 0 =
        held-below x (n.base + n.range + 1) ns (ltb→lt x (n.base + n.range + 1) y) s.1 in
      ground (arith, rest)
  | inr y ↦
      let out : at x n.base n.range ≡ 0 = ground arith in
      omega (arith, out, held_le x (n.base + n.range + 1) ns s.1)
]

-- What first fit takes from the holes, at the base that it gives.
pub record Taken (range lo base : ℕ) (ns ns' : List VaNode) : Type 0 where
  pub pages : (x : ℕ) → held x ns ≡ at x base range + held x ns'
  pub sorted : Sorted lo ns'
  pub inside : base + range < 2 ^ 64

pub first_fit_lem :
    (ns : List VaNode) (lo range : ℕ)
    → 0 < range
    → Sorted lo ns
    → (first_fit range ns ≡ (invalid_va_page_index, ns))
      ⊎ Taken range lo (first_fit range ns).0 ns (first_fit range ns).1
unfolding first_fit
first_fit_lem [] lo range h s = inl refl
first_fit_lem (n ∷ ns) lo range h s = elim (Bool-cases (leb range n.range)) [
  | inl y ↦ elim (Bool-cases (n.range == range)) [
    | inl e ↦
        rw (y, e)
          (inr (record {
            pages = λ x. ap (λ r. at x n.base r + held x ns) ((==_iff n.range range).0 e);
            sorted = Sorted-weaken (n.base + n.range + 1) lo ns (omega (arith, s.0.low)) s.1;
            inside = omega (arith, leb→le range n.range y, s.0.ends);
          }))
    | inr e ↦
        let fits : range ≤ n.range = leb→le range n.range y in
        let no_carry : u64 (n.base + range) ≡ n.base + range = omega (arith, s.0.ends, fits) in
        let less : range ≢ n.range = ground (arith, e) in
        rw (y, e, no_carry)
          (inr (record {
            pages =
                λ x. ap (λ k. k + held x ns) (at-split x n.base range n.range fits) ∙ omega arith;
            sorted = (
              record {
                low = omega (arith, s.0.low);
                nonempty = omega (arith, fits, less);
                ends = omega (arith, s.0.ends, fits);
              },
              Sorted-weaken (n.base + n.range + 1) (n.base + range + (n.range - range) + 1) ns
                  (omega (arith, fits)) s.1,
            );
            inside = omega (arith, fits, s.0.ends);
          }))
  ]
  | inr y ↦ elim (first_fit_lem ns (n.base + n.range + 1) range h s.1) [
    | inl f ↦ rw (y, f) (inl refl)
    | inr t ↦ rw (y) (
        inr (record {
          pages = λ x. omega (arith, t.pages x);
          sorted = (s.0, t.sorted);
          inside = t.inside;
        }))
  ]
]
