-- ===== src/VaGen/Insert.antt =====
-- `va_gen_insert_and_coalesce` on a sorted list of nodes.
use mathlib.Core.Path.{ap₂}
use intel_xeon_phi_kernel_dr.Common.{
  ℕ, ◌+◌, ◌-◌, ◌^◌, ◌≤◌, ◌<◌, ◌≡◌, ◌≢◌, refl, ap, ◌∙◌, subst, ◌⊎◌, inl, inr, true, false, some,
  List, [], ◌∷◌, ltb, leb, ◌==◌, ==_iff, leb→le, le→ltb_false, lt→ltb, Bool-cases, arith,
}
use intel_xeon_phi_kernel_dr.VaGen.{
  VaNode, u64, swallow_next, keep_node, va_gen_insert_and_coalesce,
}
use intel_xeon_phi_kernel_dr.VaGen.Holes.{at, held, Head, Sorted, Sorted-weaken, at-split}

-- None of the pages is held.
abbrev pub Apart : ℕ → ℕ → List VaNode → Type 0
Apart base range ns = (x : ℕ) → at x base range + held x ns ≤ 1

pub record Inserted (lo base range : ℕ) (ns ns' : List VaNode) : Type 0 where
  pub pages : (x : ℕ) → held x ns' ≡ at x base range + held x ns
  pub sorted : Sorted lo ns'

-- A node that starts at the first page past a range, or behind the range.
at_base : (base range : ℕ) → 0 < range → at base base range ≡ 1
at_base base range h = ground arith

-- Where the pages are not held, the node ends before them or starts behind them.
beside :
    (base range : ℕ) (n : VaNode) (ns : List VaNode)
    → 0 < range
    → 0 < n.range
    → Apart base range (n ∷ ns)
    → (n.base + n.range ≤ base) ⊎ (base + range ≤ n.base)
beside base range n ns h k apart = elim (Bool-cases (leb (n.base + n.range) base)) [
  | inl y ↦ inl (leb→le (n.base + n.range) base y)
  | inr y ↦ elim (Bool-cases (leb (base + range) n.base)) [
    | inl z ↦ inr (leb→le (base + range) n.base z)
    | inr z ↦ elim (Bool-cases (leb base n.base)) [
      | inl w ↦
          let one : at n.base base range ≡ 1 = ground arith in
          let two : at n.base n.base n.range ≡ 1 = at_base n.base n.range k in
          absurd (omega (arith, one, two, apart n.base))
      | inr w ↦
          let one : at base n.base n.range ≡ 1 = ground arith in
          let two : at base base range ≡ 1 = at_base base range h in
          absurd (omega (arith, one, two, apart base))
    ]
  ]
]

module _ (lo base range : ℕ) (h : 0 < range) (ends : base + range < 2 ^ 64) where
  whole : u64 (base + range) ≡ base + range
  whole = omega (arith, ends)

  -- A node that grows by the range behind it.
  joined :
      (n : VaNode)
      → n.base + n.range ≡ base
      → (x : ℕ) → at x n.base (n.range + range) ≡ at x n.base n.range + at x base range
  joined n meets x =
      at-split x n.base n.range (n.range + range) (omega arith)
      ∙ ap₂ (λ b r. at x n.base n.range + at x b r) meets (omega arith)

  joined_next :
      (n next : VaNode)
      → n.base + n.range ≡ base
      → next.base ≡ base + range
      → (x : ℕ)
      → at x n.base (n.range + range + next.range)
        ≡ at x n.base (n.range + range) + at x next.base next.range
  joined_next n next meets touches x =
      at-split x n.base (n.range + range) (n.range + range + next.range) (omega arith)
      ∙ ap₂ (λ b r. at x n.base (n.range + range) + at x b r) (omega (arith, meets, touches))
          (omega arith)

  swallowed :
      (n : VaNode) (ns : List VaNode)
      → Head lo n
      → n.base + n.range ≡ base
      → Sorted (base + 1) ns
      → Apart base range ns
      → Inserted lo base range
          (n ∷ ns)
          (swallow_next (base + range) (record n { range = n.range + range }) ns)
  unfolding swallow_next
  swallowed n [] head meets s apart = record {
    pages = λ x. omega (arith, joined n meets x);
    sorted = (
      record { low = head.low; nonempty = omega (arith, h); ends = omega (arith, meets, ends) },
      tt,
    );
  }
  swallowed n (next ∷ ns) head meets s apart =
      let behind : base + range ≤ next.base = omega (arith, next_behind) in
      elim (Bool-cases (next.base == base + range)) [
        | inl y ↦
            let touches : next.base ≡ base + range = (==_iff next.base (base + range)).0 y in
            let no_carry : u64 (n.range + range + next.range) ≡ n.range + range + next.range =
              omega (arith, touches, meets, s.0.ends) in
            rw (y, no_carry)
              (record {
                pages = λ x. omega (arith, joined n meets x, joined_next n next meets touches x);
                sorted = (
                  record {
                    low = head.low;
                    nonempty = omega (arith, h);
                    ends = omega (arith, touches, meets, s.0.ends);
                  },
                  Sorted-weaken (next.base + next.range + 1)
                      (n.base + (n.range + range + next.range) + 1) ns
                      (omega (arith, touches, meets)) s.1,
                );
              })
        | inr y ↦
            let gap : next.base ≢ base + range = ground (arith, y) in
            rw (y) (record {
              pages = λ x. omega (arith, joined n meets x);
              sorted = (
                record {
                  low = head.low;
                  nonempty = omega (arith, h);
                  ends = omega (arith, meets, ends);
                },
                (
                  record {
                    low = omega (arith, meets, behind, gap);
                    nonempty = s.0.nonempty;
                    ends = s.0.ends;
                  },
                  s.1,
                ),
              );
            })
      ]
    where
      next_behind : base + range ≤ next.base
      next_behind = elim (beside base range next ns h s.0.nonempty apart) [
        | inl before ↦ absurd (omega (arith, s.0.low, s.0.nonempty))
        | inr after ↦ after
      ]

-- The range ends before the first node, or where it starts.
insert_before :
    (n : VaNode) (ns : List VaNode) (lo base range : ℕ)
    → lo ≤ base
    → 0 < range
    → base + range < 2 ^ 64
    → Sorted lo (n ∷ ns)
    → base + range ≤ n.base
    → (ns' : List VaNode) × ((va_gen_insert_and_coalesce base range (n ∷ ns) ≡ some ns')
        × Inserted lo base range (n ∷ ns) ns')
unfolding va_gen_insert_and_coalesce
insert_before n ns lo base range low h ends s after =
    let carry_range : u64 (base + range) ≡ base + range = omega (arith, ends) in
    let carry_node : u64 (n.base + n.range) ≡ n.base + n.range = omega (arith, s.0.ends) in
    let lower : ltb n.base base ≡ false = le→ltb_false n.base base (omega (arith, after)) in
    let clear : ltb n.base (base + range) ≡ false = le→ltb_false n.base (base + range) after in
    elim (Bool-cases (base + range == n.base)) [
      | inl y ↦
          let meets : base + range ≡ n.base = (==_iff (base + range) n.base).0 y in
          let carry : u64 (n.range + range) ≡ n.range + range = omega (arith, meets, s.0.ends) in
          let shrunk : n.range + range - range ≡ n.range = omega arith in
          rw (carry_range, lower, clear, y, carry)
            (
              record { base = base; range = n.range + range } ∷ ns,
              (
                refl,
                record {
                  pages = λ x.
                      ap (λ k. k + held x ns)
                        (at-split x base range (n.range + range) (omega arith)
                          ∙ ap₂ (λ b r. at x base range + at x b r) meets shrunk)
                      ∙ omega arith;
                  sorted = (
                    record {
                      low = low;
                      nonempty = omega (arith, h);
                      ends = omega (arith, meets, s.0.ends);
                    },
                    subst (λ e. Sorted e ns) (omega (arith, meets)) s.1,
                  );
                },
              ),
            )
      | inr y ↦
          let gap : base + range ≢ n.base = ground (arith, y) in
          let not_after : (n.base + n.range == base) ≡ false = ground (arith, after, h) in
          let behind : ltb (base + range) n.base ≡ true =
            lt→ltb (base + range) n.base (omega (arith, after, gap)) in
          rw (carry_range, carry_node, lower, clear, y, not_after, behind)
            (
              record { base = base; range = range } ∷ n ∷ ns,
              (
                refl,
                record {
                  pages = λ x. refl;
                  sorted = (
                    record { low = low; nonempty = h; ends = ends },
                    (
                      record {
                        low = omega (arith, after, gap);
                        nonempty = s.0.nonempty;
                        ends = s.0.ends;
                      },
                      s.1,
                    ),
                  );
                },
              ),
            )
    ]

-- Where the pages are not held, insertion succeeds, adds exactly these pages, and keeps the list
-- sorted.
pub insert_lem :
    (ns : List VaNode) (lo base range : ℕ)
    → lo ≤ base
    → 0 < range
    → base + range < 2 ^ 64
    → Sorted lo ns
    → Apart base range ns
    → (ns' : List VaNode) × ((va_gen_insert_and_coalesce base range ns ≡ some ns')
        × Inserted lo base range ns ns')
unfolding va_gen_insert_and_coalesce keep_node
insert_lem [] lo base range low h ends s apart = (
  record { base = base; range = range } ∷ [],
  (
    refl,
    record { pages = λ x. refl; sorted = (record { low = low; nonempty = h; ends = ends }, tt) },
  ),
)
insert_lem (n ∷ ns) lo base range low h ends s apart =
    let carry_range : u64 (base + range) ≡ base + range = omega (arith, ends) in
    let carry_node : u64 (n.base + n.range) ≡ n.base + n.range = omega (arith, s.0.ends) in
    elim (beside base range n ns h s.0.nonempty apart) [
      | inl before ↦
          let lower : ltb n.base base ≡ true =
            lt→ltb n.base base (omega (arith, before, s.0.nonempty)) in
          let clear : ltb base (n.base + n.range) ≡ false =
            le→ltb_false base (n.base + n.range) before in
          let not_first : (base + range == n.base) ≡ false = ground (arith, before, s.0.nonempty) in
          elim (Bool-cases (n.base + n.range == base)) [
            | inl y ↦
                let meets : n.base + n.range ≡ base = (==_iff (n.base + n.range) base).0 y in
                let carry : u64 (n.range + range) ≡ n.range + range = omega (arith, meets, ends) in
                rw (carry_range, carry_node, lower, clear, not_first, y, carry)
                  (
                    swallow_next (base + range) (record n { range = n.range + range }) ns,
                    (
                      refl,
                      swallowed lo base range h ends n ns s.0 meets
                          (subst (λ e. Sorted (e + 1) ns) meets s.1) (λ x. omega (arith, apart x)),
                    ),
                  )
            | inr y ↦
                let gap : n.base + n.range ≢ base = ground (arith, y) in
                let not_behind : ltb (base + range) n.base ≡ false =
                  le→ltb_false (base + range) n.base (omega (arith, before)) in
                let (ns', (found, i)) =
                  insert_lem ns (n.base + n.range + 1) base range (omega (arith, before, gap)) h
                    ends s.1 (λ x. omega (arith, apart x)) in
                rw (carry_range, carry_node, lower, clear, not_first, y, not_behind, found)
                  (
                    n ∷ ns',
                    (
                      refl,
                      record { pages = λ x. omega (arith, i.pages x); sorted = (s.0, i.sorted) },
                    ),
                  )
          ]
      | inr after ↦ insert_before n ns lo base range low h ends s after
    ]
