-- ===== src/Smpt/Pages.antt =====
-- The pages that a range of addresses touches, and the counts for each.
use mathlib.Core.Option.{some-injective, none-ne-some}
use intel_xeon_phi_kernel_dr.Common.{
  ℕ, zero, suc, ◌+◌, ◌-◌, ◌*◌, ◌/◌, ◌%◌, ◌^◌, ◌≤◌, ◌<◌, ◌≡◌, refl, sym, ap, ◌∙◌, subst, inl, inr,
  min, max, true, none, some, Option-cases, List, [], ◌∷◌, length, get_or, ltb, ltb→lt, lt→ltb,
  ltb_false→le, le→ltb_false, Bool-cases, arith,
}
use intel_xeon_phi_kernel_dr.Smpt.{
  Align, page_size, u64, smpt_align_high, smpt_align_low, prepend, ref_counts,
}

-- A range that ends a page before the end of the address space.
abbrev pub NoWrap : ℕ → Type 0
NoWrap end = end + page_size ≤ 2 ^ 64

abbrev pub sum : List ℕ → ℕ
sum [] = 0
sum (x ∷ xs) = x + sum xs

-- The start of the page after that of `x`.
abbrev pub next_page : ℕ → ℕ
next_page x = (x / page_size + 1) * page_size

-- The addresses from `start` up to `end` that lie in the page of that number.
abbrev pub in_page : ℕ → ℕ → ℕ → ℕ
in_page start end page = min end ((page + 1) * page_size) - max start (page * page_size)

-- What the counts of a range say: they cover the range page by page, and add up to its size.
pub record Covers (start end : ℕ) (ref : List ℕ) : Type 0 where
  pub enough : start < end → end ≤ (start / page_size + length ref) * page_size
  pub tight : start < end → (start / page_size + length ref) * page_size < end + page_size
  pub total : start ≤ end → sum ref ≡ end - start
  pub nothing : end ≤ start → length ref ≡ 0
  pub used : (k : ℕ) → k < length ref → 0 < get_or ref k 0
  pub each : (k : ℕ) → get_or ref k 0 ≡ in_page start end (start / page_size + k)

sum_nil : (ref : List ℕ) → length ref ≡ 0 → sum ref ≡ 0
sum_nil [] h = refl
sum_nil (x ∷ xs) h = omega (arith, h)

Covers-[] : (start end : ℕ) → end ≤ start → Covers start end []
Covers-[] start end h = record {
  enough = λ lt. omega arith;
  tight = λ lt. omega arith;
  total = λ le. omega arith;
  nothing = λ le'. refl;
  used = λ k h. absurd (omega arith);
  each = λ k. omega arith;
}

Covers-∷ :
    (start end : ℕ) (ref : List ℕ)
    → start < end
    → Covers (next_page start) end ref
    → Covers start end ((min (next_page start) end - start) ∷ ref)
Covers-∷ start end ref lt c = elim (Bool-cases (ltb (next_page start) end)) [
  | inl more ↦
      (let gt : next_page start < end = ltb→lt (next_page start) end more in
        let paged : next_page start / page_size ≡ start / page_size + 1 = omega arith in
        record {
          enough = λ le'. omega (arith, gt, paged, c.enough gt);
          tight = λ le'. omega (arith, gt, paged, c.tight gt);
          total = λ le'. omega (arith, gt, c.total (omega (arith, gt)));
          nothing = λ le'. omega arith;
          used = used_each;
          each = each_page;
        })
  | inr last ↦
      (let le : end ≤ next_page start = ltb_false→le (next_page start) end last in
        let no_more : sum ref ≡ 0 = sum_nil ref (c.nothing le) in
        record {
          enough = λ le'. omega (arith, le, c.nothing le);
          tight = λ le'. omega (arith, le, c.nothing le);
          total = λ le'. omega (arith, no_more);
          nothing = λ le'. omega arith;
          used = used_each;
          each = each_page;
        })
]
  where
    used_each :
        (k : ℕ) → k < suc (length ref) → 0 < get_or ((min (next_page start) end - start) ∷ ref) k 0
    used_each zero h = omega arith
    used_each (suc k) h = c.used k (omega arith)

    each_page :
        (k : ℕ)
        → get_or ((min (next_page start) end - start) ∷ ref) k 0
          ≡ in_page start end (start / page_size + k)
    each_page zero = omega arith
    each_page (suc k) =
        let paged : next_page start / page_size ≡ start / page_size + 1 = omega arith in
        omega (arith, c.each k, paged)

module _ (a : Align) where
  pub high :
      (x : ℕ)
      → x + page_size < 2 ^ 64
      → smpt_align_high a (u64 (x + 1)) ≡ (x / page_size + 1) * page_size
  high x h = a.align_lem 34 (u64 (x + 1)) ∙ omega arith

  pub low : (x : ℕ) → x < 2 ^ 64 → smpt_align_low a x ≡ x / page_size * page_size
  low x h = a.align_lem 34 (u64 (x + 2 ^ 64 - (page_size - 1))) ∙ omega arith

  -- One round of the loop.
  ref_counts-suc :
      (room start end : ℕ)
      → NoWrap end
      → start < end
      → ref_counts a (suc room) start end
        ≡ prepend (min (next_page start) end - start) (ref_counts a room (next_page start) end)
  unfolding ref_counts
  ref_counts-suc room start end h lt = rw (lt→ltb start end lt, high start (omega arith)) refl

  ref_counts-full : (start end : ℕ) → ltb start end ≡ true → ref_counts a zero start end ≡ none
  unfolding ref_counts
  ref_counts-full start end lt = rw (lt) refl

  ref_counts-end : (room start end : ℕ) → end ≤ start → ref_counts a room start end ≡ some []
  unfolding ref_counts
  ref_counts-end zero start end h = rw (le→ltb_false start end h) refl
  ref_counts-end (suc room) start end h = rw (le→ltb_false start end h) refl

  pub ref_counts-Covers :
      (room start end : ℕ) (ref : List ℕ)
      → NoWrap end
      → ref_counts a room start end ≡ some ref
      → Covers start end ref
  ref_counts-Covers zero start end ref h e = elim (Bool-cases (ltb start end)) [
    | inl lt ↦ absurd (none-ne-some ref (sym (ref_counts-full start end lt) ∙ e))
    | inr ge ↦
        subst (Covers start end)
          (some-injective _ _ (sym (ref_counts-end zero start end (ltb_false→le start end ge)) ∙ e))
          (Covers-[] start end (ltb_false→le start end ge))
  ]
  ref_counts-Covers (suc room) start end ref h e = elim (Bool-cases (ltb start end)) [
    | inl lt ↦ elim (Option-cases (ref_counts a room (next_page start) end)) [
      | inl n ↦ absurd (
          none-ne-some ref (
            ap (prepend (min (next_page start) end - start)) (sym n)
            ∙ sym (ref_counts-suc room start end h (ltb→lt start end lt))
            ∙ e))
      | inr (ns, m) ↦
          subst (Covers start end)
            (some-injective _ _ (
              ap (prepend (min (next_page start) end - start)) (sym m)
              ∙ sym (ref_counts-suc room start end h (ltb→lt start end lt))
              ∙ e))
            (Covers-∷ start end ns (ltb→lt start end lt)
              (ref_counts-Covers room (next_page start) end ns h m))
    ]
    | inr ge ↦
        subst (Covers start end)
          (some-injective _ _
            (sym (ref_counts-end (suc room) start end (ltb_false→le start end ge)) ∙ e))
          (Covers-[] start end (ltb_false→le start end ge))
  ]

  -- There is room for the counts of every range that touches at most that many pages.
  pub ref_counts-fits :
      (room start end : ℕ)
      → NoWrap end
      → end ≤ (start / page_size + room) * page_size
      → (ref : List ℕ) × (ref_counts a room start end ≡ some ref)
  ref_counts-fits zero start end h fits = ([], ref_counts-end zero start end (omega arith))
  ref_counts-fits (suc room) start end h fits = elim (Bool-cases (ltb start end)) [
    | inl lt ↦
        (let (ns, m) = ref_counts-fits room (next_page start) end h (omega arith) in
          (
            (min (next_page start) end - start) ∷ ns,
            ref_counts-suc room start end h (ltb→lt start end lt)
                ∙ ap (prepend (min (next_page start) end - start)) m,
          ))
    | inr ge ↦ ([], ref_counts-end (suc room) start end (ltb_false→le start end ge))
  ]

  -- The counts depend on the offset in the page and on the size alone.
  pub ref_counts-shift :
      (room start end start' end' : ℕ)
      → NoWrap end
      → NoWrap end'
      → start % page_size ≡ start' % page_size
      → end + start' ≡ end' + start
      → ref_counts a room start end ≡ ref_counts a room start' end'
  unfolding ref_counts
  ref_counts-shift zero start end start' end' h h' m d = ground arith
  ref_counts-shift (suc room) start end start' end' h h' m d = elim (Bool-cases (ltb start end)) [
    | inl lt ↦
        (let lt' : start' < end' = omega (arith, ltb→lt start end lt) in
          let same : min (next_page start) end - start ≡ min (next_page start') end' - start' =
            omega arith in
          ref_counts-suc room start end h (ltb→lt start end lt)
          ∙ ap (λ x. prepend x (ref_counts a room (next_page start) end)) same
          ∙ ap (prepend (min (next_page start') end' - start')) (
              ref_counts-shift room (next_page start) end (next_page start') end' h h' (omega arith)
                (omega arith))
          ∙ sym (ref_counts-suc room start' end' h' lt'))
    | inr ge ↦
        ref_counts-end (suc room) start end (ltb_false→le start end ge)
        ∙ sym (ref_counts-end (suc room) start' end' (omega (arith, ltb_false→le start end ge)))
  ]
