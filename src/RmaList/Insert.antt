-- ===== src/RmaList/Insert.antt =====
-- `micscif_insert_window`, and the short cut of `micscif_insert_tcw` beside the walk.
use intel_xeon_phi_kernel_dr.Common.{
  ℕ, ◌≤◌, ◌<◌, ◌≡◌, refl, sym, ap, subst, inl, inr, List, [], ◌∷◌, ◌++◌, ltb, ltb→lt, ltb_false→le,
  le→ltb_false, Bool-cases, arith,
}
use intel_xeon_phi_kernel_dr.RmaList.{
  RegRange, insert_by, micscif_insert_window, tail_of, micscif_insert_tcw,
}

module _ (key : RegRange → ℕ) where
  -- The keys ascend, from `lo` on.
  abbrev pub SortedBy : ℕ → List RegRange → Type 0
  SortedBy lo [] = Unit
  SortedBy lo (w ∷ ws) = (lo ≤ key w) × SortedBy (key w) ws

  pub insert_by-SortedBy :
      (ws : List RegRange) (lo : ℕ) (w : RegRange)
      → lo ≤ key w
      → SortedBy lo ws
      → SortedBy lo (insert_by key w ws)
  unfolding insert_by
  insert_by-SortedBy [] lo w h s = (h, tt)
  insert_by-SortedBy (c ∷ cs) lo w h s = elim (Bool-cases (ltb (key w) (key c))) [
    | inl y ↦ rw (y) (h, (omega (arith, ltb→lt (key w) (key c) y), s.1))
    | inr y ↦ rw (y) (s.0, insert_by-SortedBy cs (key c) w (ltb_false→le (key w) (key c) y) s.1)
  ]

  tail_ge : (cs : List RegRange) (c : RegRange) → SortedBy (key c) cs → key c ≤ key (tail_of c cs)
  unfolding tail_of
  tail_ge [] c s = omega arith
  tail_ge (d ∷ ds) c s = omega (arith, s.0, tail_ge ds d s.1)

  -- Behind a smaller last window, the walk ends at the end of the list.
  pub insert_by-tail :
      (cs : List RegRange) (c w : RegRange)
      → SortedBy (key c) cs
      → key (tail_of c cs) < key w
      → insert_by key w (c ∷ cs) ≡ (c ∷ cs) ++ (w ∷ [])
  unfolding insert_by tail_of
  insert_by-tail [] c w s h = rw (le→ltb_false (key w) (key c) (omega arith)) refl
  insert_by-tail (d ∷ ds) c w s h =
      rw (le→ltb_false (key w) (key c) (omega (arith, tail_ge (d ∷ ds) c s)))
        (ap (◌∷◌ c) (insert_by-tail ds d w s.1 h))

-- `micscif_insert_window` keeps a list sorted by offset.
pub micscif_insert_window-SortedBy :
    (w : RegRange) (ws : List RegRange)
    → SortedBy (λ r. r.offset) 0 ws
    → SortedBy (λ r. r.offset) 0 (micscif_insert_window w ws)
unfolding micscif_insert_window
micscif_insert_window-SortedBy w ws s = insert_by-SortedBy (λ r. r.offset) ws 0 w (omega arith) s

-- On a list sorted by virtual address, the short cut of `micscif_insert_tcw` at the tail makes no
-- difference: the window stands where the walk alone puts it.
pub micscif_insert_tcw_lem :
    (w : RegRange) (ws : List RegRange)
    → SortedBy (λ r. r.va_for_temp) 0 ws
    → micscif_insert_tcw w ws ≡ insert_by (λ r. r.va_for_temp) w ws
unfolding micscif_insert_tcw
micscif_insert_tcw_lem w [] s = refl
micscif_insert_tcw_lem w (c ∷ cs) s =
    elim (Bool-cases (ltb (tail_of c cs).va_for_temp w.va_for_temp)) [
      | inl y ↦ rw (y) (
          sym (
            insert_by-tail (λ r. r.va_for_temp) cs c w s.1
              (ltb→lt (tail_of c cs).va_for_temp w.va_for_temp y)))
      | inr y ↦ rw (y) refl
    ]

-- `micscif_insert_tcw` keeps a list sorted by virtual address.
pub micscif_insert_tcw-SortedBy :
    (w : RegRange) (ws : List RegRange)
    → SortedBy (λ r. r.va_for_temp) 0 ws
    → SortedBy (λ r. r.va_for_temp) 0 (micscif_insert_tcw w ws)
micscif_insert_tcw-SortedBy w ws s =
    subst (SortedBy (λ r. r.va_for_temp) 0) (sym (micscif_insert_tcw_lem w ws s))
      (insert_by-SortedBy (λ r. r.va_for_temp) ws 0 w (omega arith) s)
