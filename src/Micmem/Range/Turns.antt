-- ===== src/Micmem/Range/Turns.antt =====
-- What one turn of the loop of `init_coalesce_range_pages` can have done.
use intel_xeon_phi_kernel_dr.Common.{
  ℕ, suc, ◌+◌, ◌≤◌, ◌<◌, ◌≡◌, ◌⊎◌, inl, inr, true, false, some, List, get_elem?, leb, ◌==◌,
  Bool-cases, Option-cases, leb→le, leb_false→lt, arith,
}
use intel_xeon_phi_kernel_dr.Micmem.{Chunk, is_neg}
use intel_xeon_phi_kernel_dr.Micmem.Range.{
  PinnedPages, Mapping, MapSingle, Mapped, chunk_at, with_chunk, first_addr, pages_to_map,
  range_add_chunk, then_next, coalesce,
}

-- A chunk that is read has its page count in the array.
pub chunk_at-num_pages :
    (p : PinnedPages) (i page n : ℕ)
    → chunk_at p i ≡ some (page, n)
    → get_elem? p.num_pages i ≡ some n
unfolding chunk_at
chunk_at-num_pages p i page n h = ground arith

module _ (map_single : MapSingle) (p : PinnedPages) (first last : ℕ) (rounds i : ℕ)
    (chunks : List Chunk) (mapped : List Mapping) (m : Mapped) where
  abbrev pub one_added : ℕ → ℕ → Mapped
  one_added page n =
      range_add_chunk map_single chunks (first_addr first i page) (pages_to_map last i n) mapped

  -- The chunk ends before the first page; the loop stops behind it; or it goes on.
  pub data Turn : Type 0 where
    skip :
        (page n : ℕ)
        → chunk_at p i ≡ some (page, n)
        → i + n ≤ first
        → coalesce map_single p first last rounds (i + n) chunks mapped ≡ some m
        → Turn
    stop :
        (page n : ℕ)
        → chunk_at p i ≡ some (page, n)
        → first < i + n
        → one_added page n ≡ m
        → (is_neg m.err ≡ true) ⊎ ((last == i + pages_to_map last i n) ≡ true)
        → Turn
    more :
        (page n : ℕ)
        → chunk_at p i ≡ some (page, n)
        → first < i + n
        → is_neg (one_added page n).err ≡ false
        → (last == i + pages_to_map last i n) ≡ false
        → coalesce map_single p first last rounds
            (i + pages_to_map last i n)
            (one_added page n).chunks
            (one_added page n).mapped
          ≡ some m
        → Turn

  pub coalesce-Turn : coalesce map_single p first last (suc rounds) i chunks mapped ≡ some m → Turn
  unfolding coalesce with_chunk then_next
  coalesce-Turn h = elim (Option-cases (chunk_at p i)) [
    | inl none_there ↦ absurd (ground (arith, none_there))
    | inr ((page, n), at) ↦ elim (Bool-cases (leb (i + n) first)) [
      | inl y ↦ skip page n at (leb→le _ _ y) (ground (arith, at, y))
      | inr y ↦ elim (Bool-cases (is_neg (one_added page n).err)) [
        | inl z ↦
            stop page n at (leb_false→lt _ _ y) (ground (arith, at, y, z))
              (inl (ground (arith, at, y, z)))
        | inr z ↦ elim (Bool-cases (last == i + pages_to_map last i n)) [
          | inl l ↦ stop page n at (leb_false→lt _ _ y) (ground (arith, at, y, z, l)) (inr l)
          | inr l ↦ more page n at (leb_false→lt _ _ y) z l (ground (arith, at, y, z, l))
        ]
      ]
    ]
  ]
