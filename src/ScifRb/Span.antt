-- ===== src/ScifRb/Span.antt =====
-- The bytes of a ring from an offset on, going round at its size, and what a byte-by-byte write
-- does to them.
use native.Mathlib.Nat.{mod-eq_of_lt, mod-lt, add-zero}
use mathlib.Core.Path.{ap₂}
use intel_xeon_phi_kernel_dr.Common.{
  ℕ, zero, suc, ◌+◌, ◌-◌, ◌%◌, ◌≤◌, ◌<◌, ◌≡◌, refl, sym, ap, ◌∙◌, subst, List, [], ◌∷◌, ◌++◌,
  length, get_or, set, take, drop, take-append_self, drop-append_self, length-set, get_or-set_self,
  get_or-set_ne, arith,
}
use intel_xeon_phi_kernel_dr.ScifRb.{write_at, read_at}
use intel_xeon_phi_kernel_dr.ScifRb.Round.{mod_shift, step-ne}

module _ (size : ℕ) where
  at_zero : (h : ℕ) → h < size → (h + 0) % size ≡ h
  at_zero h hh = ap (λ t. t % size) (add-zero h) ∙ mod-eq_of_lt hh

  abbrev pub span : List ℕ → ℕ → ℕ → List ℕ
  span mem h zero = []
  span mem h (suc n) = get_or mem h 0 ∷ span mem ((h + 1) % size) n

  pub length-span : (mem : List ℕ) (h n : ℕ) → length (span mem h n) ≡ n
  length-span mem h zero = refl
  length-span mem h (suc n) = ap suc (length-span mem ((h + 1) % size) n)

  pub span-add :
      (mem : List ℕ) (h m n : ℕ)
      → h < size
      → span mem h (m + n) ≡ span mem h m ++ span mem ((h + m) % size) n
  span-add mem h zero n hh = ap₂ (span mem) (sym (at_zero h hh)) (omega arith)
  span-add mem h (suc m) n hh =
      ap (span mem h) sum
      ∙ ap (◌∷◌ (get_or mem h 0)) (
          span-add mem ((h + 1) % size) m n (mod-lt (h + 1) (omega arith))
          ∙ ap (λ o. span mem ((h + 1) % size) m ++ span mem o n) (mod_shift size h 1 m ∙ shifted))
    where
      sum : suc m + n ≡ suc (m + n)
      sum = omega arith

      shifted : (h + (1 + m)) % size ≡ (h + suc m) % size
      shifted = ap (λ t. (h + t) % size) (omega arith)

  -- A part of a span, and what comes after it.
  pub take-span :
      (mem : List ℕ) (h n m : ℕ) → h < size → n ≤ m → take n (span mem h m) ≡ span mem h n
  take-span mem h n m hh le =
      ap (λ t. take n (span mem h t)) (omega arith)
      ∙ ap (take n) (span-add mem h n (m - n) hh)
      ∙ take-append_self n (span mem h n) _ (sym (length-span mem h n))

  pub drop-span :
      (mem : List ℕ) (h n m : ℕ)
      → h < size
      → n ≤ m
      → drop n (span mem h m) ≡ span mem ((h + n) % size) (m - n)
  drop-span mem h n m hh le =
      ap (λ t. drop n (span mem h t)) (omega arith)
      ∙ ap (drop n) (span-add mem h n (m - n) hh)
      ∙ drop-append_self n (span mem h n) _ (sym (length-span mem h n))

  -- A byte that is not among those of the span may change.
  pub span-set :
      (mem : List ℕ) (h n j i x : ℕ)
      → h < size
      → n + j < size
      → i ≡ (h + (n + j)) % size
      → span (set mem i x) h n ≡ span mem h n
  span-set mem h zero j i x hh hn e = refl
  span-set mem h (suc n) j i x hh hn e =
      ap₂ ◌∷◌
        (get_or-set_ne mem x 0 (λ same. step-ne size h (n + j) hh (omega arith) (ahead ∙ same)))
        (span-set mem ((h + 1) % size) n j i x (mod-lt (h + 1) (omega arith)) (omega arith) next)
    where
      ahead : (h + suc (n + j)) % size ≡ i
      ahead = ap (λ t. (h + t) % size) (omega arith) ∙ sym e

      next : i ≡ ((h + 1) % size + (n + j)) % size
      next = e ∙ ap (λ t. (h + t) % size) (omega arith) ∙ sym (mod_shift size h 1 (n + j))

  -- A write byte by byte from an offset on, going round.
  pub put_bytes : List ℕ → ℕ → List ℕ → List ℕ
  put_bytes mem i [] = mem
  put_bytes mem i (x ∷ xs) = put_bytes (set mem i x) ((i + 1) % size) xs

  pub length-put_bytes :
      (mem : List ℕ) (i : ℕ) (xs : List ℕ) → length (put_bytes mem i xs) ≡ length mem
  unfolding put_bytes
  length-put_bytes mem i [] = refl
  length-put_bytes mem i (x ∷ xs) =
      length-put_bytes (set mem i x) ((i + 1) % size) xs ∙ length-set mem i x

  pub put_bytes-append :
      (mem : List ℕ) (i : ℕ) (xs ys : List ℕ)
      → i < size
      → put_bytes mem i (xs ++ ys) ≡ put_bytes (put_bytes mem i xs) ((i + length xs) % size) ys
  unfolding put_bytes
  put_bytes-append mem i [] ys hi = ap (λ o. put_bytes mem o ys) (sym (at_zero i hi))
  put_bytes-append mem i (x ∷ xs) ys hi =
      put_bytes-append (set mem i x) ((i + 1) % size) xs ys (mod-lt (i + 1) (omega arith))
      ∙ ap (λ o. put_bytes (put_bytes (set mem i x) ((i + 1) % size) xs) o ys)
          (mod_shift size i 1 (length xs) ∙ ap (λ t. (i + t) % size) (omega arith))

  -- A write that starts behind a span leaves it alone.
  pub span-put_bytes_before :
      (mem : List ℕ) (h n j i : ℕ) (xs : List ℕ)
      → h < size
      → n + j + length xs ≤ size
      → i ≡ (h + (n + j)) % size
      → span (put_bytes mem i xs) h n ≡ span mem h n
  unfolding put_bytes
  span-put_bytes_before mem h n j i [] hh hn e = refl
  span-put_bytes_before mem h n j i (x ∷ xs) hh hn e =
      span-put_bytes_before (set mem i x) h n (j + 1) ((i + 1) % size) xs hh (omega arith) next
      ∙ span-set mem h n j i x hh (omega arith) e
    where
      next : (i + 1) % size ≡ (h + (n + (j + 1))) % size
      next =
          ap (λ t. (t + 1) % size) e
          ∙ mod_shift size h (n + j) 1
          ∙ ap (λ t. (h + t) % size) (omega arith)

  -- What is written is what is then read.
  pub span-put_bytes_self :
      (mem : List ℕ) (i : ℕ) (xs : List ℕ)
      → i < size
      → length xs < size
      → size ≤ length mem
      → span (put_bytes mem i xs) i (length xs) ≡ xs
  unfolding put_bytes
  span-put_bytes_self mem i [] hi hn hm = refl
  span-put_bytes_self mem i (x ∷ xs) hi hn hm = ap₂ ◌∷◌ first (
      span-put_bytes_self (set mem i x) ((i + 1) % size) xs (mod-lt (i + 1) (omega arith))
        (omega arith) (omega (arith, length-set mem i x)))
    where
      first : get_or (put_bytes (set mem i x) ((i + 1) % size) xs) i 0 ≡ x
      first =
          ap (λ l. get_or l 0 0)
            (span-put_bytes_before (set mem i x) i 1 0 ((i + 1) % size) xs hi (omega arith)
              (ap (λ t. (i + t) % size) (omega arith)))
          ∙ get_or-set_self mem i x 0 (omega arith)

  -- So a write at the end of a span extends it.
  pub span-put_bytes :
      (mem : List ℕ) (h n i : ℕ) (xs : List ℕ)
      → h < size
      → n + length xs < size
      → i ≡ (h + n) % size
      → size ≤ length mem
      → span (put_bytes mem i xs) h (n + length xs) ≡ span mem h n ++ xs
  span-put_bytes mem h n i xs hh hn e hm =
      span-add (put_bytes mem i xs) h n (length xs) hh
      ∙ ap₂ ◌++◌
          (span-put_bytes_before mem h n 0 i xs hh (omega arith)
            (e ∙ ap (λ t. (h + t) % size) (omega arith)))
          (ap (λ o. span (put_bytes mem i xs) o (length xs)) (sym e)
            ∙ span-put_bytes_self mem i xs
                (subst (λ t. t < size) (sym e) (mod-lt (h + n) (omega arith))) (omega arith) hm)

  -- A copy that does not pass the end of the memory goes byte by byte.
  pub write_at-eq-put_bytes :
      (mem : List ℕ) (off : ℕ) (xs : List ℕ)
      → off + length xs ≤ size
      → write_at mem off xs ≡ put_bytes mem off xs
  unfolding write_at put_bytes
  write_at-eq-put_bytes mem off [] h = refl
  write_at-eq-put_bytes mem off (x ∷ []) h = refl
  write_at-eq-put_bytes mem off (x ∷ y ∷ xs) h =
      write_at-eq-put_bytes (set mem off x) (off + 1) (y ∷ xs) (omega arith)
      ∙ ap (λ o. put_bytes (set mem off x) o (y ∷ xs)) (sym (mod-eq_of_lt (omega arith)))

  -- The same of a copy out of the memory.
  take-drop-suc :
      (mem : List ℕ) (off n : ℕ)
      → off < length mem
      → take (suc n) (drop off mem) ≡ get_or mem off 0 ∷ take n (drop (off + 1) mem)
  take-drop-suc [] off n h = absurd (omega arith)
  take-drop-suc (x ∷ mem) zero n h = ap (λ o. x ∷ take n (drop o (x ∷ mem))) one
    where
      one : 1 ≡ 0 + 1
      one = omega arith
  take-drop-suc (x ∷ mem) (suc off) n h =
      take-drop-suc mem off n (omega arith)
      ∙ ap (λ o. get_or mem off 0 ∷ take n (drop o (x ∷ mem))) next
    where
      next : suc (off + 1) ≡ suc off + 1
      next = omega arith

  pub read_at-eq-span :
      (mem : List ℕ) (off n : ℕ)
      → off + n ≤ size
      → size ≤ length mem
      → read_at mem off n ≡ span mem off n
  unfolding read_at
  read_at-eq-span mem off zero h hm = refl
  read_at-eq-span mem off (suc zero) h hm = take-drop-suc mem off 0 (omega arith)
  read_at-eq-span mem off (suc (suc n)) h hm =
      take-drop-suc mem off (suc n) (omega arith)
      ∙ ap (◌∷◌ (get_or mem off 0)) (
          read_at-eq-span mem (off + 1) (suc n) (omega arith) hm
          ∙ ap (λ o. span mem o (suc n)) (sym (mod-eq_of_lt (omega arith))))
