-- ===== src/Ports/Bits.antt =====
-- Facts on the bits of one word, and of an array of words.
use intel_xeon_phi_kernel_dr.Common.{
  ℕ, zero, suc, ◌+◌, ◌-◌, ◌≤◌, ◌<◌, ◌≡◌, ◌≢◌, refl, ap, ◌∙◌, ◌⊎◌, inl, inr, Bool, true, false, ◌&&◌,
  List, [], ◌∷◌, length, length-set, get_or, set, drop, get_or-set_self, get_or-set_ne, ◌==◌,
  ==_iff, Bool-cases, if◌then◌else◌, arith,
}
use intel_xeon_phi_kernel_dr.Ports.{Word, ffs, is_zero, skip_zero}

abbrev pub bit : List Word → ℕ → ℕ → Bool
bit ws i j = get_or (get_or ws i []) j false

pub get_or-set {ℓ} :
    {A : Type ℓ} (xs : List A) (i j : ℕ) (v d : A)
    → i < length xs
    → get_or (set xs i v) j d ≡ (if i == j then v else get_or xs j d)
get_or-set xs i j v d h = elim (Bool-cases (i == j)) [
  | inl e ↦ rw e (rw (← (==_iff i j).0 e) (get_or-set_self xs i v d h))
  | inr e ↦ rw e (get_or-set_ne xs v d (λ p. cc ((==_iff i j).1 p)))
]

-- Writing one bit of one word changes that bit alone.
pub bit-set :
    (ws : List Word) (i j i' j' : ℕ) (v : Bool)
    → i < length ws
    → j < length (get_or ws i [])
    → bit (set ws i (set (get_or ws i []) j v)) i' j'
      ≡ (if (i == i') && (j == j') then v else bit ws i' j')
bit-set ws i j i' j' v hi hj =
    ap (λ w. get_or w j' false) (get_or-set ws i i' (set (get_or ws i []) j v) [] hi)
    ∙ elim (Bool-cases (i == i')) [
      | inl e ↦ rw e (
          get_or-set (get_or ws i []) j j' v false hj
          ∙ ap (λ k. if j == j' then v else bit ws k j') ((==_iff i i').0 e))
      | inr e ↦ rw e
    ]

-- `ffs` gives the first set bit, from 1; it gives 0 at the word of zeros alone.
abbrev pub FirstSet : Word → ℕ → Type 0
FirstSet w k =
    (ffs w ≡ suc k)
    × (k < length w)
    × (get_or w k false ≡ true)
    × ((j : ℕ) → j < k → get_or w j false ≡ false)
    × (is_zero w ≡ false)

pub ffs_lem : (w : Word) → ((ffs w ≡ 0) × (is_zero w ≡ true)) ⊎ ((k : ℕ) × FirstSet w k)
unfolding ffs is_zero
ffs_lem [] = inl (refl, refl)
ffs_lem (true ∷ bs) = inr (0, (refl, omega arith, refl, (λ j h. absurd (omega arith)), refl))
ffs_lem (false ∷ bs) = elim (ffs_lem bs) [
  | inl (e, z) ↦ inl (rw e, z)
  | inr (k, (e, lt, hit, before, nz)) ↦
      inr (suc k, (rw e (ground arith), omega arith, hit, earlier k before, nz))
]
  where
    earlier :
        (k : ℕ)
        → ((j : ℕ) → j < k → get_or bs j false ≡ false)
        → (j : ℕ) → j < suc k
        → get_or {A = Bool} (false ∷ bs) j false ≡ false
    earlier k before zero h = refl
    earlier k before (suc j) h = before j (omega arith)

pub zero_bits : (w : Word) (j : ℕ) → is_zero w ≡ true → get_or w j false ≡ false
unfolding is_zero
zero_bits [] j h = refl
zero_bits (b ∷ bs) zero h = ground arith
zero_bits (b ∷ bs) (suc j) h = zero_bits bs j (ground arith)

-- `skip_zero` stops at the first word that is not zero, or past the last.
pub skip_zero_bounds :
    (ws : List Word) (n : ℕ) → (n ≤ skip_zero ws n) × (skip_zero ws n ≤ n + length ws)
unfolding skip_zero
skip_zero_bounds [] n = omega arith
skip_zero_bounds (w ∷ ws) n = ground (arith, skip_zero_bounds ws (n + 1))

pub skip_zero_zeros :
    (ws : List Word) (n i : ℕ) → i < skip_zero ws n - n → is_zero (get_or ws i []) ≡ true
unfolding skip_zero
skip_zero_zeros [] n i h = absurd (omega arith)
skip_zero_zeros (w ∷ ws) n zero h = elim (Bool-cases (is_zero w)) [
  | inl z ↦ z
  | inr z ↦ let r = rw z at h in absurd (omega arith)
]
skip_zero_zeros (w ∷ ws) n (suc i) h = elim (Bool-cases (is_zero w)) [
  | inl z ↦
      let r = rw z at h in skip_zero_zeros ws (n + 1) i (omega (arith, skip_zero_bounds ws (n + 1)))
  | inr z ↦ let r = rw z at h in absurd (omega arith)
]

pub zero_clear : (w : Word) (j : ℕ) → is_zero w ≡ true → is_zero (set w j false) ≡ true
unfolding is_zero
zero_clear [] j h = refl
zero_clear (b ∷ bs) zero h = ground arith
zero_clear (true ∷ bs) (suc j) h = cc
zero_clear (false ∷ bs) (suc j) h = zero_clear bs j h

pub get_or-drop {ℓ} :
    {A : Type ℓ} (n : ℕ) (xs : List A) (i : ℕ) (d : A)
    → get_or (drop n xs) i d ≡ get_or xs (n + i) d
get_or-drop zero xs i d = ap (λ k. get_or xs k d) (omega arith)
get_or-drop (suc n) [] i d = refl
get_or-drop (suc n) (x ∷ xs) i d = get_or-drop n xs i d ∙ ap (λ k. get_or (x ∷ xs) k d) next
  where
    next : suc (n + i) ≡ suc n + i
    next = omega arith

-- Writing a bit keeps the number of words and their widths.
pub width-set :
    (ws : List Word) (i j k : ℕ) (v : Bool)
    → i < length ws
    → length (get_or (set ws i (set (get_or ws i []) j v)) k []) ≡ length (get_or ws k [])
width-set ws i j k v hi =
    ap length (get_or-set ws i k (set (get_or ws i []) j v) [] hi) ∙ elim (Bool-cases (i == k)) [
      | inl e ↦
          rw e
            (length-set (get_or ws i []) j v ∙ ap (λ t. length (get_or ws t [])) ((==_iff i k).0 e))
      | inr e ↦ rw e
    ]

-- The other words stay.
pub word-set :
    (ws : List Word) (i k : ℕ) (w : Word) → i ≢ k → get_or (set ws i w) k [] ≡ get_or ws k []
word-set ws i k w h = get_or-set_ne ws w [] h
