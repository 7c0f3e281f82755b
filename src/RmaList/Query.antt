-- ===== src/RmaList/Query.antt =====
-- `micscif_query_window`, and the ranges that the windows cover.
use intel_xeon_phi_kernel_dr.Common.{
  ℕ, ◌+◌, ◌-◌, ◌*◌, ◌^◌, ◌≤◌, ◌<◌, ◌≡◌, refl, sym, ap, ◌∙◌, inl, inr, min, Bool, true, false, ◌&&◌,
  ◌||◌, Option, none, some, List, [], ◌∷◌, ltb, leb, ◌==◌, ltb→lt, lt→ltb, le→leb, lt→leb_false,
  ltb_false→le, le→ltb_false, Bool-cases, if◌then◌else◌, arith,
}
use intel_xeon_phi_kernel_dr.RmaList.{
  RegRange, RmaReq, window_partial, done, enxio, eperm, page_bytes, u64, end_offset, allows,
  is_single, last_window, query_from, micscif_query_window,
}

-- Whether the byte at `x` lies in a window that allows the request.
abbrev pub inside : RmaReq → RegRange → ℕ → Bool
inside req w x = leb w.offset x && ltb x (end_offset w) && allows req w

abbrev pub covered : RmaReq → List RegRange → ℕ → Bool
covered req [] x = false
covered req (w ∷ ws) x = inside req w x || covered req ws x

-- What the loop tests at a window whose start the offset has reached.
data Turn (req : RmaReq) (w : RegRange) (offset left : ℕ) : Type 0 where
  before : ltb offset w.offset ≡ true → Turn req w offset left
  barred :
      ltb offset w.offset ≡ false
      → ltb offset (end_offset w) ≡ true
      → allows req w ≡ false
      → Turn req w offset left
  last :
      ltb offset w.offset ≡ false
      → ltb offset (end_offset w) ≡ true
      → allows req w ≡ true
      → (left - min (end_offset w - offset) left == 0) ≡ true
      → Turn req w offset left
  more :
      ltb offset w.offset ≡ false
      → ltb offset (end_offset w) ≡ true
      → allows req w ≡ true
      → (left - min (end_offset w - offset) left == 0) ≡ false
      → Turn req w offset left
  past : ltb offset w.offset ≡ false → ltb offset (end_offset w) ≡ false → Turn req w offset left

turn : (req : RmaReq) (w : RegRange) (offset left : ℕ) → Turn req w offset left
turn req w offset left = elim (Bool-cases (ltb offset w.offset)) [
  | inl a ↦ before a
  | inr a ↦ elim (Bool-cases (ltb offset (end_offset w))) [
    | inr b ↦ past a b
    | inl b ↦ elim (Bool-cases (allows req w)) [
      | inr d ↦ barred a b d
      | inl d ↦ elim (Bool-cases (left - min (end_offset w - offset) left == 0)) [
        | inl e ↦ last a b d e
        | inr e ↦ more a b d e
      ]
    ]
  ]
]

inside-true :
    (req : RmaReq) (w : RegRange) (ws : List RegRange) (x : ℕ)
    → w.offset ≤ x
    → x < end_offset w
    → allows req w ≡ true
    → covered req (w ∷ ws) x ≡ true
inside-true req w ws x lo hi d = rw (le→leb w.offset x lo, lt→ltb x (end_offset w) hi, d) refl

or_true : (a b : Bool) → b ≡ true → a || b ≡ true
or_true true b h = refl
or_true false b h = h

-- The rest of a turn that leaves bytes over.
query_from-more :
    (req : RmaReq) (w : RegRange) (ws : List RegRange) (offset left : ℕ) (out : Option RegRange)
    → ltb offset w.offset ≡ false
    → ltb offset (end_offset w) ≡ true
    → allows req w ≡ true
    → (left - min (end_offset w - offset) left == 0) ≡ false
    → query_from req (w ∷ ws) offset left out ≡ (
        let out' = if left == req.nr_bytes then some w else out in
        if is_single req.type
        then (enxio, out')
        else query_from req ws (end_offset w) (left - (end_offset w - offset)) out')
unfolding query_from
query_from-more req w ws offset left out a b d z =
    let less : end_offset w - offset < left = ground (arith, z) in
    let step : min (end_offset w - offset) left ≡ end_offset w - offset = omega (arith, less) in
    let there : u64 (offset + (end_offset w - offset)) ≡ end_offset w =
      omega (arith, ltb→lt offset (end_offset w) b) in
    let z' : (left - (end_offset w - offset) == 0) ≡ false = ground (arith, less) in
    rw (step, a, b, d, z', there) refl

covers-Turn :
    (req : RmaReq) (w : RegRange) (ws : List RegRange) (offset left : ℕ) (out : Option RegRange)
    → offset + left < 2 ^ 64
    → (query_from req (w ∷ ws) offset left out).0 ≡ done
    → (x : ℕ) → offset ≤ x
    → x < offset + left
    → ((offset' left' : ℕ) (out' : Option RegRange)
        → offset' + left' < 2 ^ 64
        → (query_from req ws offset' left' out').0 ≡ done
        → offset' ≤ x
        → x < offset' + left'
        → covered req ws x ≡ true)
    → Turn req w offset left
    → covered req (w ∷ ws) x ≡ true
unfolding query_from
covers-Turn req w ws offset left out small e x lo hi ih (before a) =
    let no_match : enxio ≡ done = sym (rw (a) refl) ∙ e in absurd cc
covers-Turn req w ws offset left out small e x lo hi ih (barred a b d) =
    let no_match : eperm ≡ done = sym (rw (a, b, d) refl) ∙ e in absurd cc
covers-Turn req w ws offset left out small e x lo hi ih (last a b d z) =
    let enough : left ≤ end_offset w - offset = ground (arith, z) in
    inside-true req w ws x (omega (arith, lo, ltb_false→le offset w.offset a))
      (omega (arith, hi, enough)) d
covers-Turn req w ws offset left out small e x lo hi ih (more a b d z) =
    elim (Bool-cases (ltb x (end_offset w))) [
      | inl y ↦
          inside-true req w ws x (omega (arith, lo, ltb_false→le offset w.offset a))
            (ltb→lt x (end_offset w) y) d
      | inr y ↦
          let beyond : end_offset w ≤ x = ltb_false→le x (end_offset w) y in
          let more_left : end_offset w - offset < left = ground (arith, z) in
          let inside_end : offset < end_offset w = ltb→lt offset (end_offset w) b in
          let e' = ap (λ r. r.0) (sym (query_from-more req w ws offset left out a b d z)) ∙ e in
          elim (Bool-cases (is_single req.type)) [
            | inl t ↦ let no_match : enxio ≡ done = sym (rw (t) refl) ∙ e' in absurd cc
            | inr t ↦ or_true (inside req w x) (covered req ws x) (
                ih (end_offset w) (left - (end_offset w - offset))
                  (if left == req.nr_bytes then some w else out)
                  (omega (arith, small, more_left, inside_end)) (sym (rw (t) refl) ∙ e') beyond
                  (omega (arith, hi, more_left, inside_end)))
          ]
    ]
covers-Turn req w ws offset left out small e x lo hi ih (past a b) =
    or_true (inside req w x) (covered req ws x)
      (ih offset left out small (sym (rw (a, b) refl) ∙ e) lo hi)

query_from_covers :
    (req : RmaReq) (ws : List RegRange) (offset left : ℕ) (out : Option RegRange)
    → offset + left < 2 ^ 64
    → (query_from req ws offset left out).0 ≡ done
    → (x : ℕ) → offset ≤ x
    → x < offset + left
    → covered req ws x ≡ true
unfolding query_from
query_from_covers req [] offset left out small e x lo hi = absurd cc
query_from_covers req (w ∷ ws) offset left out small e x lo hi =
    covers-Turn req w ws offset left out small e x lo hi
      (λ o l u s e' lo' hi'. query_from_covers req ws o l u s e' x lo' hi') (turn req w offset left)

-- When `micscif_query_window` answers 0 for a range that does not wrap, every byte of the range lies
-- in a window of the list that has all the protections of the request.
pub micscif_query_window_covers :
    (req : RmaReq) (ws : List RegRange)
    → req.offset + req.nr_bytes < 2 ^ 64
    → (micscif_query_window req ws).0 ≡ done
    → (x : ℕ) → req.offset ≤ x
    → x < req.offset + req.nr_bytes
    → covered req ws x ≡ true
unfolding micscif_query_window
micscif_query_window_covers req ws small e x lo hi =
    query_from_covers req ws req.offset req.nr_bytes none small e x lo hi

-- The windows stand in order from `lo` on, without overlap.
pub record Placed (lo : ℕ) (w : RegRange) : Type 0 where
  pub low : lo ≤ w.offset
  pub ends : w.offset + w.nr_pages * page_bytes < 2 ^ 64

abbrev pub Disjoint : ℕ → List RegRange → Type 0
Disjoint lo [] = Unit
Disjoint lo (w ∷ ws) = Placed lo w × Disjoint (w.offset + w.nr_pages * page_bytes) ws

covered-below :
    (req : RmaReq) (ws : List RegRange) (lo x : ℕ)
    → Disjoint lo ws
    → x < lo
    → covered req ws x ≡ false
covered-below req [] lo x s h = refl
covered-below req (w ∷ ws) lo x s h =
    rw (lt→leb_false w.offset x (omega (arith, s.0.low)))
      (covered-below req ws (w.offset + w.nr_pages * page_bytes) x s.1 (omega (arith, s.0.low)))

-- Beyond the first window, the others cover.
covered-rest :
    (req : RmaReq) (w : RegRange) (ws : List RegRange) (x : ℕ)
    → end_offset w ≤ x
    → covered req (w ∷ ws) x ≡ true
    → covered req ws x ≡ true
covered-rest req w ws x h c =
    let out : ltb x (end_offset w) ≡ false = le→ltb_false x (end_offset w) h in
    elim (Bool-cases (leb w.offset x)) [
      | inl y ↦ sym (rw (y, out) refl) ∙ c
      | inr y ↦ sym (rw (y) refl) ∙ c
    ]

-- Nor does a first window that does not allow the request.
covered-barred :
    (req : RmaReq) (w : RegRange) (ws : List RegRange) (x : ℕ)
    → allows req w ≡ false
    → covered req (w ∷ ws) x ≡ true
    → covered req ws x ≡ true
covered-barred req w ws x h c = elim (Bool-cases (leb w.offset x)) [
  | inl y ↦ elim (Bool-cases (ltb x (end_offset w))) [
    | inl z ↦ sym (rw (y, z, h) refl) ∙ c
    | inr z ↦ sym (rw (y, z) refl) ∙ c
  ]
  | inr y ↦ sym (rw (y) refl) ∙ c
]

finds-Turn :
    (req : RmaReq) (w : RegRange) (ws : List RegRange) (lo offset left : ℕ) (out : Option RegRange)
    → req.type ≡ window_partial
    → Disjoint lo (w ∷ ws)
    → 0 < left
    → ((x : ℕ) → offset ≤ x → x < offset + left → covered req (w ∷ ws) x ≡ true)
    → ((offset' left' : ℕ) (out' : Option RegRange)
        → 0 < left'
        → ((x : ℕ) → offset' ≤ x → x < offset' + left' → covered req ws x ≡ true)
        → (query_from req ws offset' left' out').0 ≡ done)
    → Turn req w offset left
    → (query_from req (w ∷ ws) offset left out).0 ≡ done
unfolding query_from last_window
finds-Turn req w ws lo offset left out kind s some_left c ih (before a) =
    let placed : Disjoint w.offset (w ∷ ws) =
      (record { low = omega arith; ends = s.0.ends }, s.1) in
    let none_here : covered req (w ∷ ws) offset ≡ false =
      covered-below req (w ∷ ws) w.offset offset placed (ltb→lt offset w.offset a) in
    let one_here : covered req (w ∷ ws) offset ≡ true = c offset (omega arith) (omega arith) in
    let no_match : true ≡ false = sym one_here ∙ none_here in absurd cc
finds-Turn req w ws lo offset left out kind s some_left c ih (barred a b d) =
    let ends : end_offset w ≡ w.offset + w.nr_pages * page_bytes = omega (arith, s.0.ends) in
    let none_here : covered req ws offset ≡ false =
      covered-below req ws (w.offset + w.nr_pages * page_bytes) offset s.1
        (omega (arith, ends, ltb→lt offset (end_offset w) b)) in
    let one_here : covered req ws offset ≡ true =
      covered-barred req w ws offset d (c offset (omega arith) (omega arith)) in
    let no_match : true ≡ false = sym one_here ∙ none_here in absurd cc
finds-Turn req w ws lo offset left out kind s some_left c ih (last a b d z) =
    rw (a, b, d, z, kind) refl
finds-Turn req w ws lo offset left out kind s some_left c ih (more a b d z) =
    let more_left : end_offset w - offset < left = ground (arith, z) in
    let inside_end : offset < end_offset w = ltb→lt offset (end_offset w) b in
    let single : is_single req.type ≡ false = ap is_single kind in
    rw (query_from-more req w ws offset left out a b d z, single)
      (ih (end_offset w) (left - (end_offset w - offset))
        (if left == req.nr_bytes then some w else out) (omega (arith, more_left))
        (λ x from to.
          covered-rest req w ws x from
            (c x (omega (arith, from, inside_end)) (omega (arith, to, more_left, inside_end)))))
finds-Turn req w ws lo offset left out kind s some_left c ih (past a b) =
    rw (a, b)
      (ih offset left out some_left (λ x from to.
        covered-rest req w ws x (omega (arith, from, ltb_false→le offset (end_offset w) b))
          (c x from to)))

query_from_finds :
    (req : RmaReq) (ws : List RegRange) (lo offset left : ℕ) (out : Option RegRange)
    → req.type ≡ window_partial
    → Disjoint lo ws
    → 0 < left
    → ((x : ℕ) → offset ≤ x → x < offset + left → covered req ws x ≡ true)
    → (query_from req ws offset left out).0 ≡ done
query_from_finds req [] lo offset left out kind s some_left c =
    let no_match : false ≡ true = c offset (omega arith) (omega arith) in absurd cc
query_from_finds req (w ∷ ws) lo offset left out kind s some_left c =
    finds-Turn req w ws lo offset left out kind s some_left c
      (λ o l u h c'.
        query_from_finds req ws (w.offset + w.nr_pages * page_bytes) o l u kind s.1 h c')
      (turn req w offset left)

-- Where the windows stand in order without overlap, `micscif_query_window` answers 0 for every
-- partial request for some bytes that all lie in windows with all the protections of the request.
pub micscif_query_window_finds :
    (req : RmaReq) (ws : List RegRange)
    → req.type ≡ window_partial
    → Disjoint 0 ws
    → 0 < req.nr_bytes
    → ((x : ℕ) → req.offset ≤ x → x < req.offset + req.nr_bytes → covered req ws x ≡ true)
    → (micscif_query_window req ws).0 ≡ done
unfolding micscif_query_window
micscif_query_window_finds req ws kind s some_bytes c =
    query_from_finds req ws 0 req.offset req.nr_bytes none kind s some_bytes c
