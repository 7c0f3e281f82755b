-- ===== src/Smpt/Window.antt =====
-- What the two searches of `smpt_op` find.
use intel_xeon_phi_kernel_dr.Common.{
  ℕ, suc, ◌+◌, ◌-◌, ◌*◌, ◌^◌, ◌≤◌, ◌<◌, ◌≡◌, ◌≢◌, refl, sym, ap, ◌∙◌, subst, ◌⊎◌, inl, inr, true,
  false, List, [], ◌∷◌, length, get_or, ◌==◌, ==_iff, Bool-cases, if◌then◌else◌, arith,
}
use intel_xeon_phi_kernel_dr.Smpt.{
  Entry, page_size, u64, no_entry, is_zero, Search, found, not_found, ended, find_existing,
  find_free, smpt_search,
}

-- The entry can carry the page at `addr`: it does already, or nothing uses it.
abbrev pub Fit : Entry → ℕ → Type 0
Fit e addr = (e.dma_addr ≡ addr) ⊎ (is_zero e.ref_count ≡ true)

-- The `entries` entries that end with `last` can carry the pages from `first` on.
pub record Window (es : List Entry) (first entries last : ℕ) : Type 0 where
  pub before : entries ≤ last + 1
  pub within : last < length es
  pub fits :
      (j : ℕ)
      → j < entries
      → Fit (get_or es (last + 1 - entries + j) no_entry) (u64 (first + j * page_size))

-- `es` is what is left of `whole` at index `i`.
record Rest (whole : List Entry) (i : ℕ) (es : List Entry) : Type 0 where
  at : (j : ℕ) → get_or whole (i + j) no_entry ≡ get_or es j no_entry
  size : length whole ≡ i + length es

Rest-tail :
    (whole : List Entry) (i : ℕ) (e : Entry) (es : List Entry)
    → Rest whole i (e ∷ es)
    → Rest whole (i + 1) es
Rest-tail whole i e es r = record {
  at = λ j. ap (λ k. get_or whole k no_entry) (omega arith) ∙ r.at (suc j);
  size = omega (arith, r.size);
}

index : Search → ℕ
index (found i) = i
index not_found = 0
index ended = 0

found-inj : (i j : ℕ) → found i ≡ found j → i ≡ j
unfolding index
found-inj i j e = ap index e

-- The `n` entries before `i` satisfy `q`, each at its place in the run.
Run : (ℕ → Entry → Type 0) → List Entry → ℕ → ℕ → Type 0
Run q whole i n = (j : ℕ) → j < n → q j (get_or whole (i - n + j) no_entry)

Run-zero : (q : ℕ → Entry → Type 0) (whole : List Entry) (i : ℕ) → Run q whole i 0
unfolding Run
Run-zero q whole i j h = absurd (omega arith)

Run-suc :
    (q : ℕ → Entry → Type 0) (whole es : List Entry) (e : Entry) (i n : ℕ)
    → Rest whole i (e ∷ es)
    → n ≤ i
    → q n e
    → Run q whole i n
    → Run q whole (i + 1) (n + 1)
unfolding Run
Run-suc q whole es e i n r le z run j h = elim (Bool-cases (j == n)) [
  | inl same ↦
      let here : j ≡ n = (==_iff j n).0 same in
      let place : i + 0 ≡ i + 1 - (n + 1) + j = omega (arith, here) in
      subst (λ k. q j (get_or whole k no_entry)) place
        (subst (q j) (sym (r.at 0)) (subst (λ k. q k e) (sym here) z))
  | inr other ↦
      let apart : j ≢ n = ground (arith, other) in
      let place : i - n + j ≡ i + 1 - (n + 1) + j = omega arith in
      subst (λ k. q j (get_or whole k no_entry)) place (run j (omega (arith, apart)))
]

abbrev Unused : ℕ → Entry → Type 0
Unused j e = is_zero e.ref_count ≡ true

abbrev Maps : ℕ → ℕ → Entry → Type 0
Maps first j e = e.dma_addr ≡ u64 (first + j * page_size)

Run-Window :
    (q : ℕ → Entry → Type 0) (whole : List Entry) (first n i : ℕ)
    → ((j : ℕ) (e : Entry) → q j e → Fit e (u64 (first + j * page_size)))
    → n ≤ i + 1
    → i < length whole
    → Run q whole (i + 1) n
    → Window whole first n i
unfolding Run
Run-Window q whole first n i fit le lt run = record {
  before = le;
  within = lt;
  fits = λ j h. fit j (get_or whole (i + 1 - n + j) no_entry) (run j h);
}

find_free-Window :
    (es whole : List Entry) (i fe first entries last : ℕ)
    → Rest whole i es
    → fe ≤ i
    → fe < entries
    → Run Unused whole i fe
    → find_free es i fe entries ≡ found last
    → Window whole first entries last
unfolding find_free
find_free-Window [] whole i fe first entries last r le lt run e = absurd cc
find_free-Window (x ∷ es) whole i fe first entries last r le lt run e =
    elim (Bool-cases (is_zero x.ref_count)) [
      | inl z ↦
          let e' : (if fe + 1 == entries then found i else find_free es (i + 1) (fe + 1) entries)
              ≡ found last =
            sym (rw (z) refl) ∙ e in
          let run' : Run Unused whole (i + 1) (fe + 1) =
            Run-suc Unused whole es x i fe r le z run in
          elim (Bool-cases (fe + 1 == entries)) [
            | inl y ↦
                let full : fe + 1 ≡ entries = (==_iff (fe + 1) entries).0 y in
                let here : i ≡ last = found-inj i last (sym (rw (y) refl) ∙ e') in
                subst (Window whole first entries) here (
                  Run-Window Unused whole first entries i (λ j e z. inr z) (omega arith)
                    (omega (arith, r.size)) (subst (Run Unused whole (i + 1)) full run'))
            | inr n ↦
                find_free-Window es whole (i + 1) (fe + 1) first entries last
                  (Rest-tail whole i x es r) (omega arith) (ground (arith, n)) run'
                  (sym (rw (n) refl) ∙ e')
          ]
      | inr n ↦
          find_free-Window es whole (i + 1) 0 first entries last (Rest-tail whole i x es r)
            (omega arith) (omega arith) (Run-zero Unused whole (i + 1))
            (let unfilled : (0 == entries) ≡ false = ground arith in
              sym (rw (n, unfilled) refl) ∙ e)
    ]

find_existing-Window :
    (es whole : List Entry) (i ee first entries last : ℕ)
    → Rest whole i es
    → ee ≤ i
    → ee < entries
    → Run (Maps first) whole i ee
    → find_existing es i ee (u64 (first + ee * page_size)) entries ≡ found last
    → Window whole first entries last
unfolding find_existing
find_existing-Window [] whole i ee first entries last r le lt run e = absurd cc
find_existing-Window (x ∷ es) whole i ee first entries last r le lt run e =
    elim (Bool-cases (x.dma_addr == u64 (first + ee * page_size))) [
      | inl hit ↦
          let next : u64 (u64 (first + ee * page_size) + page_size)
              ≡ u64 (first + (ee + 1) * page_size) =
            omega arith in
          let e' : (if ee + 1 == entries
                then found i
                else find_existing es (i + 1) (ee + 1) (u64 (first + (ee + 1) * page_size)) entries)
              ≡ found last =
            ap
              (λ t.
                if ee + 1 == entries then found i else find_existing es (i + 1) (ee + 1) t entries)
              (sym next)
            ∙ sym (rw (hit) refl)
            ∙ e in
          let run' : Run (Maps first) whole (i + 1) (ee + 1) =
            Run-suc (Maps first) whole es x i ee r le
              ((==_iff x.dma_addr (u64 (first + ee * page_size))).0 hit) run in
          elim (Bool-cases (ee + 1 == entries)) [
            | inl y ↦
                let full : ee + 1 ≡ entries = (==_iff (ee + 1) entries).0 y in
                let here : i ≡ last = found-inj i last (sym (rw (y) refl) ∙ e') in
                subst (Window whole first entries) here (
                  Run-Window (Maps first) whole first entries i (λ j e z. inl z) (omega arith)
                    (omega (arith, r.size)) (subst (Run (Maps first) whole (i + 1)) full run'))
            | inr n ↦
                find_existing-Window es whole (i + 1) (ee + 1) first entries last
                  (Rest-tail whole i x es r) (omega arith) (ground (arith, n)) run'
                  (sym (rw (n) refl) ∙ e')
          ]
      | inr miss ↦ elim (Bool-cases (ee == 0)) [
        | inl z ↦
            let start : ee ≡ 0 = (==_iff ee 0).0 z in
            let unfilled : (ee == entries) ≡ false = ground (arith, lt) in
            find_existing-Window es whole (i + 1) ee first entries last (Rest-tail whole i x es r)
              (omega arith) lt
              (subst (Run (Maps first) whole (i + 1)) (sym start)
                (Run-zero (Maps first) whole (i + 1)))
              (sym (rw (miss, z, unfilled) refl) ∙ e)
        | inr n ↦ let gone : not_found ≡ found last = sym (rw (miss, n) refl) ∙ e in absurd cc
      ]
    ]

-- Where a search ends in success, the entries can carry the pages.
pub smpt_search-Window :
    (es : List Entry) (first entries last : ℕ)
    → 0 < entries
    → first < 2 ^ 64
    → smpt_search es first entries ≡ found last
    → Window es first entries last
unfolding smpt_search
smpt_search-Window es first entries last h lt e =
    ended_by (find_existing es 0 0 first entries) refl e
  where
    whole : Rest es 0 es
    whole = record { at = λ j. ap (λ k. get_or es k no_entry) (omega arith); size = omega arith }

    ended_by :
        (s : Search)
        → find_existing es 0 0 first entries ≡ s
        → elim s [ found i ↦ found i | not_found ↦ not_found | ended ↦ find_free es 0 0 entries ]
          ≡ found last
        → Window es first entries last
    ended_by (found i) t e =
        find_existing-Window es es 0 0 first entries last whole (omega arith) h
          (Run-zero (Maps first) es 0)
          (ap (λ a. find_existing es 0 0 a entries) (omega arith) ∙ t ∙ e)
    ended_by not_found t e = absurd cc
    ended_by ended t e =
        find_free-Window es es 0 0 first entries last whole (omega arith) h (Run-zero Unused es 0) e
