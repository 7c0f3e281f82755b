-- ===== src/RmaList/Temp.antt =====
-- `micscif_query_tcw` on the temporary windows.
use mathlib.Core.Option.{some-injective, none-ne-some}
use intel_xeon_phi_kernel_dr.Common.{
  ◌+◌, ◌^◌, ◌≤◌, ◌<◌, ◌≡◌, refl, sym, ap, ◌∙◌, subst, inl, inr, true, false, some, List, [], ◌∷◌,
  ltb, ltb_false→le, Bool-cases, arith,
}
use intel_xeon_phi_kernel_dr.RmaList.{
  RegRange, RmaReq, u64, end_va, allows, TcwQuery, keep_window, query_tcw_from, micscif_query_tcw,
  tail_of,
}

-- The windows before, and the answer: the window holds the whole range that was asked for, allows
-- it, and the list is as it was.
pub record Hit (req : RmaReq) (ws : List RegRange) (w : RegRange) (q : TcwQuery) : Type 0 where
  pub starts : w.va_for_temp ≤ req.va_for_temp
  pub reaches : req.va_for_temp + req.nr_bytes ≤ end_va w
  pub allowed : allows req w ≡ true
  pub unchanged : q.windows ≡ ws
  pub untouched : q.request ≡ req

-- What the loop tests at a window.
data Turn (req : RmaReq) (w : RegRange) : Type 0 where
  apart :
      ltb req.va_for_temp w.va_for_temp ≡ true
      → ltb (u64 (req.va_for_temp + req.nr_bytes)) w.va_for_temp ≡ true
      → Turn req w
  barred_after :
      ltb req.va_for_temp w.va_for_temp ≡ true
      → ltb (u64 (req.va_for_temp + req.nr_bytes)) w.va_for_temp ≡ false
      → allows req w ≡ false
      → Turn req w
  extend_end :
      ltb req.va_for_temp w.va_for_temp ≡ true
      → ltb (u64 (req.va_for_temp + req.nr_bytes)) w.va_for_temp ≡ false
      → allows req w ≡ true
      → Turn req w
  past :
      ltb req.va_for_temp w.va_for_temp ≡ false → ltb (end_va w) req.va_for_temp ≡ true → Turn req w
  barred :
      ltb req.va_for_temp w.va_for_temp ≡ false
      → ltb (end_va w) req.va_for_temp ≡ false
      → allows req w ≡ false
      → Turn req w
  extend_start :
      ltb req.va_for_temp w.va_for_temp ≡ false
      → ltb (end_va w) req.va_for_temp ≡ false
      → allows req w ≡ true
      → ltb (end_va w) (u64 (req.va_for_temp + req.nr_bytes)) ≡ true
      → Turn req w
  hit :
      ltb req.va_for_temp w.va_for_temp ≡ false
      → ltb (end_va w) req.va_for_temp ≡ false
      → allows req w ≡ true
      → ltb (end_va w) (u64 (req.va_for_temp + req.nr_bytes)) ≡ false
      → Turn req w

turn : (req : RmaReq) (w : RegRange) → Turn req w
turn req w = elim (Bool-cases (ltb req.va_for_temp w.va_for_temp)) [
  | inl a ↦ elim (Bool-cases (ltb (u64 (req.va_for_temp + req.nr_bytes)) w.va_for_temp)) [
    | inl b ↦ apart a b
    | inr b ↦ elim (Bool-cases (allows req w)) [
      | inl c ↦ extend_end a b c
      | inr c ↦ barred_after a b c
    ]
  ]
  | inr a ↦ elim (Bool-cases (ltb (end_va w) req.va_for_temp)) [
    | inl b ↦ past a b
    | inr b ↦ elim (Bool-cases (allows req w)) [
      | inr c ↦ barred a b c
      | inl c ↦ elim (Bool-cases (ltb (end_va w) (u64 (req.va_for_temp + req.nr_bytes)))) [
        | inl d ↦ extend_start a b c d
        | inr d ↦ hit a b c d
      ]
    ]
  ]
]

keep-Hit :
    (req : RmaReq) (v w : RegRange) (ws : List RegRange) (q : TcwQuery)
    → Hit req ws w q
    → Hit req (v ∷ ws) w (keep_window v q)
unfolding keep_window
keep-Hit req v w ws q h = record {
  starts = h.starts;
  reaches = h.reaches;
  allowed = h.allowed;
  unchanged = ap (◌∷◌ v) h.unchanged;
  untouched = h.untouched;
}

Hit-Turn :
    (req : RmaReq) (v w : RegRange) (ws : List RegRange)
    → req.va_for_temp + req.nr_bytes < 2 ^ 64
    → (query_tcw_from req (v ∷ ws)).out_window ≡ some w
    → ((query_tcw_from req ws).out_window ≡ some w → Hit req ws w (query_tcw_from req ws))
    → Turn req v
    → Hit req (v ∷ ws) w (query_tcw_from req (v ∷ ws))
unfolding query_tcw_from keep_window
Hit-Turn req v w ws small e ih (apart a b) = absurd (none-ne-some w (sym (rw (a, b) refl) ∙ e))
Hit-Turn req v w ws small e ih (barred_after a b c) =
    absurd (none-ne-some w (sym (rw (a, b, c) refl) ∙ e))
Hit-Turn req v w ws small e ih (extend_end a b c) =
    absurd (none-ne-some w (sym (rw (a, b, c) refl) ∙ e))
Hit-Turn req v w ws small e ih (past a b) =
    rw (a, b) (keep-Hit req v w ws (query_tcw_from req ws) (ih (sym (rw (a, b) refl) ∙ e)))
Hit-Turn req v w ws small e ih (barred a b c) =
    absurd (none-ne-some w (sym (rw (a, b, c) refl) ∙ e))
Hit-Turn req v w ws small e ih (extend_start a b c d) =
    absurd (none-ne-some w (sym (rw (a, b, c, d) refl) ∙ e))
Hit-Turn req v w ws small e ih (hit a b c d) =
    let same : v ≡ w = some-injective v w (sym (rw (a, b, c, d) refl) ∙ e) in
    subst (λ x. Hit req (v ∷ ws) x (query_tcw_from req (v ∷ ws))) same
      (rw (a, b, c, d)
        (record {
          starts = ltb_false→le req.va_for_temp v.va_for_temp a;
          reaches =
              omega
                (arith, small, ltb_false→le (end_va v) (u64 (req.va_for_temp + req.nr_bytes)) d);
          allowed = c;
          unchanged = refl;
          untouched = refl;
        }))

query_tcw_from-Hit :
    (req : RmaReq) (ws : List RegRange) (w : RegRange)
    → req.va_for_temp + req.nr_bytes < 2 ^ 64
    → (query_tcw_from req ws).out_window ≡ some w
    → Hit req ws w (query_tcw_from req ws)
unfolding query_tcw_from
query_tcw_from-Hit req [] w small e = absurd (none-ne-some w e)
query_tcw_from-Hit req (v ∷ ws) w small e =
    Hit-Turn req v w ws small e (λ e'. query_tcw_from-Hit req ws w small e') (turn req v)

-- When `micscif_query_tcw` finds a window for a range that does not wrap, the window holds the whole
-- range and has all the protections asked for, and neither the list nor the request has changed.
pub micscif_query_tcw-Hit :
    (req : RmaReq) (ws : List RegRange) (w : RegRange)
    → req.va_for_temp + req.nr_bytes < 2 ^ 64
    → (micscif_query_tcw req ws).out_window ≡ some w
    → Hit req ws w (micscif_query_tcw req ws)
unfolding micscif_query_tcw
micscif_query_tcw-Hit req [] w small e = query_tcw_from-Hit req [] w small e
micscif_query_tcw-Hit req (v ∷ ws) w small e =
    elim (Bool-cases (ltb (end_va (tail_of v ws)) req.va_for_temp)) [
      | inl y ↦ absurd (none-ne-some w (sym (rw (y) refl) ∙ e))
      | inr y ↦ rw (y) (query_tcw_from-Hit req (v ∷ ws) w small (sym (rw (y) refl) ∙ e))
    ]

-- The new request takes in the old one.
pub record Grown (req req' : RmaReq) : Type 0 where
  pub starts : req'.va_for_temp ≤ req.va_for_temp
  pub reaches : req.va_for_temp + req.nr_bytes ≤ req'.va_for_temp + req'.nr_bytes

Grown-refl : (req : RmaReq) → Grown req req
Grown-refl req = record { starts = omega arith; reaches = omega arith }

Grown-Turn :
    (req : RmaReq) (v : RegRange) (ws : List RegRange)
    → req.va_for_temp + req.nr_bytes < 2 ^ 64
    → Grown req (query_tcw_from req ws).request
    → Turn req v
    → Grown req (query_tcw_from req (v ∷ ws)).request
unfolding query_tcw_from keep_window
Grown-Turn req v ws small ih (apart a b) = rw (a, b) (Grown-refl req)
Grown-Turn req v ws small ih (barred_after a b c) = rw (a, b, c) (Grown-refl req)
Grown-Turn req v ws small ih (extend_end a b c) =
    rw (a, b, c)
      (record {
        starts = omega arith;
        reaches = elim (Bool-cases (ltb (end_va v) (u64 (req.va_for_temp + req.nr_bytes)))) [
          | inl y ↦ rw (y) (omega (arith, small))
          | inr y ↦ rw (y) (
              omega
                (arith, small, ltb_false→le (end_va v) (u64 (req.va_for_temp + req.nr_bytes)) y))
        ];
      })
Grown-Turn req v ws small ih (past a b) = rw (a, b) ih
Grown-Turn req v ws small ih (barred a b c) = rw (a, b, c) (Grown-refl req)
Grown-Turn req v ws small ih (extend_start a b c d) =
    let lower : v.va_for_temp ≤ req.va_for_temp = ltb_false→le req.va_for_temp v.va_for_temp a in
    rw (a, b, c, d) (record { starts = lower; reaches = omega (arith, small, lower) })
Grown-Turn req v ws small ih (hit a b c d) = rw (a, b, c, d) (Grown-refl req)

query_tcw_from-Grown :
    (req : RmaReq) (ws : List RegRange)
    → req.va_for_temp + req.nr_bytes < 2 ^ 64
    → Grown req (query_tcw_from req ws).request
unfolding query_tcw_from
query_tcw_from-Grown req [] small = Grown-refl req
query_tcw_from-Grown req (v ∷ ws) small =
    Grown-Turn req v ws small (query_tcw_from-Grown req ws small) (turn req v)

-- The request that `micscif_query_tcw` leaves takes in the whole range of the one that it was given,
-- when that does not wrap.
pub micscif_query_tcw-Grown :
    (req : RmaReq) (ws : List RegRange)
    → req.va_for_temp + req.nr_bytes < 2 ^ 64
    → Grown req (micscif_query_tcw req ws).request
unfolding micscif_query_tcw
micscif_query_tcw-Grown req [] small = query_tcw_from-Grown req [] small
micscif_query_tcw-Grown req (v ∷ ws) small =
    elim (Bool-cases (ltb (end_va (tail_of v ws)) req.va_for_temp)) [
      | inl y ↦ rw (y) (Grown-refl req)
      | inr y ↦ rw (y) (query_tcw_from-Grown req (v ∷ ws) small)
    ]
