-- ===== src/Micmem/Dual.antt =====
-- The loop of `do_xfer_dual` makes the planned copies, on two channels.
use intel_xeon_phi_kernel_dr.Common.{
  ℕ, suc, ◌+◌, ◌-◌, ◌%◌, ◌^◌, ◌≤◌, ◌<◌, ◌≡◌, refl, ap, ◌∙◌, subst, inl, inr, true, false, some,
  List, [], ◌∷◌, leb, ◌==◌, Bool-cases, leb→le, leb_false→lt, if◌then◌else◌, arith,
}
use intel_xeon_phi_kernel_dr.Common.Int.{ℤ, pos}
use intel_xeon_phi_kernel_dr.Micmem.{
  Chunk, DmaDir, Move, Engine, DmaLib, is_neg, add64, sub64, remove, free_dma_channel,
  do_chunk_dma_dir, wait_both, wait_for_dma, xfer_dual_finish, dual_from,
}
use intel_xeon_phi_kernel_dr.Micmem.Pieces.{
  bytes, span, Fits, move_of, plan, plan-last, plan-more, shift_pages_lem,
}
use intel_xeon_phi_kernel_dr.Micmem.Outcome.{
  Outcome, refused, taken, add_copy, do_chunk_dma_dir_lem, Outcome-refused, Outcome-next,
  Outcome-end,
}

-- The two last copies, with the sums written out.
two_moves :
    (dir : DmaDir) (c d : Chunk) (cs : List Chunk) (off card size : ℕ)
    → 0 < bytes d
    → off < bytes c
    → bytes c < off + size
    → off + size ≤ bytes c + bytes d
    → plan dir (c ∷ d ∷ cs) off card size
      ≡ move_of dir (c.dma_addr + off) card (bytes c - off)
        ∷ move_of dir d.dma_addr (card + (bytes c - off)) (size - (bytes c - off))
        ∷ []
two_moves dir c d cs off card size some_bytes below over inside =
    plan-more dir c (d ∷ cs) off card size below over
    ∙ ap (◌∷◌ (move_of dir (c.dma_addr + off) card (bytes c - off))) (
        plan-last dir d cs 0 (card + (bytes c - off)) (size - (bytes c - off)) some_bytes
          (omega arith)
        ∙ ap (λ a. move_of dir a (card + (bytes c - off)) (size - (bytes c - off)) ∷ [])
            (omega arith))

both : (a b : ℤ) → a ≡ pos 0 → b ≡ pos 0 → wait_both a b ≡ pos 0
unfolding wait_both
both a b h k = rw (h, k) refl

xfer_dual_finish-Outcome :
    (lib : DmaLib) (ch ch2 : ℕ) (dir : DmaDir) (c d : Chunk) (cs : List Chunk) (off card size : ℕ)
    (e : Engine)
    → Fits (c ∷ d ∷ cs)
    → off < bytes c
    → bytes c < off + size
    → off + size ≤ bytes c + bytes d
    → card + size ≤ 2 ^ 64
    → Outcome lib e
        (remove ch2 (remove ch e.held))
        (plan dir (c ∷ d ∷ cs) off card size)
        (some (xfer_dual_finish lib ch ch2 c d off size card dir e))
unfolding xfer_dual_finish add_copy free_dma_channel
xfer_dual_finish-Outcome lib ch ch2 dir c d cs off card size e (some_pages, small, ends, fits) below
      over inside top =
    rw
      (
        shift_pages_lem c.num_pages small,
        n_eq,
        at_eq,
        card_eq,
        size_eq,
        two_moves dir c d cs off card size (omega (arith, fits.0)) below over inside,
      )
      (elim (do_chunk_dma_dir_lem lib ch card (c.dma_addr + off) (bytes c - off) dir e) [
        | refused r neg unkind q ↦
            rw (q, neg)
              (Outcome-refused lib e (free_dma_channel ch2 (free_dma_channel ch e)) _ r neg unkind
                refl)
        | taken cookie q ↦ rw q (
            Outcome-next lib ch _ e (free_dma_channel ch (add_copy ch first e)) _ _ _ refl
              (second cookie (free_dma_channel ch (add_copy ch first e))))
      ])
  where
    first : Move
    first = move_of dir (c.dma_addr + off) card (bytes c - off)

    n_eq : sub64 (bytes c) off ≡ bytes c - off
    n_eq = omega arith

    at_eq : add64 c.dma_addr off ≡ c.dma_addr + off
    at_eq = omega arith

    card_eq : add64 card (bytes c - off) ≡ card + (bytes c - off)
    card_eq = omega arith

    size_eq : sub64 size (bytes c - off) ≡ size - (bytes c - off)
    size_eq = omega arith

    second :
        (cookie : ℤ) (e2 : Engine)
        → let (result2, _, e3) =
            do_chunk_dma_dir lib ch2
              (card + (bytes c - off))
              d.dma_addr
              (size - (bytes c - off))
              dir
              e2 in
          Outcome lib e2
            (remove ch2 e2.held)
            (move_of dir d.dma_addr (card + (bytes c - off)) (size - (bytes c - off)) ∷ [])
            (some (
              if is_neg result2 then (result2, free_dma_channel ch2 e3) else (
                wait_both
                    (wait_for_dma (lib.polls (free_dma_channel ch2 e3) ch cookie))
                    (wait_for_dma (lib.polls (free_dma_channel ch2 e3) ch2 cookie)),
                free_dma_channel ch2 e3,
              )))
    second cookie e2 =
        elim (do_chunk_dma_dir_lem lib ch2 (card + (bytes c - off)) d.dma_addr
          (size - (bytes c - off)) dir e2) [
            | refused r neg unkind q ↦
                rw (q, neg) (Outcome-refused lib e2 (free_dma_channel ch2 e2) _ r neg unkind refl)
            | taken cookie2 q ↦ rw q (
                Outcome-next lib ch2 _ e2 (free_dma_channel ch2 (add_copy ch2 _ e2)) _ _ _ refl (
                  Outcome-end lib _ (free_dma_channel ch2 (add_copy ch2 _ e2)) _
                    (λ kind. both _ _ (kind.completes _ ch cookie) (kind.completes _ ch2 cookie))
                    refl))
          ]

-- One turn of the loop, at a chunk with two chunks behind it.
dual_turn :
    (lib : DmaLib) (ch ch2 : ℕ) (dir : DmaDir) (c d f : Chunk) (cs : List Chunk)
    (i off card size : ℕ) (e : Engine)
    → Fits (c ∷ d ∷ f ∷ cs)
    → off < bytes c
    → bytes c + bytes d < off + size
    → card + size ≤ 2 ^ 64
    → size ≤ 2 ^ 64
    → ((e1 : Engine)
        → Outcome lib e1
            (remove ch2 (remove ch e1.held))
            (plan dir (d ∷ f ∷ cs) 0 (card + (bytes c - off)) (size - (bytes c - off)))
            (dual_from lib ch ch2 dir
              (d ∷ f ∷ cs)
              (suc i)
              0
              (bytes d)
              (card + (bytes c - off))
              (size - (bytes c - off))
              e1))
    → Outcome lib e
        (remove ch2 (remove ch e.held))
        (plan dir (c ∷ d ∷ f ∷ cs) off card size)
        (dual_from lib ch ch2 dir (c ∷ d ∷ f ∷ cs) i off (bytes c - off) card size e)
unfolding dual_from add_copy free_dma_channel
dual_turn lib ch ch2 dir c d f cs i off card size e
      (some_pages, small, ends, (some_next, small_next, ends_next, fits)) below over top short
      rest =
    rw
      (
        shift_pages_lem d.num_pages small_next,
        at_eq,
        card_eq,
        size_eq,
        more,
        plan-more dir c (d ∷ f ∷ cs) off card size below (omega arith),
      )
      (elim (do_chunk_dma_dir_lem lib cur card (c.dma_addr + off) (bytes c - off) dir e) [
        | refused r neg unkind q ↦
            rw (q, neg)
              (Outcome-refused lib e (free_dma_channel ch2 (free_dma_channel ch e)) _ r neg unkind
                refl)
        | taken cookie q ↦ rw q (
            Outcome-next lib cur _ e (add_copy cur first e) _ _ _ refl
              (rest (add_copy cur first e)))
      ])
  where
    cur : ℕ
    cur = if i % 2 == 0 then ch2 else ch

    first : Move
    first = move_of dir (c.dma_addr + off) card (bytes c - off)

    at_eq : add64 c.dma_addr off ≡ c.dma_addr + off
    at_eq = omega arith

    card_eq : add64 card (bytes c - off) ≡ card + (bytes c - off)
    card_eq = omega arith

    size_eq : sub64 size (bytes c - off) ≡ size - (bytes c - off)
    size_eq = omega arith

    more : leb size (add64 (bytes c - off) (bytes d)) ≡ false
    more = ground arith

pub dual_from-Outcome :
    (lib : DmaLib) (ch ch2 : ℕ) (dir : DmaDir) (cs : List Chunk) (c d : Chunk) (i off card size : ℕ)
    (e : Engine)
    → Fits (c ∷ d ∷ cs)
    → off < bytes c
    → bytes c < off + size
    → off + size ≤ span (c ∷ d ∷ cs)
    → card + size ≤ 2 ^ 64
    → Outcome lib e
        (remove ch2 (remove ch e.held))
        (plan dir (c ∷ d ∷ cs) off card size)
        (dual_from lib ch ch2 dir (c ∷ d ∷ cs) i off (bytes c - off) card size e)
unfolding dual_from
dual_from-Outcome lib ch ch2 dir [] c d i off card size e fits below over inside top =
    xfer_dual_finish-Outcome lib ch ch2 dir c d [] off card size e fits below over (omega arith) top
dual_from-Outcome lib ch ch2 dir (f ∷ cs) c d i off card size e
      (some_pages, small, ends, (some_next, small_next, ends_next, fits)) below over inside top =
    elim (Bool-cases (leb (off + size) (bytes c + bytes d))) [
      | inl y ↦
          let within : off + size ≤ bytes c + bytes d = leb→le (off + size) (bytes c + bytes d) y in
          rw (shift_pages_lem d.num_pages small_next, last within)
            (xfer_dual_finish-Outcome lib ch ch2 dir c d (f ∷ cs) off card size e
              (some_pages, small, ends, (some_next, small_next, ends_next, fits)) below over within
              top)
      | inr y ↦
          let beyond : bytes c + bytes d < off + size =
            leb_false→lt (off + size) (bytes c + bytes d) y in
          dual_turn lib ch ch2 dir c d f cs i off card size e
            (some_pages, small, ends, (some_next, small_next, ends_next, fits)) below beyond top
            (omega arith)
            (λ e1.
              subst
                (λ t.
                  Outcome lib e1 (remove ch2 (remove ch e1.held))
                    (plan dir (d ∷ f ∷ cs) 0 (card + (bytes c - off)) (size - (bytes c - off)))
                    (dual_from lib ch ch2 dir (d ∷ f ∷ cs) (suc i) 0 t (card + (bytes c - off))
                      (size - (bytes c - off)) e1))
                (omega arith)
                (dual_from-Outcome lib ch ch2 dir cs d f (suc i) 0 (card + (bytes c - off))
                  (size - (bytes c - off)) e1 (some_next, small_next, ends_next, fits) (omega arith)
                  (omega arith) (omega arith) (omega arith)))
    ]
  where
    last : off + size ≤ bytes c + bytes d → leb size (add64 (bytes c - off) (bytes d)) ≡ true
    last h = ground arith
