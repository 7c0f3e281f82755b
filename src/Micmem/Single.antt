-- ===== src/Micmem/Single.antt =====
-- The loops of `do_xfer_single` and `do_xfer_dual` make the planned copies.
use intel_xeon_phi_kernel_dr.Common.{
  ℕ, ◌+◌, ◌-◌, ◌^◌, ◌≤◌, ◌<◌, ◌≡◌, refl, sym, ap, ◌∙◌, subst, inl, inr, true, false, some, List, [],
  ◌∷◌, leb, Bool-cases, leb→le, leb_false→lt, arith,
}
use intel_xeon_phi_kernel_dr.Micmem.{
  Chunk, DmaDir, Engine, DmaLib, add64, sub64, remove, free_dma_channel, xfer_single_finish,
  single_last, single_from,
}
use intel_xeon_phi_kernel_dr.Micmem.Pieces.{
  bytes, span, Fits, move_of, plan, plan-last, plan-more, shift_pages_lem,
}
use intel_xeon_phi_kernel_dr.Micmem.Outcome.{
  Outcome, refused, taken, add_copy, do_chunk_dma_dir_lem, Outcome-refused, Outcome-next,
  xfer_single_finish-Outcome,
}

pub single_last-Outcome :
    (lib : DmaLib) (ch : ℕ) (dir : DmaDir) (c : Chunk) (cs : List Chunk) (off card size : ℕ)
    (e : Engine)
    → Fits (c ∷ cs)
    → off < bytes c
    → off + size ≤ bytes c
    → Outcome lib e
        (remove ch e.held)
        (plan dir (c ∷ cs) off card size)
        (single_last lib ch dir (c ∷ cs) off card size e)
unfolding single_last
single_last-Outcome lib ch dir c cs off card size e (some_pages, small, ends, fits) below inside =
    subst
      (λ t.
        Outcome lib e (remove ch e.held) t
          (some (xfer_single_finish lib ch c.dma_addr off card size dir e)))
      (ap (λ a. move_of dir a card size ∷ []) (omega arith)
        ∙ sym (plan-last dir c cs off card size below inside))
      (xfer_single_finish-Outcome lib ch c.dma_addr off card size dir e)

-- One turn of the loop: the copy of the rest of a chunk that is not the last one.
single_turn :
    (lib : DmaLib) (ch : ℕ) (dir : DmaDir) (c d : Chunk) (cs : List Chunk) (off card size : ℕ)
    (e : Engine)
    → Fits (c ∷ d ∷ cs)
    → off < bytes c
    → bytes c < off + size
    → card + size ≤ 2 ^ 64
    → ((e1 : Engine)
        → Outcome lib e1
            (remove ch e1.held)
            (plan dir (d ∷ cs) 0 (card + (bytes c - off)) (size - (bytes c - off)))
            (single_from lib ch dir
              (d ∷ cs)
              0
              (card + (bytes c - off))
              (size - (bytes c - off))
              e1))
    → Outcome lib e
        (remove ch e.held)
        (plan dir (c ∷ d ∷ cs) off card size)
        (single_from lib ch dir (c ∷ d ∷ cs) off card size e)
unfolding single_from add_copy free_dma_channel
single_turn lib ch dir c d cs off card size e (some_pages, small, ends, fits) below over top rest =
    rw
      (
        shift_pages_lem c.num_pages small,
        n_eq,
        at_eq,
        card_eq,
        size_eq,
        more,
        plan-more dir c (d ∷ cs) off card size below over,
      )
      (elim (do_chunk_dma_dir_lem lib ch card (c.dma_addr + off) (bytes c - off) dir e) [
        | refused r neg unkind q ↦
            rw (q, neg) (Outcome-refused lib e (free_dma_channel ch e) _ r neg unkind refl)
        | taken cookie q ↦ rw q (
            Outcome-next lib ch _ e
              (add_copy ch (move_of dir (c.dma_addr + off) card (bytes c - off)) e) _ _ _ refl
              (rest (add_copy ch (move_of dir (c.dma_addr + off) card (bytes c - off)) e)))
      ])
  where
    n_eq : sub64 (bytes c) off ≡ bytes c - off
    n_eq = omega arith

    at_eq : add64 c.dma_addr off ≡ c.dma_addr + off
    at_eq = omega arith

    card_eq : add64 card (bytes c - off) ≡ card + (bytes c - off)
    card_eq = omega arith

    size_eq : sub64 size (bytes c - off) ≡ size - (bytes c - off)
    size_eq = omega arith

    more : leb size (bytes c - off) ≡ false
    more = ground arith

pub single_from-Outcome :
    (lib : DmaLib) (ch : ℕ) (dir : DmaDir) (cs : List Chunk) (c : Chunk) (off card size : ℕ)
    (e : Engine)
    → Fits (c ∷ cs)
    → off < bytes c
    → off + size ≤ span (c ∷ cs)
    → card + size ≤ 2 ^ 64
    → Outcome lib e
        (remove ch e.held)
        (plan dir (c ∷ cs) off card size)
        (single_from lib ch dir (c ∷ cs) off card size e)
unfolding single_from
single_from-Outcome lib ch dir [] c off card size e fits below inside top =
    single_last-Outcome lib ch dir c [] off card size e fits below (omega arith)
single_from-Outcome lib ch dir (d ∷ cs) c off card size e (some_pages, small, ends, fits) below
      inside top =
    elim (Bool-cases (leb (off + size) (bytes c))) [
      | inl f ↦
          let within : off + size ≤ bytes c = leb→le (off + size) (bytes c) f in
          rw (shift_pages_lem c.num_pages small, last within)
            (single_last-Outcome lib ch dir c (d ∷ cs) off card size e
              (some_pages, small, ends, fits) below within)
      | inr f ↦
          let over : bytes c < off + size = leb_false→lt (off + size) (bytes c) f in
          single_turn lib ch dir c d cs off card size e (some_pages, small, ends, fits) below over
            top
            (λ e1.
              single_from-Outcome lib ch dir cs d 0 (card + (bytes c - off))
                (size - (bytes c - off)) e1 fits (omega (arith, fits.0)) (omega arith)
                (omega arith))
    ]
  where
    last : off + size ≤ bytes c → leb size (sub64 (bytes c) off) ≡ true
    last h = ground arith
