-- ===== src/Micmem/Transfer.antt =====
-- Whole transfers: what `do_xfer` copies, what it leaves behind when it fails, and when it succeeds.
use intel_xeon_phi_kernel_dr.Common.{
  ℕ, zero, suc, ◌+◌, ◌-◌, ◌^◌, ◌≤◌, ◌<◌, ◌≡◌, refl, sym, ap, ◌∙◌, subst, inl, inr, false, Option,
  some, List, [], ◌∷◌, ◌++◌, drop, take, ltb, leb, ◌==◌, ==_iff, Bool-cases, leb→le, leb_false→lt,
  le→ltb_false, take-append-drop, if◌then◌else◌, arith,
}
use intel_xeon_phi_kernel_dr.Common.Int.{ℤ, pos, negsuc}
use intel_xeon_phi_kernel_dr.Micmem.{
  Chunk, DmaMemRange, DmaDir, Move, Engine, DmaLib, MicmemCtx, einval, is_zero, add64, sub64,
  channel, channel2, remove, hold, free_dma_channel, find_1st_chunk, single_last, single_from,
  dual_from, do_xfer_single, do_xfer_dual, do_xfer, micmem_auto, micmem_single, micmem_dual,
}
use intel_xeon_phi_kernel_dr.Micmem.Pieces.{
  bytes, span, Fits, host_byte, Copies, plan, plan-Copies, Found, find_1st_chunk-Found,
}
use intel_xeon_phi_kernel_dr.Micmem.Outcome.{Outcome, moves, Outcome-stopped, Outcome-from}
use intel_xeon_phi_kernel_dr.Micmem.Single.{single_last-Outcome, single_from-Outcome}
use intel_xeon_phi_kernel_dr.Micmem.Dual.{dual_from-Outcome}

-- A transfer that the range holds, with no sum that wraps.
pub record Within (range : DmaMemRange) (card_pa offset size : ℕ) : Type 0 where
  pub fits : Fits range.chunks
  pub sized : range.size ≤ span range.chunks
  pub some_bytes : 0 < size
  pub no_wrap : offset + size < 2 ^ 64
  pub card_top : card_pa + size ≤ 2 ^ 64

remove_self : (ch : ℕ) (xs : List ℕ) → remove ch (ch ∷ xs) ≡ xs
unfolding remove
remove_self ch xs = rw ((==_iff ch ch).1 refl) refl

remove_both : (ch ch2 : ℕ) (xs : List ℕ) → remove ch2 (remove ch (ch2 ∷ ch ∷ xs)) ≡ xs
unfolding remove
remove_both ch ch2 xs = ground (arith, remove_self ch xs, remove_self ch2 xs)

free-hold :
    (ch : ℕ) (e : Engine)
    → ((free_dma_channel ch (hold ch e)).copies ≡ e.copies)
      × ((free_dma_channel ch (hold ch e)).held ≡ e.held)
unfolding free_dma_channel hold
free-hold ch e = (refl, remove_self ch e.held)

ne_zero : (r : ℤ) → is_zero r ≡ false → r ≡ pos 0 → ⊥
ne_zero (pos n) h e = ground arith
ne_zero (negsuc n) h e = cc

module _ (lib : DmaLib) (ctx : MicmemCtx) (card_pa : ℕ) (range : DmaMemRange) (offset size : ℕ)
    (dir : DmaDir) (w : Within range card_pa offset size)
    (inside : offset + size ≤ span range.chunks) where
  at_first : Found range.chunks 0 offset (find_1st_chunk range.chunks 0 offset 0)
  at_first = find_1st_chunk-Found range.chunks 0 offset 0 w.fits (omega (arith, w.some_bytes))

  abbrev planned : List Move
  planned = plan dir range.chunks offset card_pa size

  where_first :
      find_1st_chunk range.chunks 0 offset 0
      ≡ (at_first.skipped, at_first.inner, bytes at_first.first)
  where_first = at_first.found ∙ ap (λ t. (t, at_first.inner, bytes at_first.first)) (omega arith)

  as_planned : plan dir (at_first.first ∷ at_first.behind) at_first.inner card_pa size ≡ planned
  as_planned = sym (at_first.same dir card_pa size)

  one_chunk :
      (ch : ℕ) (e : Engine)
      → at_first.inner + size ≤ bytes at_first.first
      → Outcome lib e
          (remove ch e.held)
          planned
          (single_last lib ch dir (at_first.first ∷ at_first.behind) at_first.inner card_pa size e)
  one_chunk ch e within = Outcome-from lib e e _ _ _ planned _ refl refl as_planned (
      single_last-Outcome lib ch dir at_first.first at_first.behind at_first.inner card_pa size e
        at_first.fits at_first.below within)

  no_carry : add64 at_first.inner size ≡ at_first.inner + size
  no_carry = omega (arith, at_first.left, at_first.below, w.no_wrap, small)
    where
      small : at_first.inner ≤ offset
      small = at_first.inner_le

  single_body :
      (ch : ℕ) (e : Engine)
      → Outcome lib e (remove ch e.held) planned (
          if leb (at_first.inner + size) (bytes at_first.first)
          then single_last lib ch dir
              (at_first.first ∷ at_first.behind)
              at_first.inner
              card_pa
              size
              e
          else single_from lib ch dir
              (at_first.first ∷ at_first.behind)
              at_first.inner
              card_pa
              size
              e)
  single_body ch e = elim (Bool-cases (leb (at_first.inner + size) (bytes at_first.first))) [
    | inl f ↦ rw f (one_chunk ch e (leb→le _ _ f))
    | inr f ↦ rw f (
        Outcome-from lib e e _ _ _ planned _ refl refl as_planned (
          single_from-Outcome lib ch dir at_first.behind at_first.first at_first.inner card_pa size
            e at_first.fits at_first.below (omega (arith, at_first.left)) w.card_top))
  ]

  do_xfer_single-Outcome :
      (e : Engine)
      → Outcome lib e e.held planned (do_xfer_single lib ctx card_pa range offset size dir e)
  unfolding do_xfer_single hold
  do_xfer_single-Outcome e = elim (Bool-cases (is_zero (lib.request e ch))) [
    | inr r ↦ rw r (
        Outcome-stopped lib e e planned (lib.request e ch) (ne_zero (lib.request e ch) r)
          (λ kind. cc (kind.gives e ch)) refl)
    | inl r ↦
        rw (r, where_first, at_first.from, no_carry)
          (Outcome-from lib e (hold ch e) _ e.held planned planned _ refl (remove_self ch e.held)
            refl (single_body ch (hold ch e)))
  ]
    where
      ch : ℕ
      ch = channel ctx dir

  -- With two channels held: the second one is given back at once if one chunk is enough.
  dual_body :
      (ch ch2 : ℕ) (e : Engine)
      → Outcome lib e e.held planned (
          if leb (at_first.inner + size) (bytes at_first.first)
          then single_last lib ch dir
              (at_first.first ∷ at_first.behind)
              at_first.inner
              card_pa
              size
              (free_dma_channel ch2 (hold ch2 (hold ch e)))
          else dual_from lib ch ch2 dir
              (at_first.first ∷ at_first.behind)
              at_first.skipped
              at_first.inner
              (bytes at_first.first - at_first.inner)
              card_pa
              size
              (hold ch2 (hold ch e)))
  unfolding hold free_dma_channel
  dual_body ch ch2 e = elim (Bool-cases (leb (at_first.inner + size) (bytes at_first.first))) [
    | inl f ↦ rw f (
        Outcome-from lib e (free_dma_channel ch2 (hold ch2 (hold ch e))) _ e.held planned planned _
          refl (ap (remove ch) (remove_self ch2 (ch ∷ e.held)) ∙ remove_self ch e.held) refl
          (one_chunk ch (free_dma_channel ch2 (hold ch2 (hold ch e))) (leb→le _ _ f)))
    | inr f ↦ rw f (two_chunks at_first.behind refl (leb_false→lt _ _ f))
  ]
    where
      two_chunks :
          (behind : List Chunk)
          → at_first.behind ≡ behind
          → bytes at_first.first < at_first.inner + size
          → Outcome lib e e.held planned (
              dual_from lib ch ch2 dir
                (at_first.first ∷ behind)
                at_first.skipped
                at_first.inner
                (bytes at_first.first - at_first.inner)
                card_pa
                size
                (hold ch2 (hold ch e)))
      two_chunks [] q over = absurd (omega (arith, at_first.left, ap span q))
      two_chunks (d ∷ cs) q over =
          Outcome-from lib e (hold ch2 (hold ch e)) _ e.held _ planned _ refl
            (remove_both ch ch2 e.held)
            (ap (λ t. plan dir (at_first.first ∷ t) at_first.inner card_pa size) (sym q)
              ∙ as_planned)
            (dual_from-Outcome lib ch ch2 dir cs at_first.first d at_first.skipped at_first.inner
              card_pa size (hold ch2 (hold ch e))
              (subst (λ t. Fits (at_first.first ∷ t)) q at_first.fits) at_first.below over
              (omega (arith, at_first.left, ap span q)) w.card_top)

  do_xfer_dual-Outcome :
      (e : Engine)
      → Outcome lib e e.held planned (do_xfer_dual lib ctx card_pa range offset size dir e)
  unfolding do_xfer_dual
  do_xfer_dual-Outcome e = elim (Bool-cases (is_zero (lib.request e ch))) [
    | inr r ↦ rw r (
        Outcome-stopped lib e e planned (lib.request e ch) (ne_zero (lib.request e ch) r)
          (λ kind. cc (kind.gives e ch)) refl)
    | inl r ↦ elim (Bool-cases (is_zero (lib.request (hold ch e) ch2))) [
      | inr s ↦ rw (r, s) (second_refused s)
      | inl s ↦ rw (r, s, where_first, at_first.from, no_carry, left_in_first) (dual_body ch ch2 e)
    ]
  ]
    where
      ch : ℕ
      ch = channel ctx dir

      ch2 : ℕ
      ch2 = channel2 ctx dir

      left_in_first :
          sub64 (bytes at_first.first) at_first.inner ≡ bytes at_first.first - at_first.inner
      left_in_first = omega (arith, at_first.below, at_first.fits)

      second_refused :
          is_zero (lib.request (hold ch e) ch2) ≡ false
          → Outcome lib e e.held planned
              (some (lib.request (hold ch e) ch2, free_dma_channel ch (hold ch e)))
      second_refused s =
          Outcome-from lib e (free_dma_channel ch (hold ch e)) _ e.held planned planned _
            (free-hold ch e).0 (free-hold ch e).1 refl
            (Outcome-stopped lib (free_dma_channel ch (hold ch e)) (free_dma_channel ch (hold ch e))
              planned (lib.request (hold ch e) ch2) (ne_zero (lib.request (hold ch e) ch2) s)
              (λ kind. cc (kind.gives (hold ch e) ch2)) refl)

drop-eq_nil {ℓ} : {A : Type ℓ} (n : ℕ) (xs : List A) → take n xs ≡ xs → drop n xs ≡ []
drop-eq_nil zero [] h = refl
drop-eq_nil zero (x ∷ xs) h = cc
drop-eq_nil (suc n) [] h = refl
drop-eq_nil (suc n) (x ∷ xs) h = drop-eq_nil n xs (cc)

-- What a transfer has done: the channels are as before, and the copies made are the first of those
-- that move every byte, all of them if the answer is 0.
pub record Transferred (range : DmaMemRange) (dir : DmaDir) (card_pa offset size : ℕ) (e : Engine)
    (o : Option (ℤ × Engine)) : Type 0 where
  pub result : ℤ
  pub engine : Engine
  pub made : List Move
  pub left_over : List Move
  pub ran : o ≡ some (result, engine)
  pub held_after : engine.held ≡ e.held
  pub moved : moves engine ≡ moves e ++ made
  pub in_order : Copies (host_byte range.chunks) dir card_pa offset size (made ++ left_over)
  pub all : result ≡ pos 0 → left_over ≡ []

module _ (lib : DmaLib) (ctx : MicmemCtx) (card_pa : ℕ) (range : DmaMemRange) (offset size : ℕ)
    (dir : DmaDir) (e : Engine) (w : Within range card_pa offset size) where
  do_xfer-Outcome :
      (flags : ℕ)
      → offset + size ≤ range.size
      → flags ≤ 2
      → Outcome lib e e.held
          (plan dir range.chunks offset card_pa size)
          (do_xfer lib ctx card_pa range offset size dir flags e)
  unfolding do_xfer
  do_xfer-Outcome flags inside known = rw in_range (choice flags known)
    where
      in_range : ltb range.size (add64 offset size) ≡ false
      in_range = le→ltb_false range.size (add64 offset size) (omega (arith, w.no_wrap))

      choice :
          (flags' : ℕ)
          → flags' ≤ 2
          → Outcome lib e e.held (plan dir range.chunks offset card_pa size) (
              if flags' == micmem_single
              then do_xfer_single lib ctx card_pa range offset size dir e
              else if flags' == micmem_dual
              then do_xfer_dual lib ctx card_pa range offset size dir e
              else if flags' == micmem_auto
              then do_xfer_single lib ctx card_pa range offset size dir e
              else some (einval, e))
      choice zero few =
          do_xfer_single-Outcome lib ctx card_pa range offset size dir w (omega (arith, w.sized)) e
      choice (suc zero) few =
          do_xfer_single-Outcome lib ctx card_pa range offset size dir w (omega (arith, w.sized)) e
      choice (suc (suc zero)) few =
          do_xfer_dual-Outcome lib ctx card_pa range offset size dir w (omega (arith, w.sized)) e
      choice (suc (suc (suc n))) few = absurd (omega arith)

  -- Every transfer inside a range of chunks below 2 GiB, whatever the DMA library answers, ends
  -- and leaves the channels held as before; the copies it has made are the first ones of a list
  -- that moves the bytes asked for in order and without a gap, and all of them if it answers 0.
  pub do_xfer-Transferred :
      (flags : ℕ)
      → offset + size ≤ range.size
      → flags ≤ 2
      → Transferred range dir card_pa offset size e
          (do_xfer lib ctx card_pa range offset size dir flags e)
  do_xfer-Transferred flags inside known =
      let out = do_xfer-Outcome flags inside known in
      let whole = plan dir range.chunks offset card_pa size in
      record {
        result = out.result;
        engine = out.engine;
        made = take out.done whole;
        left_over = drop out.done whole;
        ran = out.ran;
        held_after = out.held_after;
        moved = out.moved;
        in_order =
            subst (Copies (host_byte range.chunks) dir card_pa offset size)
              (sym (take-append-drop out.done whole))
              (plan-Copies dir range.chunks offset card_pa size w.some_bytes
                (omega (arith, w.sized)));
        all = λ z. drop-eq_nil out.done whole (out.all z);
      }

  -- Where a transfer on one channel and one on two both answer 0, they have made the same copies,
  -- in the same order, except for the channels.
  pub dual_moves-single :
      (e1 e2 : Engine)
      → offset + size ≤ range.size
      → do_xfer lib ctx card_pa range offset size dir micmem_single e ≡ some (pos 0, e1)
      → do_xfer lib ctx card_pa range offset size dir micmem_dual e ≡ some (pos 0, e2)
      → moves e1 ≡ moves e2
  dual_moves-single e1 e2 inside single dual =
      one_result 1 e1 inside (omega arith) single ∙ sym (one_result 2 e2 inside (omega arith) dual)
    where
      one_result :
          (flags : ℕ) (e' : Engine)
          → offset + size ≤ range.size
          → flags ≤ 2
          → do_xfer lib ctx card_pa range offset size dir flags e ≡ some (pos 0, e')
          → moves e' ≡ moves e ++ plan dir range.chunks offset card_pa size
      one_result flags e' inside' known q =
          let out = do_xfer-Outcome flags inside' known in
          let same : ◌≡◌ {A = Option (ℤ × Engine)} (some (out.result, out.engine))
              (some (pos 0, e')) =
            sym out.ran ∙ q in
          let engine : out.engine ≡ e' = cc in
          let zero_result : out.result ≡ pos 0 = cc in
          ap moves (sym engine) ∙ out.moved ∙ ap (λ t. moves e ++ t) (out.all zero_result)
