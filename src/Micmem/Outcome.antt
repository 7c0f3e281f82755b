-- ===== src/Micmem/Outcome.antt =====
-- What a part of a transfer does to the engine: some of the planned copies, all if it answers 0.
use mathlib.Core.List.{append-nil, append_assoc, map-append}
use intel_xeon_phi_kernel_dr.Common.{
  ℕ, suc, ◌≡◌, refl, sym, ap, ◌∙◌, subst, inl, inr, true, false, Option, some, List, [], ◌∷◌, ◌++◌,
  map, take, Bool-cases,
}
use intel_xeon_phi_kernel_dr.Common.Int.{ℤ, pos, negsuc}
use intel_xeon_phi_kernel_dr.Micmem.{
  DmaDir, host2dev, dev2host, Move, Copy, Engine, DmaLib, is_neg, is_zero, add64, remove,
  free_dma_channel, do_chunk_dma, do_chunk_dma_dir, xfer_single_finish, wait_for_dma,
}
use intel_xeon_phi_kernel_dr.Micmem.Pieces.{move_of}

pub moves : Engine → List Move
moves e = map (λ (c : Copy). c.move) e.copies

-- A library that gives every channel, accepts every copy and completes it in time.
pub record Obliging (lib : DmaLib) : Type 0 where
  pub gives : (e : Engine) (ch : ℕ) → is_zero (lib.request e ch) ≡ true
  pub accepts : (e : Engine) (c : Copy) → is_neg (lib.program e c) ≡ false
  pub completes : (e : Engine) (ch : ℕ) (cookie : ℤ) → wait_for_dma (lib.polls e ch cookie) ≡ pos 0

pub record Outcome (lib : DmaLib) (e : Engine) (held : List ℕ) (planned : List Move)
    (o : Option (ℤ × Engine)) : Type 0 where
  pub result : ℤ
  pub engine : Engine
  pub done : ℕ
  pub ran : o ≡ some (result, engine)
  pub held_after : engine.held ≡ held
  pub moved : moves engine ≡ moves e ++ take done planned
  pub all : result ≡ pos 0 → take done planned ≡ planned
  pub obliged : Obliging lib → result ≡ pos 0

unfoldable pub add_copy : ℕ → Move → Engine → Engine
add_copy ch m e = record e { copies = e.copies ++ record { channel = ch; move = m } ∷ [] }

-- A copy is refused with a negative answer, or accepted.
pub data Answered (lib : DmaLib) (ch : ℕ) (m : Move) (e : Engine) : ℤ × ℤ × Engine → Type 0 where
  refused :
      {o : ℤ × ℤ × Engine} (r : ℤ)
      → is_neg r ≡ true
      → (Obliging lib → ⊥)
      → o ≡ (r, pos 0, e)
      → Answered lib ch m e o
  taken :
      {o : ℤ × ℤ × Engine} (cookie : ℤ)
      → o ≡ (pos 0, cookie, add_copy ch m e)
      → Answered lib ch m e o

do_chunk_dma_lem :
    (lib : DmaLib) (ch src dst size : ℕ) (e : Engine)
    → Answered lib ch
        (record { src = src; dst = dst; size = size })
        e
        (do_chunk_dma lib ch src dst size e)
unfolding do_chunk_dma add_copy
do_chunk_dma_lem lib ch src dst size e = elim (Bool-cases (is_neg answer)) [
  | inl n ↦ refused answer n (λ kind. cc (kind.accepts e copy)) (rw n refl)
  | inr n ↦ taken answer (rw n refl)
]
  where
    copy : Copy
    copy = record { channel = ch; move = record { src = src; dst = dst; size = size } }

    answer : ℤ
    answer = lib.program e copy

pub do_chunk_dma_dir_lem :
    (lib : DmaLib) (ch card host size : ℕ) (dir : DmaDir) (e : Engine)
    → Answered lib ch (move_of dir host card size) e (do_chunk_dma_dir lib ch card host size dir e)
unfolding do_chunk_dma_dir move_of
do_chunk_dma_dir_lem lib ch card host size host2dev e = do_chunk_dma_lem lib ch host card size e
do_chunk_dma_dir_lem lib ch card host size dev2host e = do_chunk_dma_lem lib ch card host size e

neg-ne-zero : (r : ℤ) → is_neg r ≡ true → r ≡ pos 0 → ⊥
neg-ne-zero (pos n) h e = cc
neg-ne-zero (negsuc n) h e = cc

moves-free : (ch : ℕ) (e : Engine) → moves (free_dma_channel ch e) ≡ moves e
unfolding moves free_dma_channel
moves-free ch e = refl

moves-add_copy : (ch : ℕ) (m : Move) (e : Engine) → moves (add_copy ch m e) ≡ moves e ++ m ∷ []
unfolding moves add_copy
moves-add_copy ch m e =
    map-append (λ (c : Copy). c.move) e.copies (record { channel = ch; move = m } ∷ [])

-- A transfer that stops with an error before any copy.
pub Outcome-stopped :
    (lib : DmaLib) (e e' : Engine) (planned : List Move) (r : ℤ)
    → (r ≡ pos 0 → ⊥)
    → (Obliging lib → ⊥)
    → e'.copies ≡ e.copies
    → Outcome lib e e'.held planned (some (r, e'))
unfolding moves
Outcome-stopped lib e e' planned r error unkind same = record {
  result = r;
  engine = e';
  done = 0;
  ran = refl;
  held_after = refl;
  moved = ap (map (λ (c : Copy). c.move)) same ∙ sym (append-nil _);
  all = λ z. absurd (error z);
  obliged = λ kind. absurd (unkind kind);
}

-- A refused copy ends the transfer, behind whatever the channels `held` then are.
pub Outcome-refused :
    (lib : DmaLib) (e e' : Engine) (planned : List Move) (r : ℤ)
    → is_neg r ≡ true
    → (Obliging lib → ⊥)
    → e'.copies ≡ e.copies
    → Outcome lib e e'.held planned (some (r, e'))
Outcome-refused lib e e' planned r neg no_refusal same =
    Outcome-stopped lib e e' planned r (neg-ne-zero r neg) no_refusal same

-- An accepted copy comes before those of the rest.
pub Outcome-next :
    (lib : DmaLib) (ch : ℕ) (m : Move) (e e1 : Engine) (held : List ℕ) (planned : List Move)
    (o : Option (ℤ × Engine))
    → e1.copies ≡ (add_copy ch m e).copies
    → Outcome lib e1 held planned o
    → Outcome lib e held (m ∷ planned) o
unfolding moves
Outcome-next lib ch m e e1 held planned o same rest = record {
  result = rest.result;
  engine = rest.engine;
  done = suc rest.done;
  ran = rest.ran;
  held_after = rest.held_after;
  moved =
      rest.moved
      ∙ ap (λ t. t ++ take rest.done planned)
          (ap (map (λ (c : Copy). c.move)) same ∙ moves-add_copy ch m e)
      ∙ append_assoc (moves e) (m ∷ []) (take rest.done planned);
  all = λ z. ap (◌∷◌ m) (rest.all z);
  obliged = rest.obliged;
}

-- The last copy was accepted, and the answer is what the wait gives.
pub Outcome-end :
    (lib : DmaLib) (e e' : Engine) (r : ℤ)
    → (Obliging lib → r ≡ pos 0)
    → e'.copies ≡ e.copies
    → Outcome lib e e'.held [] (some (r, e'))
unfolding moves
Outcome-end lib e e' r kind same = record {
  result = r;
  engine = e';
  done = 0;
  ran = refl;
  held_after = refl;
  moved = ap (map (λ (c : Copy). c.move)) same ∙ sym (append-nil _);
  all = λ z. refl;
  obliged = kind;
}

pub xfer_single_finish-Outcome :
    (lib : DmaLib) (ch chunk_pa off card size : ℕ) (dir : DmaDir) (e : Engine)
    → Outcome lib e
        (remove ch e.held)
        (move_of dir (add64 chunk_pa off) card size ∷ [])
        (some (xfer_single_finish lib ch chunk_pa off card size dir e))
unfolding xfer_single_finish free_dma_channel add_copy
xfer_single_finish-Outcome lib ch chunk_pa off card size dir e =
    elim (do_chunk_dma_dir_lem lib ch card (add64 chunk_pa off) size dir e) [
      | refused r n unkind q ↦
          rw (q, n) (Outcome-refused lib e (free_dma_channel ch e) (m ∷ []) r n unkind refl)
      | taken cookie q ↦
          let e1 : Engine = free_dma_channel ch (add_copy ch m e) in
          rw q (
            Outcome-next lib ch m e e1 e1.held [] (some (wait_for_dma (lib.polls e1 ch cookie), e1))
              refl
              (Outcome-end lib e1 e1 (wait_for_dma (lib.polls e1 ch cookie))
                (λ kind. kind.completes e1 ch cookie) refl))
    ]
  where
    m : Move
    m = move_of dir (add64 chunk_pa off) card size

-- Channels that were taken before do not count as copies.
pub Outcome-from :
    (lib : DmaLib) (e e1 : Engine) (held held' : List ℕ) (planned planned' : List Move)
    (o : Option (ℤ × Engine))
    → e1.copies ≡ e.copies
    → held ≡ held'
    → planned ≡ planned'
    → Outcome lib e1 held planned o
    → Outcome lib e held' planned' o
unfolding moves
Outcome-from lib e e1 held held' planned planned' o same freed as_planned out = record {
  result = out.result;
  engine = out.engine;
  done = out.done;
  ran = out.ran;
  held_after = out.held_after ∙ freed;
  moved =
      out.moved
      ∙ ap (λ t. t ++ take out.done planned) (ap (map (λ (c : Copy). c.move)) same)
      ∙ ap (λ t. moves e ++ take out.done t) as_planned;
  all = λ z. subst (λ t. take out.done t ≡ t) as_planned (out.all z);
  obliged = out.obliged;
}
