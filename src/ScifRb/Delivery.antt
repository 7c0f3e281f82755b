-- ===== src/ScifRb/Delivery.antt =====
-- What a whole history of calls delivers, and the queues that `micscif_rb_init` and
-- `micscif_rb_reset` leave.
use mathlib.Core.List.{append-nil, append_assoc}
use native.Mathlib.Nat.{mod_self, mod-eq_of_lt, pow-le-pow_right}
use intel_xeon_phi_kernel_dr.Common.{
  ℕ, ◌+◌, ◌-◌, ◌%◌, ◌^◌, ◌≤◌, ◌≡◌, refl, sym, ap, ◌∙◌, some, List, [], ◌∷◌, ◌++◌, length, take,
  drop, take-append-drop, bit_and, ==_iff, arith,
}
use intel_xeon_phi_kernel_dr.Common.Masks.{bit_and_mask, pow_pos}
use intel_xeon_phi_kernel_dr.Kernel.{CircBuf}
use intel_xeon_phi_kernel_dr.ScifRb.{Rb, Shared, Queue, micscif_rb_init, micscif_rb_reset, u32, run}
use intel_xeon_phi_kernel_dr.ScifRb.Pipe.{
  Pipe, Op, Reply, Step, write, wrote, read, done, got, fault, accept, refuse, write_fault, publish,
  ask, deliver, starve, read_fault, give_back,
}
use intel_xeon_phi_kernel_dr.ScifRb.Inv.{Inv}
use intel_xeon_phi_kernel_dr.ScifRb.Refine.{step_refines}

-- The bytes that the writer was told are written.
abbrev pub accepted : Op → Reply → List ℕ
accepted (write u msg fromuser) (wrote done) = msg
accepted _ _ = []

-- The bytes that the reader was handed.
abbrev pub handed : Reply → List ℕ
handed (read (got bytes)) = bytes
handed _ = []

-- A read that fails towards the user has moved the offset: its bytes are lost.
abbrev pub NoLoss : Reply → Type 0
NoLoss (read fault) = ⊥
NoLoss _ = Unit

abbrev pub accepted_all : List Op → List Reply → List ℕ
accepted_all (op ∷ ops) (r ∷ rs) = accepted op r ++ accepted_all ops rs
accepted_all _ _ = []

abbrev pub handed_all : List Reply → List ℕ
handed_all [] = []
handed_all (r ∷ rs) = handed r ++ handed_all rs

abbrev pub NoLossAll : List Reply → Type 0
NoLossAll [] = Unit
NoLossAll (r ∷ rs) = NoLoss r × NoLossAll rs

abbrev pub stored : Pipe → List ℕ
stored p = p.unread ++ p.pending

-- One step moves bytes from the writer to the store and from there to the reader, in order.
Step-balance :
    {size : ℕ} {p p' : Pipe} {op : Op} {r : Reply}
    → Step size p op r p'
    → NoLoss r
    → handed r ++ stored p' ≡ stored p ++ accepted op r
Step-balance {p} (accept u msg fromuser h) k = sym (append_assoc p.unread p.pending msg)
Step-balance {p} (refuse u msg fromuser h) k = sym (append-nil (stored p))
Step-balance {p} (write_fault u msg h) k = sym (append-nil (stored p))
Step-balance {p} publish k = refl
Step-balance {p} (ask n h) k = sym (append-nil (stored p))
Step-balance {p} (deliver u n touser h) k =
    sym (append_assoc (take n p.unread) (drop n p.unread) p.pending)
    ∙ ap (λ t. t ++ p.pending) (take-append-drop n p.unread)
    ∙ sym (append-nil (stored p))
Step-balance {p} (starve u n touser h) k = sym (append-nil (stored p))
Step-balance {p} (read_fault u n h) k = absurd k
Step-balance {p} give_back k = sym (append-nil (stored p))

chain :
    {size : ℕ} {p p₁ : Pipe} {op : Op} {r : Reply}
    → Step size p op r p₁
    → (p₂ : Pipe) (xs ys : List ℕ) → NoLoss r
    → xs ++ stored p₂ ≡ stored p₁ ++ ys
    → (handed r ++ xs) ++ stored p₂ ≡ stored p ++ (accepted op r ++ ys)
chain {p} {p₁} {op} {r} st p₂ xs ys k e =
    append_assoc (handed r) xs (stored p₂)
    ∙ ap (◌++◌ (handed r)) e
    ∙ sym (append_assoc (handed r) (stored p₁) ys)
    ∙ ap (λ t. t ++ ys) (Step-balance st k)
    ∙ append_assoc (stored p) (accepted op r) ys

-- With the invariant, which needs no condition.
run_outcome :
    (c : CircBuf) (ops : List Op) {size log : ℕ} {q : Queue} {p : Pipe}
    → Inv size log q p
    → let (rs, q') = run c q ops in
      (p' : Pipe) × Inv size log q' p'
      × (NoLossAll rs → handed_all rs ++ stored p' ≡ stored p ++ accepted_all ops rs)
unfolding run
run_outcome c [] {p} v = (p, v, λ _. sym (append-nil (stored p)))
run_outcome c (op ∷ ops) {q} {p} v =
    let (p₁, st, v₁) = step_refines c op v in
    let (p₂, v₂, rest) = run_outcome c ops v₁ in (p₂, v₂, λ k. chain st p₂ _ _ k.0 (rest k.1))

-- Whatever the two ends do, in whatever order: if the queue stands for a pipe at the start and no
-- read fails towards the user, then the queue stands for a pipe at the end, and the bytes handed to
-- the reader, followed by those still in the ring, are the bytes that were in the ring, followed by
-- those of the accepted writes, in order.
pub run_delivers :
    (c : CircBuf) (ops : List Op) {size log : ℕ} {q : Queue} {p : Pipe}
    → Inv size log q p
    → NoLossAll (run c q ops).0
    → let (rs, q') = run c q ops in
      (p' : Pipe) × (Inv size log q' p'
        × (handed_all rs ++ stored p' ≡ stored p ++ accepted_all ops rs))
run_delivers c ops v no_loss =
    let (p', v', balance) = run_outcome c ops v in (p', (v', balance no_loss))

abbrev pub empty_pipe : Pipe
empty_pipe = record { held = 0; unread = []; pending = [] }

module _ (log : ℕ) (small : log ≤ 31) where
  fresh_Inv :
      (w r : Rb) (sh : Shared)
      → w.size ≡ 2 ^ log
      → r.size ≡ 2 ^ log
      → length sh.rb_base ≡ 2 ^ log
      → sh.read_ptr ≡ 0
      → sh.write_ptr ≡ 0
      → w.current_write_offset ≡ 0
      → r.current_read_offset ≡ 0
      → r.current_write_offset ≡ 0
      → Inv (2 ^ log) log (record { writer = w; reader = r; shared = sh }) empty_pipe
  fresh_Inv w r sh ws rs m rp wp wo ro rwo = record {
    small = small;
    power = refl;
    writer_size = ws;
    reader_size = rs;
    storage = m;
    read_lt = omega (arith, pow_pos log);
    space_left = pow_pos log;
    reader_at = ro ∙ start sh.read_ptr rp;
    committed_at = wp ∙ start r.current_read_offset ro;
    writer_at = wo ∙ start sh.write_ptr wp;
    seen = 0;
    seen_le = omega arith;
    seen_at = rwo ∙ start r.current_read_offset ro;
    bytes = refl;
  }
    where
      start : (o : ℕ) → o ≡ 0 → 0 ≡ (o + 0) % 2 ^ log
      start o e = sym (mod-eq_of_lt (pow_pos log)) ∙ ap (λ t. t % 2 ^ log) (omega arith)

  mask_passes : bit_and (2 ^ log) (u32 (2 ^ log + 2 ^ 32 - 1)) ≡ 0
  mask_passes =
      ap (bit_and (2 ^ log))
        (omega (arith, pow_pos log, pow-le-pow_right {n = 2} (omega arith) small))
      ∙ bit_and_mask log (2 ^ log)
      ∙ mod_self (2 ^ log)

  -- For every power of two up to 2^31, over memory of that size and shared offsets that are 0, both
  -- ends are accepted by `micscif_rb_init` and together stand for the empty pipe.
  pub init-Inv :
      (w r : Rb) (sh : Shared)
      → length sh.rb_base ≡ 2 ^ log
      → sh.read_ptr ≡ 0
      → sh.write_ptr ≡ 0
      → (w' : Rb) × (r' : Rb) × (micscif_rb_init w sh (2 ^ log) ≡ some w')
        × (micscif_rb_init r sh (2 ^ log) ≡ some r')
        × Inv (2 ^ log) log (record { writer = w'; reader = r'; shared = sh }) empty_pipe
  unfolding micscif_rb_init
  init-Inv w r sh m rp wp =
      let passes = (==_iff _ 0).1 mask_passes in
      (
        record w {
          size = 2 ^ log;
          current_read_offset = sh.read_ptr;
          current_write_offset = sh.write_ptr;
        },
        record r {
          size = 2 ^ log;
          current_read_offset = sh.read_ptr;
          current_write_offset = sh.write_ptr;
        },
        rw passes,
        rw passes,
        fresh_Inv _ _ sh refl refl m rp wp wp rp wp,
      )

  -- After both ends have reset, whatever the offsets were, the queue stands for the empty pipe, if
  -- both ends and the memory have the size of a power of two up to 2^31.
  pub reset-Inv :
      (q : Queue)
      → q.writer.size ≡ 2 ^ log
      → q.reader.size ≡ 2 ^ log
      → length q.shared.rb_base ≡ 2 ^ log
      → let (w, sh) = micscif_rb_reset q.writer q.shared in
        let (r, sh') = micscif_rb_reset q.reader sh in
        Inv (2 ^ log) log (record { writer = w; reader = r; shared = sh' }) empty_pipe
  unfolding micscif_rb_reset
  reset-Inv q ws rs m = fresh_Inv _ _ _ ws rs m refl refl refl refl refl
