-- ===== src/Ports/Held.antt =====
-- Histories of calls by several clients: the ports that they hold.
use intel_xeon_phi_kernel_dr.Common.{
  ℕ, zero, suc, ◌<◌, ◌/◌, ◌%◌, subst, ◌≡◌, ◌≢◌, refl, sym, ap, ◌∙◌, inl, inr, true, false, List, [],
  ◌∷◌, ◌==◌, Bool-cases, if◌then◌else◌, arith,
}
use intel_xeon_phi_kernel_dr.Ports.{
  Ports, incr, u16, init_scif_array, rsrv_scif_port, get_scif_port, put_scif_port,
}
use intel_xeon_phi_kernel_dr.Ports.Spec.{free, Inv, Changed, init-Inv}
use intel_xeon_phi_kernel_dr.Ports.Calls.{
  rsrv_scif_port_lem, put_scif_port_lem, rsrv_scif_port_zero, put_scif_port_zero, error_Inv,
}
use intel_xeon_phi_kernel_dr.Ports.Bits.{bit}
use intel_xeon_phi_kernel_dr.Ports.Search.{get_scif_port_lem}

pub data Call : Type 0 where
  reserve : ℕ → Call
  get : Call
  release : ℕ → Call

abbrev pub NotIn : ℕ → List ℕ → Type 0
NotIn p [] = Unit
NotIn p (x ∷ xs) = (p ≢ x) × NotIn p xs

abbrev pub Distinct : List ℕ → Type 0
Distinct [] = Unit
Distinct (x ∷ xs) = NotIn x xs × Distinct xs

pub remove : ℕ → List ℕ → List ℕ
remove p [] = []
remove p (x ∷ xs) = let rest = remove p xs in if p == x then rest else x ∷ rest

-- A port other than 0 that a call returns is held until it is released.
abbrev pub hold : ℕ → List ℕ → List ℕ
hold r held = if r == 0 then held else r ∷ held

pub step : Ports × List ℕ → Call → Ports × List ℕ
step (st, held) (reserve p) = let (r, st') = rsrv_scif_port (u16 p) st in (st', hold r held)
step (st, held) get = let (r, st') = get_scif_port st in (st', hold r held)
step (st, held) (release p) = (put_scif_port (u16 p) st, remove (u16 p) held)

pub run : Ports × List ℕ → List Call → Ports × List ℕ
run s [] = s
run s (c ∷ cs) = run (step s c) cs

abbrev NoneFree : Ports → List ℕ → Type 0
NoneFree st [] = Unit
NoneFree st (p ∷ ps) = (free st p ≡ false) × NoneFree st ps

pub record IsSafe (s : Ports × List ℕ) : Type 0 where
  pub inv : Inv s.0
  pub none_free : NoneFree s.0 s.1
  pub distinct : Distinct s.1

-- A free port is held by nobody.
free_not_held :
    (st : Ports) (p : ℕ) (held : List ℕ) → NoneFree st held → free st p ≡ true → NotIn p held
free_not_held st p [] n h = tt
free_not_held st p (x ∷ xs) n h = ((λ e. cc (ap (free st) e, n.0, h)), free_not_held st p xs n.1 h)

-- Taking a port frees none.
taken-NoneFree :
    (st st' : Ports) (p : ℕ) (held : List ℕ)
    → Changed st st' p false
    → NoneFree st held
    → NoneFree st' held
taken-NoneFree st st' p [] c n = tt
taken-NoneFree st st' p (x ∷ xs) c n = (c x ∙ ground (arith, n.0), taken-NoneFree st st' p xs c n.1)

taken_self : (st st' : Ports) (p : ℕ) → Changed st st' p false → free st' p ≡ false
taken_self st st' p c = c p ∙ ground arith

-- Releasing a port frees no other.
released-NoneFree :
    (st st' : Ports) (p : ℕ) (held : List ℕ)
    → Changed st st' p true
    → NoneFree st held
    → NoneFree st' (remove p held)
unfolding remove
released-NoneFree st st' p [] c n = tt
released-NoneFree st st' p (x ∷ xs) c n = elim (Bool-cases (p == x)) [
  | inl e ↦ rw e (released-NoneFree st st' p xs c n.1)
  | inr e ↦ rw e (c x ∙ rw e n.0, released-NoneFree st st' p xs c n.1)
]

remove-NotIn : (p x : ℕ) (xs : List ℕ) → NotIn x xs → NotIn x (remove p xs)
unfolding remove
remove-NotIn p x [] n = tt
remove-NotIn p x (y ∷ ys) n = ground (arith, remove-NotIn p x ys n.1)

remove-Distinct : (p : ℕ) (xs : List ℕ) → Distinct xs → Distinct (remove p xs)
unfolding remove
remove-Distinct p [] d = tt
remove-Distinct p (x ∷ xs) d = ground (arith, remove-NotIn p x xs d.0, remove-Distinct p xs d.1)

NoneFree-remove :
    (st : Ports) (p : ℕ) (held : List ℕ) → NoneFree st held → NoneFree st (remove p held)
unfolding remove
NoneFree-remove st p [] n = tt
NoneFree-remove st p (x ∷ xs) n = ground (arith, NoneFree-remove st p xs n.1)

NoneFree-same_bits :
    (st st' : Ports) (held : List ℕ)
    → st'.port_bits ≡ st.port_bits
    → NoneFree st held
    → NoneFree st' held
NoneFree-same_bits st st' [] e n = tt
NoneFree-same_bits st st' (x ∷ xs) e n =
    (ap (λ ws. bit ws (x / 64) (x % 64)) e ∙ n.0, NoneFree-same_bits st st' xs e n.1)

module _ (st : Ports) (held : List ℕ) (safe : IsSafe (st, held)) where
  -- A port that was free is taken and held.
  granted_IsSafe :
      (st' : Ports) (p : ℕ)
      → free st p ≡ true
      → Changed st st' p false
      → Inv st'
      → IsSafe (st', hold p held)
  granted_IsSafe st' p f c i = elim (Bool-cases (p == 0)) [
    | inl e ↦ rw e (record {
      inv = i;
      none_free = taken-NoneFree st st' p held c safe.none_free;
      distinct = safe.distinct;
    })
    | inr e ↦ rw e (record {
      inv = i;
      none_free = (taken_self st st' p c, taken-NoneFree st st' p held c safe.none_free);
      distinct = (free_not_held st p held safe.none_free f, safe.distinct);
    })
  ]

  failed_IsSafe : (st' : Ports) → NoneFree st' held → Inv st' → IsSafe (st', held)
  failed_IsSafe st' n i = record { inv = i; none_free = n; distinct = safe.distinct }

  returned :
      (out : ℕ × Ports) (p : ℕ)
      → out.0 ≡ p
      → IsSafe (out.1, hold p held)
      → IsSafe (out.1, hold out.0 held)
  returned out p e h = subst (λ r. IsSafe (out.1, hold r held)) (sym e) h

  reserve-IsSafe :
      (p : ℕ) → p < 65536 → IsSafe (let (r, st') = rsrv_scif_port p st in (st', hold r held))
  reserve-IsSafe zero h = rw (rsrv_scif_port_zero st safe.inv) (
      failed_IsSafe _
        (NoneFree-same_bits st (record st { port_err = incr st.port_err }) held refl safe.none_free)
        (error_Inv st safe.inv _))
  reserve-IsSafe (suc p) h =
      let (value, c, i) = rsrv_scif_port_lem st safe.inv (suc p) (omega arith) h in
      let out : ℕ × Ports = rsrv_scif_port (suc p) st in
      elim (Bool-cases (free st (suc p))) [
        | inl f ↦ returned out (suc p) (rw f at value) (granted_IsSafe out.1 (suc p) f c i)
        | inr f ↦
            returned out 0 (rw f at value)
              (failed_IsSafe out.1 (taken-NoneFree st out.1 (suc p) held c safe.none_free) i)
      ]

  get-IsSafe : IsSafe (let (r, st') = get_scif_port st in (st', hold r held))
  get-IsSafe = elim (get_scif_port_lem st safe.inv) [
    | inl (p, f) ↦
        returned (get_scif_port st) p f.port
          (granted_IsSafe (get_scif_port st).1 p f.was_free f.taken f.kept)
    | inr n ↦ returned (get_scif_port st) 0 n.none_given (
        failed_IsSafe (get_scif_port st).1
          (NoneFree-same_bits st (get_scif_port st).1 held n.same_bits safe.none_free) n.kept)
  ]

  release-IsSafe : (p : ℕ) → p < 65536 → IsSafe (put_scif_port p st, remove p held)
  release-IsSafe zero h = rw (put_scif_port_zero st safe.inv) (record {
    inv = error_Inv st safe.inv _;
    none_free = NoneFree-remove st 0 held safe.none_free;
    distinct = remove-Distinct 0 held safe.distinct;
  })
  release-IsSafe (suc p) h =
      let (c, i) = put_scif_port_lem st safe.inv (suc p) (omega arith) h in
      record {
        inv = i;
        none_free = released-NoneFree st (put_scif_port (suc p) st) (suc p) held c safe.none_free;
        distinct = remove-Distinct (suc p) held safe.distinct;
      }

u16-lt : (p : ℕ) → u16 p < 65536
u16-lt p = omega arith

step-IsSafe : (s : Ports × List ℕ) (c : Call) → IsSafe s → IsSafe (step s c)
unfolding step
step-IsSafe (st, held) (reserve p) s = reserve-IsSafe st held s (u16 p) (u16-lt p)
step-IsSafe (st, held) get s = get-IsSafe st held s
step-IsSafe (st, held) (release p) s = release-IsSafe st held s (u16 p) (u16-lt p)

run_from-IsSafe : (s : Ports × List ℕ) (cs : List Call) → IsSafe s → IsSafe (run s cs)
unfolding run
run_from-IsSafe s [] v = v
run_from-IsSafe s (c ∷ cs) v = run_from-IsSafe (step s c) cs (step-IsSafe s c v)

-- From the initialised array on, no history of calls gives a port to two holders: the ports that are
-- held are distinct, and none of them is free.
pub run-IsSafe :
    (st : Ports) (calls : List Call)
    → st.init_array ≡ true
    → IsSafe (run (init_scif_array st, []) calls)
run-IsSafe st calls h =
    run_from-IsSafe _ calls (record { inv = init-Inv st h; none_free = tt; distinct = tt })
