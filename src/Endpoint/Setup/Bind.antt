-- ===== src/Endpoint/Setup/Bind.antt =====
-- What `scif_bind` does on every branch, to the endpoint and to the ports.
use intel_xeon_phi_kernel_dr.Common.{
  ℕ, zero, suc, ◌/◌, ◌%◌, ◌<◌, ◌≡◌, ◌≢◌, refl, sym, ap, ◌∙◌, ◌⊎◌, inl, inr, Bool, true, false, not,
  ◌&&◌, ltb, ◌==◌, ==_iff, Bool-cases, if◌then◌else◌, arith,
}
use intel_xeon_phi_kernel_dr.Common.Int.{ℤ, pos, negsuc}
use intel_xeon_phi_kernel_dr.Ports.{Ports, rsrv_scif_port, get_scif_port}
use intel_xeon_phi_kernel_dr.Ports.Spec.{free, Inv, Changed, Unchanged}
use intel_xeon_phi_kernel_dr.Ports.Bits.{bit}
use intel_xeon_phi_kernel_dr.Ports.Calls.{rsrv_scif_port_lem}
use intel_xeon_phi_kernel_dr.Ports.Search.{get_scif_port_lem}
use intel_xeon_phi_kernel_dr.Endpoint.{bound, Node, update, is_bound}
use intel_xeon_phi_kernel_dr.Endpoint.Setup.{
  eacces, einval, enospc, eisconn, scif_admin_port_end, is_unbound, bind_to, scif_bind,
}

abbrev is_error : ℤ → Bool
is_error (pos n) = false
is_error (negsuc n) = true

-- The endpoint is bound to a port that was free: the port asked for, or any if 0 was asked for.
pub record Success (admin : Bool) (e pn : ℕ) (s : Node) (o : ℤ × Node) : Type 0 where
  pub port : ℕ
  pub result : o.0 ≡ pos port
  pub asked : (pn ≡ 0) ⊎ (port ≡ pn)
  pub allowed : pn ≢ 0 → pn < 1024 → admin ≡ true
  pub was_unbound : is_unbound (s.ep e).state ≡ true
  pub was_free : free s.ports port ≡ true
  pub taken : Changed s.ports o.1.ports port false
  pub kept : Inv o.1.ports
  pub endpoint :
      o.1.ep
      ≡ update s.ep e
          (record (s.ep e) { state = bound; port = record { node = s.nodeid; port = port } })

-- An error: no endpoint and no port has changed.
pub record Failure (s : Node) (o : ℤ × Node) : Type 0 where
  pub result : is_error o.0 ≡ true
  pub endpoints : o.1.ep ≡ s.ep
  pub ports : Unchanged s.ports o.1.ports
  pub kept : Inv o.1.ports

module _ (admin : Bool) (e : ℕ) (s : Node) (inv : Inv s.ports) where
  same_node : (err : ℤ) → is_error err ≡ true → Failure s (err, s)
  same_node err h = record { result = h; endpoints = refl; ports = λ j. refl; kept = inv }

  -- An endpoint that is not bound asks for a port of its own.
  reserve :
      (pn : ℕ)
      → 0 < pn
      → pn < 65536
      → (pn ≢ 0 → pn < 1024 → admin ≡ true)
      → is_unbound (s.ep e).state ≡ true
      → let (r, ports) = rsrv_scif_port pn s.ports in
        let o : ℤ × Node =
          if r == pn then bind_to e pn ports s else (einval, record s { ports = ports }) in
        Success admin e pn s o ⊎ Failure s o
  unfolding bind_to
  reserve pn some_port small allowed unb =
      let (answer, changed, kept) = rsrv_scif_port_lem s.ports inv pn some_port small in
      elim (Bool-cases (free s.ports pn)) [
        | inl y ↦
            let same : ((rsrv_scif_port pn s.ports).0 == pn) ≡ true = ground (arith, answer, y) in
            rw same (
              inl (record {
                port = pn;
                result = refl;
                asked = inr refl;
                allowed = allowed;
                was_unbound = unb;
                was_free = y;
                taken = changed;
                kept = kept;
                endpoint = refl;
              }))
        | inr y ↦
            let other : ((rsrv_scif_port pn s.ports).0 == pn) ≡ false = ground (arith, answer, y) in
            rw other (
              inr (record {
                result = refl;
                endpoints = refl;
                ports = λ j. unchanged pn (rsrv_scif_port pn s.ports).1 y changed j;
                kept = kept;
              }))
      ]
    where
      unchanged :
          (p : ℕ) (t : Ports)
          → free s.ports p ≡ false
          → Changed s.ports t p false
          → Unchanged s.ports t
      unchanged p t taken_before c j = elim (Bool-cases (p == j)) [
        | inl y ↦
            let gone : free t j ≡ false = c j ∙ rw y refl in
            gone ∙ sym taken_before ∙ ap (free s.ports) ((==_iff p j).0 y)
        | inr y ↦ c j ∙ rw y refl
      ]

  search :
      is_unbound (s.ep e).state ≡ true
      → let (p, ports) = get_scif_port s.ports in
        let o : ℤ × Node =
          if p == 0 then (enospc, record s { ports = ports }) else bind_to e p ports s in
        Success admin e 0 s o ⊎ Failure s o
  unfolding bind_to
  search unb = elim (get_scif_port_lem s.ports inv) [
    | inl (p, f) ↦
        let given : ((get_scif_port s.ports).0 == 0) ≡ false = ground (arith, f.port, f.above) in
        rw (given, f.port)
          (inl (record {
            port = p;
            result = refl;
            asked = inl refl;
            allowed = λ some_port. absurd (some_port refl);
            was_unbound = unb;
            was_free = f.was_free;
            taken = f.taken;
            kept = f.kept;
            endpoint = refl;
          }))
    | inr n ↦
        let given : ((get_scif_port s.ports).0 == 0) ≡ true = ground (arith, n.none_given) in
        rw given (
          inr (record {
            result = refl;
            endpoints = refl;
            ports = λ j. ap (λ bs. bit bs (j / 64) (j % 64)) n.same_bits;
            kept = n.kept;
          }))
  ]

  -- Where the invariant of the ports holds: `scif_bind` gives an unbound endpoint the port asked
  -- for, or any port if 0 was asked for, if that port was free and the caller may use it; the port
  -- is then not free, the other ports and endpoints are as before. On every other branch it
  -- answers an error, and no endpoint and no port has changed.
  pub scif_bind_lem :
      (pn : ℕ)
      → pn < 65536
      → Success admin e pn s (scif_bind admin e pn s) ⊎ Failure s (scif_bind admin e pn s)
  unfolding scif_bind
  scif_bind_lem pn small =
      elim (Bool-cases (not (pn == 0) && ltb pn scif_admin_port_end && not admin)) [
        | inl y ↦ rw y (inr (same_node eacces refl))
        | inr y ↦ elim (Bool-cases (is_bound (s.ep e).state)) [
          | inl b ↦ rw (y, b) (inr (same_node einval refl))
          | inr b ↦ elim (Bool-cases (is_unbound (s.ep e).state)) [
            | inr u ↦ rw (y, b, u) (inr (same_node eisconn refl))
            | inl u ↦ rw (y, b, u) (by_port pn small u (may_use pn y))
          ]
        ]
      ]
    where
      may_use :
          (n : ℕ)
          → (not (n == 0) && ltb n scif_admin_port_end && not admin) ≡ false
          → n ≢ 0
          → n < 1024
          → admin ≡ true
      may_use n y some_port low = ground arith

      by_port :
          (n : ℕ)
          → n < 65536
          → is_unbound (s.ep e).state ≡ true
          → (n ≢ 0 → n < 1024 → admin ≡ true)
          → let o : ℤ × Node =
              if not (n == 0)
              then if (rsrv_scif_port n s.ports).0 == n
                then bind_to e n (rsrv_scif_port n s.ports).1 s
                else (einval, record s { ports = (rsrv_scif_port n s.ports).1 })
              else if (get_scif_port s.ports).0 == 0
              then (enospc, record s { ports = (get_scif_port s.ports).1 })
              else bind_to e (get_scif_port s.ports).0 (get_scif_port s.ports).1 s in
            Success admin e n s o ⊎ Failure s o
      by_port zero small' unb allowed = search unb
      by_port (suc n) small' unb allowed =
          let nonzero : (suc n == 0) ≡ false = ground arith in
          rw nonzero (reserve (suc n) (omega arith) small' allowed unb)
