-- ===== src/Endpoint/Accept/Answers.antt =====
-- The requests and the answers in the steps of `scif_accept`.
use intel_xeon_phi_kernel_dr.Common.{
  ℕ, ◌+◌, ◌-◌, ◌≤◌, ◌≡◌, ◌≢◌, refl, ap, inl, inr, Bool, true, false, List, [], ◌∷◌, ◌==◌, ==_iff,
  Bool-cases, arith,
}
use intel_xeon_phi_kernel_dr.Endpoint.{cnct_rej, NodeMsg, Endpt, Node, set_ep, post}
use intel_xeon_phi_kernel_dr.Endpoint.Setup.{is_nonzero}
use intel_xeon_phi_kernel_dr.Endpoint.Accept.{
  Accept, took, accept_make, is_listening, Resources, accept_error, accepted, grant, refuse,
  accept_first, accept_take, accept_finish,
}
use intel_xeon_phi_kernel_dr.Endpoint.Tally.{
  request_of, waiting, tally, answers-post, set_ep-conlist,
}

-- The request that a thread of `scif_accept` holds after its turn.
unfoldable pub taken_by : Accept → List NodeMsg
taken_by (took m) = m ∷ []
taken_by _ = []

module _ (l dev payload : ℕ) where
  refuse-tally :
      (m : NodeMsg) (s : Node)
      → tally l dev payload (refuse m s) ≡ tally l dev payload s + request_of dev payload m
  unfolding refuse
  refuse-tally m s = ground (
    arith,
    answers-post l dev payload m.src.node (record m { dst = m.src; uop = cnct_rej }) s.posted,
  )

  -- Without its first request, the list of `lep` is a place short, if `lep` is `l`.
  taken-tally :
      (lep : ℕ) (m : NodeMsg) (rest : List NodeMsg) (y : Endpt) (s : Node)
      → (s.ep lep).conlist ≡ m ∷ rest
      → y.conlist ≡ rest
      → tally l dev payload s ≤ tally l dev payload (set_ep lep y s) + request_of dev payload m
  unfolding waiting
  taken-tally lep m rest y s e f = elim (Bool-cases (lep == l)) [
    | inl same ↦
        let at : lep ≡ l = (==_iff lep l).0 same in
        ground (
          arith,
          set_ep-conlist l dev payload s.ep lep y,
          ap (λ t. waiting dev payload (s.ep t).conlist) at,
          ap (waiting dev payload) e,
          ap (waiting dev payload) f,
        )
    | inr other ↦ ground (arith, set_ep-conlist l dev payload s.ep lep y)
  ]

  granted-tally :
      (r : Resources) (lep : Endpt) (cep : ℕ) (m : NodeMsg) (s : Node)
      → cep ≢ l
      → tally l dev payload (post m.src.node (grant r lep m) (set_ep cep (accepted r lep m) s))
        ≡ tally l dev payload s + request_of dev payload m
  unfolding grant
  granted-tally r lep cep m s fresh = ground (
    arith,
    answers-post l dev payload m.src.node (grant r lep m) s.posted,
    set_ep-conlist l dev payload s.ep cep (accepted r lep m),
    ==_iff cep l,
  )

  -- The request that was taken is held by the thread.
  pub accept_first-ge :
      (lep : ℕ) (ms : List NodeMsg) (s : Node)
      → (s.ep lep).conlist ≡ ms
      → let out = accept_first lep ms s in
        tally l dev payload s ≤ tally l dev payload out.1 + waiting dev payload (taken_by out.0)
  unfolding accept_first waiting taken_by
  accept_first-ge lep [] s e = omega arith
  accept_first-ge lep (m ∷ rest) s e = omega (
    arith,
    taken-tally lep m rest
        (record (s.ep lep) { conlist = rest; conreqcnt = (s.ep lep).conreqcnt - 1 }) s e refl,
  )

  pub accept_take-ge :
      (lep : ℕ) (s : Node)
      → let out = accept_take lep s in
        tally l dev payload s ≤ tally l dev payload out.1 + waiting dev payload (taken_by out.0)
  unfolding accept_take
  accept_take-ge lep s = elim (Bool-cases (is_listening (s.ep lep).state)) [
    | inr y ↦ rw y (omega arith)
    | inl y ↦ elim (Bool-cases ((s.ep lep).conreqcnt == 0)) [
      | inl z ↦ rw (y, z) (omega arith)
      | inr z ↦ rw (y, z) (accept_first-ge lep (s.ep lep).conlist s refl)
    ]
  ]

  pub accept_make-tally :
      (r : Resources) (cep lep : ℕ) (m : NodeMsg) (s : Node)
      → cep ≢ l
      → tally l dev payload (accept_make r cep lep m s).1
        ≡ tally l dev payload s + request_of dev payload m
  unfolding accept_make
  accept_make-tally r cep lep m s fresh = elim (Bool-cases (is_nonzero (accept_error r))) [
    | inl y ↦ rw y (refuse-tally m s)
    | inr y ↦ rw y (granted-tally r (s.ep lep) cep m s fresh)
  ]

  pub accept_finish-ge :
      (lost sync : Bool) (cep : ℕ) (m : NodeMsg) (s : Node)
      → tally l dev payload s ≤ tally l dev payload (accept_finish lost sync cep m s).1
  unfolding accept_finish
  accept_finish-ge true sync cep m s = omega (arith, refuse-tally m s)
  accept_finish-ge false sync cep m s = omega arith
