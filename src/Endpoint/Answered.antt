-- ===== src/Endpoint/Answered.antt =====
-- The requests that wait and the answers, through each handler of a message.
use intel_xeon_phi_kernel_dr.Common.{
  ℕ, ◌+◌, ◌-◌, ◌≤◌, ◌≡◌, refl, ap, inl, inr, Bool, true, false, Option, none, some, List, [], ◌∷◌,
  ◌++◌, leb, ◌==◌, ==_iff, Bool-cases, Option-cases, arith, ◌∙◌,
}
use intel_xeon_phi_kernel_dr.Endpoint.{
  invalidate_round, invalidate_rounds, disconnected, cnct_rej, term_ack, discnt_ack, NodeMsg, Endpt,
  Node, set_ep, is_connecting, is_bound, mem, find_listen_ep, keep_before, get_connection_request,
  reject, queue_request, scif_cnctreq_resp, scif_cnctgnt_resp, scif_cnctgntack_resp,
  scif_cnctgntnack_resp, scif_cnctrej_resp, terminate_request, terminate_at, scif_cnctterm_resp,
  scif_termack_resp, disconnect_local, scif_discnct_resp, scif_discntack_resp,
}
use intel_xeon_phi_kernel_dr.Endpoint.Tally.{
  request_of, waiting, tally, waiting-snoc, answers-post, set_ep-conlist, tally-set_ep,
}

-- The payload names the endpoint of one node only, among the requests of a list.
abbrev pub OneSource : NodeMsg → List NodeMsg → Type 0
OneSource msg [] = Unit {0}
OneSource msg (m ∷ ms) = (m.payload0 ≡ msg.payload0 → m.src.node ≡ msg.src.node) × OneSource msg ms

module _ (l dev payload : ℕ) where
  reject-tally :
      (msg : NodeMsg) (s : Node)
      → tally l dev payload (reject msg s) ≡ tally l dev payload s + request_of dev payload msg
  unfolding reject
  reject-tally msg s =
      ground
        (arith, answers-post l dev payload msg.src.node (record msg { uop = cnct_rej }) s.posted)

  queue_request-ge :
      (msg : NodeMsg) (o : Option ℕ) (s : Node)
      → tally l dev payload s ≤ tally l dev payload (queue_request msg o s)
  unfolding queue_request
  queue_request-ge msg none s = omega (arith, reject-tally msg s)
  queue_request-ge msg (some x) s = elim (Bool-cases (leb (s.ep x).backlog (s.ep x).conreqcnt)) [
    | inl y ↦ rw y (omega (arith, reject-tally msg s))
    | inr y ↦ rw y (
        queued
          (record (s.ep x) {
            conlist = (s.ep x).conlist ++ msg ∷ [];
            conreqcnt = (s.ep x).conreqcnt + 1;
          })
          refl)
  ]
    where
      queued :
          (y : Endpt)
          → y.conlist ≡ (s.ep x).conlist ++ msg ∷ []
          → tally l dev payload s ≤ tally l dev payload (set_ep x y s)
      queued y e = elim (Bool-cases (x == l)) [
        | inl same ↦
            let at : x ≡ l = (==_iff x l).0 same in
            ground (
              arith,
              set_ep-conlist l dev payload s.ep x y,
              waiting-snoc l dev payload (s.ep x).conlist msg,
              ap (λ t. (s.ep t).conlist) at,
              ap (waiting dev payload) e,
            )
        | inr other ↦ ground (arith, set_ep-conlist l dev payload s.ep x y)
      ]

  -- The request is in the list of `l` afterwards, or is rejected.
  queue_request-at :
      (msg : NodeMsg) (s : Node)
      → tally l dev payload (queue_request msg (some l) s)
        ≡ tally l dev payload s + request_of dev payload msg
  unfolding queue_request
  queue_request-at msg s = elim (Bool-cases (leb (s.ep l).backlog (s.ep l).conreqcnt)) [
    | inl y ↦ rw y (reject-tally msg s)
    | inr y ↦ rw y (
        ground (
          arith,
          set_ep-conlist l dev payload s.ep l (record (s.ep l) {
            conlist = (s.ep l).conlist ++ msg ∷ [];
            conreqcnt = (s.ep l).conreqcnt + 1;
          }),
          (==_iff l l).1 refl,
          waiting-snoc l dev payload (s.ep l).conlist msg,
        ))
  ]

  pub cnctreq-tally :
      (kmalloc : Bool) (msg : NodeMsg) (s : Node)
      → find_listen_ep s.ep msg.dst.port s.mi_listen ≡ some l
      → tally l dev payload (scif_cnctreq_resp kmalloc msg s)
        ≡ tally l dev payload s + request_of dev payload msg
  unfolding scif_cnctreq_resp
  cnctreq-tally true msg s at = rw at (queue_request-at msg s)
  cnctreq-tally false msg s at = reject-tally msg s

  pub cnctreq-ge :
      (kmalloc : Bool) (msg : NodeMsg) (s : Node)
      → tally l dev payload s ≤ tally l dev payload (scif_cnctreq_resp kmalloc msg s)
  unfolding scif_cnctreq_resp
  cnctreq-ge true msg s = queue_request-ge msg (find_listen_ep s.ep msg.dst.port s.mi_listen) s
  cnctreq-ge false msg s = omega (arith, reject-tally msg s)

  get_connection_request-waiting :
      (msg : NodeMsg) (ms rest : List NodeMsg)
      → OneSource msg ms
      → get_connection_request msg.payload0 ms ≡ some rest
      → waiting dev payload ms ≡ waiting dev payload rest + request_of dev payload msg
  unfolding get_connection_request keep_before waiting
  get_connection_request-waiting msg [] rest one h = cc
  get_connection_request-waiting msg (m ∷ ms) rest (source, one) h =
      elim (Bool-cases (m.payload0 == msg.payload0)) [
        | inl same ↦
            let at : m.payload0 ≡ msg.payload0 = (==_iff _ _).0 same in
            ground (arith, same, source at, at)
        | inr other ↦ elim (Option-cases (get_connection_request msg.payload0 ms)) [
          | inl none_there ↦ absurd (ground (arith, other, none_there))
          | inr (found, e) ↦
              ground (arith, other, e, get_connection_request-waiting msg ms found one e)
        ]
      ]

  terminate_request-ge :
      (msg : NodeMsg) (x : ℕ) (o : Option (List NodeMsg)) (s : Node)
      → OneSource msg (s.ep x).conlist
      → get_connection_request msg.payload0 (s.ep x).conlist ≡ o
      → tally l dev payload s ≤ tally l dev payload (terminate_request msg x o s)
  unfolding terminate_request
  terminate_request-ge msg x none s one h = omega arith
  terminate_request-ge msg x (some rest) s one h = elim (Bool-cases (x == l)) [
    | inl same ↦
        let at : x ≡ l = (==_iff x l).0 same in
        ground (
          arith,
          set_ep-conlist l dev payload s.ep x
              (record (s.ep x) { conlist = rest; conreqcnt = (s.ep x).conreqcnt - 1 }),
          answers-post l dev payload msg.src.node (record msg { uop = term_ack }) s.posted,
          get_connection_request-waiting msg (s.ep x).conlist rest one h,
          ap (λ t. (s.ep t).conlist) at,
        )
    | inr other ↦ ground (
      arith,
      set_ep-conlist l dev payload s.ep x
          (record (s.ep x) { conlist = rest; conreqcnt = (s.ep x).conreqcnt - 1 }),
      answers-post l dev payload msg.src.node (record msg { uop = term_ack }) s.posted,
    )
  ]

  terminate_at-ge :
      (msg : NodeMsg) (o : Option ℕ) (s : Node)
      → ((x : ℕ) → OneSource msg (s.ep x).conlist)
      → tally l dev payload s ≤ tally l dev payload (terminate_at msg o s)
  unfolding terminate_at
  terminate_at-ge msg none s one = omega arith
  terminate_at-ge msg (some x) s one =
      terminate_request-ge msg x (get_connection_request msg.payload0 (s.ep x).conlist) s (one x)
        refl

  pub cnctterm-ge :
      (msg : NodeMsg) (s : Node)
      → ((x : ℕ) → OneSource msg (s.ep x).conlist)
      → tally l dev payload s ≤ tally l dev payload (scif_cnctterm_resp msg s)
  unfolding scif_cnctterm_resp
  cnctterm-ge msg s one = terminate_at-ge msg (find_listen_ep s.ep msg.dst.port s.mi_listen) s one

  pub cnctgnt-tally :
      (msg : NodeMsg) (s : Node)
      → tally l dev payload (scif_cnctgnt_resp msg s) ≡ tally l dev payload s
  unfolding scif_cnctgnt_resp
  cnctgnt-tally msg s = elim (Bool-cases (is_connecting (s.ep msg.payload0).state)) [
    | inl y ↦ rw y (tally-set_ep l dev payload msg.payload0 _ s refl)
    | inr y ↦ rw y refl
  ]

  pub cnctgntack-tally :
      (scifdev : ℕ) (msg : NodeMsg) (s : Node)
      → tally l dev payload (scif_cnctgntack_resp scifdev msg s) ≡ tally l dev payload s
  unfolding scif_cnctgntack_resp
  cnctgntack-tally scifdev msg s = tally-set_ep l dev payload msg.payload0 _ s refl

  pub cnctgntnack-tally :
      (msg : NodeMsg) (s : Node)
      → tally l dev payload (scif_cnctgntnack_resp msg s) ≡ tally l dev payload s
  unfolding scif_cnctgntnack_resp
  cnctgntnack-tally msg s = tally-set_ep l dev payload msg.payload0 _ s refl

  pub cnctrej-tally :
      (msg : NodeMsg) (s : Node)
      → tally l dev payload (scif_cnctrej_resp msg s) ≡ tally l dev payload s
  unfolding scif_cnctrej_resp
  cnctrej-tally msg s = elim (Bool-cases (is_connecting (s.ep msg.payload0).state)) [
    | inl y ↦ rw y (tally-set_ep l dev payload msg.payload0 _ s refl)
    | inr y ↦ rw y refl
  ]

  pub termack-tally :
      (msg : NodeMsg) (s : Node)
      → tally l dev payload (scif_termack_resp msg s) ≡ tally l dev payload s
  unfolding scif_termack_resp
  termack-tally msg s = elim (Bool-cases (is_bound (s.ep msg.payload0).state)) [
    | inl y ↦ rw y refl
    | inr y ↦ rw y (tally-set_ep l dev payload msg.payload0 _ s refl)
  ]

  pub discntack-tally :
      (msg : NodeMsg) (s : Node)
      → tally l dev payload (scif_discntack_resp msg s) ≡ tally l dev payload s
  unfolding scif_discntack_resp
  discntack-tally msg s = tally-set_ep l dev payload msg.payload0 _ s refl

  disconnect_local-tally :
      (scifdev x : ℕ) (s : Node)
      → tally l dev payload (disconnect_local scifdev x s) ≡ tally l dev payload s
  unfolding disconnect_local
  disconnect_local-tally scifdev x s = elim (Bool-cases (mem x s.mi_connected)) [
    | inl y ↦ rw y (tally-set_ep l dev payload x (record (s.ep x) { state = disconnected }) s refl)
    | inr y ↦ rw y refl
  ]

  invalidate_round-tally :
      (node x : ℕ) (s : Node)
      → tally l dev payload (invalidate_round node x s) ≡ tally l dev payload s
  unfolding invalidate_round
  invalidate_round-tally node x s = elim (Bool-cases ((s.ep x).remote_dev == node)) [
    | inl y ↦ rw y (disconnect_local-tally node x s)
    | inr y ↦ rw y refl
  ]

  pub invalidate_rounds-tally :
      (node : ℕ) (es : List ℕ) (s : Node)
      → tally l dev payload (invalidate_rounds node es s) ≡ tally l dev payload s
  unfolding invalidate_rounds
  invalidate_rounds-tally node [] s = refl
  invalidate_rounds-tally node (e ∷ es) s =
      invalidate_rounds-tally node es (invalidate_round node e s) ∙ invalidate_round-tally node e s

  pub discnct-tally :
      (scifdev : ℕ) (msg : NodeMsg) (s : Node)
      → tally l dev payload (scif_discnct_resp scifdev msg s) ≡ tally l dev payload s
  unfolding scif_discnct_resp
  discnct-tally scifdev msg s = ground (
    arith,
    answers-post l dev payload msg.src.node (record msg { uop = discnt_ack })
        (disconnect_local scifdev msg.payload1 s).posted,
    disconnect_local-tally scifdev msg.payload1 s,
  )
