-- ===== src/Endpoint/Close/Accepts.antt =====
-- The accepts that hang on an endpoint while `scif_close` runs: their list and their count.
use intel_xeon_phi_kernel_dr.Common.{
  ℕ, ◌+◌, ◌≡◌, refl, ap, ◌∙◌, inl, inr, Bool, true, false, Option, none, some, List, leb, ◌==◌,
  ==_iff, Bool-cases, if◌then◌else◌, length, arith,
}
use intel_xeon_phi_kernel_dr.Endpoint.{
  NodeMsg, Endpt, Node, update, set_ep, is_connecting, mem, queue_request, reject,
  terminate_request, terminate_at, disconnect_local, scif_cnctreq_resp, scif_cnctgnt_resp,
  scif_cnctgntack_resp, scif_cnctgntnack_resp, scif_cnctrej_resp, scif_cnctterm_resp,
  scif_termack_resp, scif_discnct_resp, scif_discntack_resp, invalidate_round, find_listen_ep,
  get_connection_request,
}
use intel_xeon_phi_kernel_dr.Endpoint.Close.View.{
  Env, cnctreq, cnctgnt, cnctgntack, cnctgntnack, cnctrej, cnctterm, termack, discnct, discntack,
  invalidated, others,
}

-- The count and the length of the list that `e` has in the one state and in the other.
pub record SameAccepts (e : ℕ) (f g : ℕ → Endpt) : Type 0 where
  pub cnt : (g e).acceptcnt ≡ (f e).acceptcnt
  pub len : length (g e).li_accept ≡ length (f e).li_accept

pub same_accepts : (e : ℕ) (f : ℕ → Endpt) → SameAccepts e f f
same_accepts e f = record { cnt = refl; len = refl }

-- A record is changed in other fields.
pub update-SameAccepts :
    (e x : ℕ) (y : Endpt) (f : ℕ → Endpt)
    → y.acceptcnt ≡ (f x).acceptcnt
    → y.li_accept ≡ (f x).li_accept
    → SameAccepts e f (update f x y)
update-SameAccepts e x y f c l = elim (Bool-cases (x == e)) [
  | inl same ↦
      let at : x ≡ e = (==_iff x e).0 same in
      record {
        cnt = rw same (c ∙ ap (λ z. (f z).acceptcnt) at);
        len = rw same (ap length l ∙ ap (λ z. length (f z).li_accept) at);
      }
  | inr other ↦ record { cnt = rw other refl; len = rw other refl }
]

module _ (e : ℕ) (s : Node) where
  queue_request-SameAccepts :
      (msg : NodeMsg) (o : Option ℕ) → SameAccepts e s.ep (queue_request msg o s).ep
  unfolding queue_request reject
  queue_request-SameAccepts msg none = same_accepts e s.ep
  queue_request-SameAccepts msg (some x) =
      elim (Bool-cases (leb (s.ep x).backlog (s.ep x).conreqcnt)) [
        | inl full ↦ rw full (same_accepts e s.ep)
        | inr room ↦ rw room (update-SameAccepts e x _ s.ep refl refl)
      ]

  terminate_request-SameAccepts :
      (msg : NodeMsg) (x : ℕ) (o : Option (List NodeMsg))
      → SameAccepts e s.ep (terminate_request msg x o s).ep
  unfolding terminate_request
  terminate_request-SameAccepts msg x none = same_accepts e s.ep
  terminate_request-SameAccepts msg x (some rest) = update-SameAccepts e x _ s.ep refl refl

  terminate_at-SameAccepts :
      (msg : NodeMsg) (o : Option ℕ) → SameAccepts e s.ep (terminate_at msg o s).ep
  unfolding terminate_at
  terminate_at-SameAccepts msg none = same_accepts e s.ep
  terminate_at-SameAccepts msg (some x) =
      terminate_request-SameAccepts msg x (get_connection_request msg.payload0 (s.ep x).conlist)

  disconnect_local-SameAccepts :
      (scifdev x : ℕ) → SameAccepts e s.ep (disconnect_local scifdev x s).ep
  unfolding disconnect_local
  disconnect_local-SameAccepts scifdev x = elim (Bool-cases (mem x s.mi_connected)) [
    | inr away ↦ rw away (same_accepts e s.ep)
    | inl there ↦ rw there (update-SameAccepts e x _ s.ep refl refl)
  ]

  answered-SameAccepts :
      (x : ℕ) (y : Endpt) (b : Bool)
      → y.acceptcnt ≡ (s.ep x).acceptcnt
      → y.li_accept ≡ (s.ep x).li_accept
      → SameAccepts e s.ep (if b then set_ep x y s else s).ep
  answered-SameAccepts x y true c l = update-SameAccepts e x y s.ep c l
  answered-SameAccepts x y false c l = same_accepts e s.ep

  invalidate_round-SameAccepts : (node x : ℕ) → SameAccepts e s.ep (invalidate_round node x s).ep
  unfolding invalidate_round
  invalidate_round-SameAccepts node x = elim (Bool-cases ((s.ep x).remote_dev == node)) [
    | inl y ↦ rw y (disconnect_local-SameAccepts node x)
    | inr y ↦ rw y (same_accepts e s.ep)
  ]

  -- The list and its count change together, whatever comes between.
  abbrev pub Together : (ℕ → Endpt) → Type 0
  Together g =
      (s.ep e).acceptcnt + length (g e).li_accept ≡ (g e).acceptcnt + length (s.ep e).li_accept

  together : (g : ℕ → Endpt) → SameAccepts e s.ep g → Together g
  together g k = omega (arith, k.cnt, k.len)

  pub Env-accepts : {t : Node} → Env e s t → Together t.ep
  unfolding scif_cnctreq_resp reject scif_cnctgnt_resp scif_cnctgntnack_resp scif_cnctgntack_resp
      scif_cnctrej_resp scif_cnctterm_resp scif_termack_resp scif_discnct_resp scif_discntack_resp
  Env-accepts (cnctreq true msg) =
      together _ (queue_request-SameAccepts msg (find_listen_ep s.ep msg.dst.port s.mi_listen))
  Env-accepts (cnctreq false msg) = omega arith
  Env-accepts (cnctgnt msg) =
      together _
        (answered-SameAccepts msg.payload0 _ (is_connecting (s.ep msg.payload0).state) refl refl)
  Env-accepts (cnctgntack scifdev msg due) =
      together _ (update-SameAccepts e msg.payload0 _ s.ep refl refl)
  Env-accepts (cnctgntnack msg due) =
      together _ (update-SameAccepts e msg.payload0 _ s.ep refl refl)
  Env-accepts (cnctrej msg) =
      together _
        (answered-SameAccepts msg.payload0 _ (is_connecting (s.ep msg.payload0).state) refl refl)
  Env-accepts (cnctterm msg) =
      together _ (terminate_at-SameAccepts msg (find_listen_ep s.ep msg.dst.port s.mi_listen))
  Env-accepts (termack msg due) =
      rw due (together _ (update-SameAccepts e msg.payload0 _ s.ep refl refl))
  Env-accepts (discnct scifdev msg) = together _ (disconnect_local-SameAccepts scifdev msg.payload1)
  Env-accepts (discntack msg off_conn off_listen) =
      together _ (update-SameAccepts e msg.payload0 _ s.ep refl refl)
  Env-accepts (invalidated node x) = together _ (invalidate_round-SameAccepts node x)
  Env-accepts (others t same hung) = hung
