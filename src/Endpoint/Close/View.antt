-- ===== src/Endpoint/Close/View.antt =====
-- What the messages and the other threads can do to one endpoint: its state and how often it
-- stands on each list.
use intel_xeon_phi_kernel_dr.Common.{
  ℕ, suc, ◌+◌, ◌-◌, ◌<◌, ◌≡◌, ◌≢◌, refl, sym, ap, ◌∙◌, inl, inr, Bool, true, false, Option, none,
  some, List, [], ◌∷◌, ◌++◌, ◌==◌, ==_iff, Bool-cases, if◌then◌else◌, arith, length,
}
use intel_xeon_phi_kernel_dr.Endpoint.{
  EpState, connected, connecting, disconnected, zombie, NodeMsg, Endpt, Node, update, set_ep,
  is_connecting, mem, delete, reject, queue_request, scif_cnctreq_resp, scif_cnctgnt_resp,
  scif_cnctgntack_resp, scif_cnctgntnack_resp, scif_cnctrej_resp, terminate_request, terminate_at,
  scif_cnctterm_resp, scif_termack_resp, disconnect_local, scif_discnct_resp, scif_discntack_resp,
  invalidate_round, find_listen_ep, get_connection_request,
}

unfoldable pub count : ℕ → List ℕ → ℕ
count e [] = 0
count e (x ∷ xs) = (if x == e then 1 else 0) + count e xs

pub record View : Type 0 where
  pub state : EpState
  pub conn : ℕ
  pub disc : ℕ
  pub listen : ℕ
  pub zombies : ℕ

abbrev pub view : ℕ → Node → View
view e s = record {
  state = (s.ep e).state;
  conn = count e s.mi_connected;
  disc = count e s.mi_disconnected;
  listen = count e s.mi_listen;
  zombies = count e s.mi_zombie;
}

-- The endpoint is not touched; its connection is answered; its disconnection is acknowledged; it
-- joins the connected list; it is moved to the disconnected one.
pub data Seen (v w : View) : Type 0 where
  quiet : w ≡ v → Seen v w
  answered :
      (st : EpState)
      → v.state ≡ connecting
      → st ≢ connecting
      → st ≢ zombie
      → w ≡ record v { state = st }
      → Seen v w
  acknowledged : v.conn ≡ 0 → v.listen ≡ 0 → w ≡ record v { state = disconnected } → Seen v w
  joined : v.state ≡ connecting → w ≡ record v { state = connected; conn = v.conn + 1 } → Seen v w
  left :
      (n : ℕ)
      → v.conn ≡ suc n
      → w ≡ record v { state = disconnected; conn = n; disc = v.disc + 1 }
      → Seen v w

pub count-append : (e : ℕ) (xs ys : List ℕ) → count e (xs ++ ys) ≡ count e xs + count e ys
unfolding count
count-append e [] ys = omega arith
count-append e (x ∷ xs) ys = omega (arith, count-append e xs ys)

pub mem-count : (e : ℕ) (xs : List ℕ) → mem e xs ≡ true → 0 < count e xs
unfolding mem count
mem-count e [] h = cc
mem-count e (x ∷ xs) h = ground (arith, mem-count e xs)

pub not_mem-count : (e : ℕ) (xs : List ℕ) → mem e xs ≡ false → count e xs ≡ 0
unfolding mem count
not_mem-count e [] h = refl
not_mem-count e (x ∷ xs) h = ground (arith, not_mem-count e xs)

pub count-delete_self : (e : ℕ) (xs : List ℕ) → count e (delete e xs) ≡ count e xs - 1
unfolding delete count
count-delete_self e [] = refl
count-delete_self e (x ∷ xs) = ground (arith, count-delete_self e xs)

pub count-delete_ne : (e a : ℕ) (xs : List ℕ) → a ≢ e → count e (delete a xs) ≡ count e xs
unfolding delete count
count-delete_ne e a [] h = refl
count-delete_ne e a (x ∷ xs) h = ground (arith, count-delete_ne e a xs h)

queue_request-state :
    (e : ℕ) (msg : NodeMsg) (o : Option ℕ) (s : Node) → view e (queue_request msg o s) ≡ view e s
unfolding queue_request reject
queue_request-state e msg none s = refl
queue_request-state e msg (some x) s = ground arith

-- A state that is set for `x`, seen from `e`.
pub update-state :
    (ep : ℕ → Endpt) (x e : ℕ) (y : Endpt)
    → (update ep x y e).state ≡ (if x == e then y.state else (ep e).state)
update-state ep x e y = ground arith

-- What messages and other threads do while `scif_close` runs on `e`. Answers come only when they
-- are due: GNTACK, GNTNACK and TERM_ACK for an endpoint that is connecting, DISCNT_ACK for one
-- that is on neither the connected nor the listening list. The loop of
-- scif_invalidate_connected_ep is taken apart into its rounds. A thread that works on other endpoints
-- leaves the state and the entries of `e` alone; where it hangs an accept on `e` or takes one off, it
-- changes the list and its count together.
pub data Env (e : ℕ) (s : Node) : Node → Type 0 where
  cnctreq : (kmalloc : Bool) (msg : NodeMsg) → Env e s (scif_cnctreq_resp kmalloc msg s)
  cnctgnt : (msg : NodeMsg) → Env e s (scif_cnctgnt_resp msg s)
  cnctgntack :
      (scifdev : ℕ) (msg : NodeMsg)
      → (s.ep msg.payload0).state ≡ connecting
      → Env e s (scif_cnctgntack_resp scifdev msg s)
  cnctgntnack :
      (msg : NodeMsg)
      → (s.ep msg.payload0).state ≡ connecting
      → Env e s (scif_cnctgntnack_resp msg s)
  cnctrej : (msg : NodeMsg) → Env e s (scif_cnctrej_resp msg s)
  cnctterm : (msg : NodeMsg) → Env e s (scif_cnctterm_resp msg s)
  termack :
      (msg : NodeMsg) → (s.ep msg.payload0).state ≡ connecting → Env e s (scif_termack_resp msg s)
  discnct : (scifdev : ℕ) (msg : NodeMsg) → Env e s (scif_discnct_resp scifdev msg s)
  discntack :
      (msg : NodeMsg)
      → mem msg.payload0 s.mi_connected ≡ false
      → mem msg.payload0 s.mi_listen ≡ false
      → Env e s (scif_discntack_resp msg s)
  invalidated : (node x : ℕ) → Env e s (invalidate_round node x s)
  others :
      (t : Node)
      → view e t ≡ view e s
      → (s.ep e).acceptcnt + length (t.ep e).li_accept
        ≡ (t.ep e).acceptcnt + length (s.ep e).li_accept
      → Env e s t

module _ (e : ℕ) (s : Node) where
  -- The record of `x` is set, which is `e` or not.
  set_ep-view :
      (x : ℕ) (y : Endpt)
      → view e (set_ep x y s)
        ≡ record (view e s) { state = if x == e then y.state else (s.ep e).state }
  set_ep-view x y = ap (λ st. record (view e s) { state = st }) (update-state s.ep x e y)

  set_ep-Seen :
      (x : ℕ) (y : Endpt)
      → (s.ep x).state ≡ connecting
      → y.state ≢ connecting
      → y.state ≢ zombie
      → Seen (view e s) (view e (set_ep x y s))
  set_ep-Seen x y due turn alive = elim (Bool-cases (x == e)) [
    | inl same ↦
        answered y.state (rw (sym ((==_iff x e).0 same)) due) turn alive
          (set_ep-view x y ∙ rw same refl)
    | inr other ↦ quiet (set_ep-view x y ∙ rw other refl)
  ]

  same_state-quiet :
      (x : ℕ) (y : Endpt) → y.state ≡ (s.ep x).state → view e (set_ep x y s) ≡ view e s
  same_state-quiet x y kept = ground (arith, set_ep-view x y)

  terminate_request-view :
      (msg : NodeMsg) (x : ℕ) (o : Option (List NodeMsg))
      → view e (terminate_request msg x o s) ≡ view e s
  unfolding terminate_request
  terminate_request-view msg x none = refl
  terminate_request-view msg x (some rest) = same_state-quiet x _ refl

  terminate_at-view : (msg : NodeMsg) (o : Option ℕ) → view e (terminate_at msg o s) ≡ view e s
  unfolding terminate_at
  terminate_at-view msg none = refl
  terminate_at-view msg (some x) =
      terminate_request-view msg x (get_connection_request msg.payload0 (s.ep x).conlist)

  connecting_of : (st : EpState) → is_connecting st ≡ true → st ≡ connecting
  connecting_of connecting h = refl
  connecting_of _ h = cc

  count-snoc :
      (x : ℕ) (xs : List ℕ) → count e (xs ++ x ∷ []) ≡ count e xs + (if x == e then 1 else 0)
  unfolding count
  count-snoc x xs = omega (arith, count-append e xs (x ∷ []))

  disconnect_local-Seen : (scifdev x : ℕ) → Seen (view e s) (view e (disconnect_local scifdev x s))
  unfolding disconnect_local
  disconnect_local-Seen scifdev x = elim (Bool-cases (mem x s.mi_connected)) [
    | inr away ↦ rw away (quiet refl)
    | inl there ↦ rw there (elim (Bool-cases (x == e)) [
      | inl same ↦
          let at : x ≡ e = (==_iff x e).0 same in
          left (count e s.mi_connected - 1)
            (ground (arith, mem-count x s.mi_connected there, ap (λ t. count t s.mi_connected) at))
            (ground (
              arith,
              update-state s.ep x e (record (s.ep x) { state = disconnected }),
              ap (λ t. count e (delete t s.mi_connected)) at,
              count-delete_self e s.mi_connected,
              count-snoc x s.mi_disconnected,
            ))
      | inr other ↦ quiet (
          ground (
            arith,
            update-state s.ep x e (record (s.ep x) { state = disconnected }),
            count-delete_ne e x s.mi_connected (λ q. cc ((==_iff x e).1 q)),
            count-snoc x s.mi_disconnected,
          ))
    ])
  ]

  pub Env-Seen : {t : Node} → Env e s t → Seen (view e s) (view e t)
  unfolding scif_cnctreq_resp reject scif_cnctgnt_resp scif_cnctgntnack_resp scif_cnctgntack_resp
      scif_cnctrej_resp scif_cnctterm_resp scif_termack_resp scif_discnct_resp scif_discntack_resp
      invalidate_round
  Env-Seen (cnctreq true msg) =
      quiet (queue_request-state e msg (find_listen_ep s.ep msg.dst.port s.mi_listen) s)
  Env-Seen (cnctreq false msg) = quiet refl
  Env-Seen (cnctgnt msg) = elim (Bool-cases (is_connecting (s.ep msg.payload0).state)) [
    | inl y ↦ rw y (set_ep-Seen msg.payload0 _ (connecting_of _ y) (λ q. cc) (λ q. cc))
    | inr y ↦ rw y (quiet refl)
  ]
  Env-Seen (cnctgntack scifdev msg due) = elim (Bool-cases (msg.payload0 == e)) [
    | inl same ↦ joined (rw (sym ((==_iff msg.payload0 e).0 same)) due) (
        ground (
          arith,
          update-state s.ep msg.payload0 e (record (s.ep msg.payload0) { state = connected }),
          count-snoc msg.payload0 s.mi_connected,
        ))
    | inr other ↦ quiet (
        ground (
          arith,
          update-state s.ep msg.payload0 e (record (s.ep msg.payload0) { state = connected }),
          count-snoc msg.payload0 s.mi_connected,
        ))
  ]
  Env-Seen (cnctgntnack msg due) = set_ep-Seen msg.payload0 _ due (λ q. cc) (λ q. cc)
  Env-Seen (cnctrej msg) = elim (Bool-cases (is_connecting (s.ep msg.payload0).state)) [
    | inl y ↦ rw y (set_ep-Seen msg.payload0 _ (connecting_of _ y) (λ q. cc) (λ q. cc))
    | inr y ↦ rw y (quiet refl)
  ]
  Env-Seen (cnctterm msg) =
      quiet (terminate_at-view msg (find_listen_ep s.ep msg.dst.port s.mi_listen))
  Env-Seen (termack msg due) = rw due (set_ep-Seen msg.payload0 _ due (λ q. cc) (λ q. cc))
  Env-Seen (discnct scifdev msg) = disconnect_local-Seen scifdev msg.payload1
  Env-Seen (discntack msg off_conn off_listen) = elim (Bool-cases (msg.payload0 == e)) [
    | inl same ↦
        let at : msg.payload0 ≡ e = (==_iff _ _).0 same in
        acknowledged (not_mem-count e s.mi_connected (rw (sym at) off_conn))
          (not_mem-count e s.mi_listen (rw (sym at) off_listen))
          (set_ep-view msg.payload0 _ ∙ rw same refl)
    | inr other ↦ quiet (set_ep-view msg.payload0 _ ∙ rw other refl)
  ]
  Env-Seen (invalidated node x) = elim (Bool-cases ((s.ep x).remote_dev == node)) [
    | inl y ↦ rw y (disconnect_local-Seen node x)
    | inr y ↦ rw y (quiet refl)
  ]
  Env-Seen (others t same hung) = quiet same
