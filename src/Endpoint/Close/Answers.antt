-- ===== src/Endpoint/Close/Answers.antt =====
-- The requests and the answers in the steps of `scif_close`.
use intel_xeon_phi_kernel_dr.Common.{
  ℕ, ◌+◌, ◌-◌, ◌≤◌, ◌≡◌, refl, ap, ◌∙◌, inl, inr, not, ◌&&◌, List, [], ◌∷◌, ◌==◌, ==_iff,
  Bool-cases, arith,
}
use intel_xeon_phi_kernel_dr.Endpoint.{
  EpState, listening, connected, closing, disconnected, NodeMsg, Endpt, Node, set_ep, post, mem,
}
use intel_xeon_phi_kernel_dr.Endpoint.Close.{
  Pc, flush, flush_unlink, wait_flush, close, close_disconnected, close_unlink, wait_close,
  close_listen, drop_accepts, drop_unlink, drop_zombie, reject_requests, finish, over, close_bug,
  flush_step, unlink, disconnect_msg, release_port, micscif_add_epd_to_zombie_list, drop_first,
  unlink_accept, bury_accept, rejection, reject_all, close_step,
}
use intel_xeon_phi_kernel_dr.Endpoint.Tally.{
  waiting, answers, tally, answers-post, set_ep-conlist, tally-set_ep,
}

module _ (l dev payload : ℕ) where
  flush_step-tally :
      (e : ℕ) (st : EpState) (s : Node)
      → tally l dev payload (flush_step e st s).1 ≡ tally l dev payload s
  unfolding flush_step
  flush_step-tally e connected s = refl
  flush_step-tally e listening s = tally-set_ep l dev payload e _ s refl
  flush_step-tally e _ s = refl

  unlink-tally :
      (wait next : Pc) (e : ℕ) (s : Node)
      → tally l dev payload (unlink wait next e s).1 ≡ tally l dev payload s
  unfolding unlink disconnect_msg
  unlink-tally wait next e s = elim (Bool-cases (mem e s.mi_connected)) [
    | inl y ↦ rw y (
        ground
          (arith, answers-post l dev payload (s.ep e).remote_dev (disconnect_msg e s) s.posted))
    | inr y ↦ rw y refl
  ]

  release_port-tally :
      (a : ℕ) (s : Node) → tally l dev payload (release_port a s) ≡ tally l dev payload s
  unfolding release_port
  release_port-tally a s =
      elim (Bool-cases (not ((s.ep a).port.port == 0) && not (s.ep a).accepted_ep)) [
        | inl y ↦ rw y refl
        | inr y ↦ rw y refl
      ]

  zombie-tally :
      (a : ℕ) (s : Node)
      → tally l dev payload (micscif_add_epd_to_zombie_list a s) ≡ tally l dev payload s
  unfolding micscif_add_epd_to_zombie_list
  zombie-tally a s = tally-set_ep l dev payload a _ s refl

  drop_first-tally :
      (e : ℕ) (as' : List ℕ) (s : Node)
      → tally l dev payload (drop_first e as' s).1 ≡ tally l dev payload s
  unfolding drop_first
  drop_first-tally e [] s = refl
  drop_first-tally e (a ∷ as') s =
      let y : Endpt = record (s.ep e) { li_accept = as' } in
      release_port-tally a (set_ep e y s) ∙ tally-set_ep l dev payload e y s refl

  unlink_accept-tally :
      (a : ℕ) (s : Node) → tally l dev payload (unlink_accept a s) ≡ tally l dev payload s
  unfolding unlink_accept
  unlink_accept-tally a s = elim (Bool-cases (mem a s.mi_connected)) [
    | inl y ↦ rw y refl
    | inr y ↦ rw y refl
  ]

  bury_accept-tally :
      (e a : ℕ) (s : Node) → tally l dev payload (bury_accept e a s) ≡ tally l dev payload s
  unfolding bury_accept
  bury_accept-tally e a s =
      let t = micscif_add_epd_to_zombie_list a s in
      tally-set_ep l dev payload e (record (t.ep e) { acceptcnt = (t.ep e).acceptcnt - 1 }) t refl
      ∙ zombie-tally a s

  -- The rejections are the answers to the requests of the list; the records stay.
  reject_all-answers :
      (ms : List NodeMsg) (s : Node)
      → answers dev payload (reject_all ms s).posted
        ≡ answers dev payload s.posted + waiting dev payload ms
  unfolding reject_all rejection waiting
  reject_all-answers [] s = omega arith
  reject_all-answers (m ∷ ms) s = ground (
    arith,
    reject_all-answers ms (post m.src.node (rejection m) s),
    answers-post l dev payload m.src.node (rejection m) s.posted,
  )

  reject_all-ep : (ms : List NodeMsg) (s : Node) → (reject_all ms s).ep ≡ s.ep
  unfolding reject_all
  reject_all-ep [] s = refl
  reject_all-ep (m ∷ ms) s = reject_all-ep ms _

  reject_step-ge :
      (e : ℕ) (s : Node)
      → tally l dev payload s ≤ tally l dev payload (close_step e reject_requests s).1
  unfolding close_step waiting
  reject_step-ge e s = elim (Bool-cases (e == l)) [
    | inl same ↦
        let at : e ≡ l = (==_iff e l).0 same in
        ground (
          arith,
          set_ep-conlist l dev payload t.ep e y,
          reject_all-answers (s.ep e).conlist s,
          ap (λ x. waiting dev payload (s.ep x).conlist) at,
        )
    | inr other ↦ ground (
      arith,
      set_ep-conlist l dev payload t.ep e y,
      reject_all-answers (s.ep e).conlist s,
      ap (λ f. (f l).conlist) (reject_all-ep (s.ep e).conlist s),
    )
  ]
    where
      t : Node
      t = reject_all (s.ep e).conlist s

      y : Endpt
      y = record (t.ep e) { conlist = []; conreqcnt = 0 }

  pub close_step-ge :
      (e : ℕ) (pc : Pc) (s : Node)
      → tally l dev payload s ≤ tally l dev payload (close_step e pc s).1
  unfolding close_step
  close_step-ge e flush s = omega (arith, flush_step-tally e (s.ep e).state s)
  close_step-ge e flush_unlink s = omega (arith, unlink-tally wait_flush close e s)
  close_step-ge e wait_flush s =
      omega (arith, tally-set_ep l dev payload e (record (s.ep e) { state = disconnected }) s refl)
  close_step-ge e close s =
      omega (arith, tally-set_ep l dev payload e (record (s.ep e) { state = closing }) s refl)
  close_step-ge e close_disconnected s = omega arith
  close_step-ge e close_unlink s = omega (arith, unlink-tally wait_close finish e s)
  close_step-ge e wait_close s = omega arith
  close_step-ge e close_listen s = omega arith
  close_step-ge e drop_accepts s = elim (Bool-cases ((s.ep e).acceptcnt == 0)) [
    | inl y ↦ rw y (omega arith)
    | inr y ↦ rw y (omega (arith, drop_first-tally e (s.ep e).li_accept s))
  ]
  close_step-ge e (drop_unlink a) s = omega (arith, unlink_accept-tally a s)
  close_step-ge e (drop_zombie a) s = omega (arith, bury_accept-tally e a s)
  close_step-ge e reject_requests s = reject_step-ge e s
  close_step-ge e finish s =
      omega (arith, zombie-tally e (release_port e s), release_port-tally e s)
  close_step-ge e over s = omega arith
  close_step-ge e close_bug s = omega arith
