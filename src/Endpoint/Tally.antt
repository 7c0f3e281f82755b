-- ===== src/Endpoint/Tally.antt =====
-- The requests of one peer that wait at one endpoint, and the answers that it was sent.
use intel_xeon_phi_kernel_dr.Common.{
  ℕ, ◌+◌, ◌≡◌, ap, Bool, true, false, ◌&&◌, List, [], ◌∷◌, ◌++◌, ◌==◌, if◌then◌else◌, arith,
}
use intel_xeon_phi_kernel_dr.Endpoint.{
  Uop, cnct_gnt, cnct_rej, term_ack, NodeMsg, Endpt, Node, update, set_ep,
}

-- The messages that answer a request: a grant, a rejection, the end of a request taken back.
abbrev pub answering : Uop → Bool
answering cnct_gnt = true
answering cnct_rej = true
answering term_ack = true
answering _ = false

-- Requests of the endpoint `payload` of the node `dev`, and answers to it.
abbrev pub request_of : ℕ → ℕ → NodeMsg → ℕ
request_of dev payload m = if m.src.node == dev && m.payload0 == payload then 1 else 0

abbrev pub answer_to : ℕ → ℕ → ℕ → NodeMsg → ℕ
answer_to dev payload d m = if d == dev && m.payload0 == payload && answering m.uop then 1 else 0

unfoldable pub waiting : ℕ → ℕ → List NodeMsg → ℕ
waiting dev payload [] = 0
waiting dev payload (m ∷ ms) = request_of dev payload m + waiting dev payload ms

unfoldable pub answers : ℕ → ℕ → List (ℕ × NodeMsg) → ℕ
answers dev payload [] = 0
answers dev payload ((d, m) ∷ ms) = answer_to dev payload d m + answers dev payload ms

module _ (l dev payload : ℕ) where
  abbrev pub tally : Node → ℕ
  tally s = waiting dev payload (s.ep l).conlist + answers dev payload s.posted

  pub waiting-append :
      (xs ys : List NodeMsg)
      → waiting dev payload (xs ++ ys) ≡ waiting dev payload xs + waiting dev payload ys
  unfolding waiting
  waiting-append [] ys = omega arith
  waiting-append (x ∷ xs) ys = omega (arith, waiting-append xs ys)

  pub waiting-snoc :
      (xs : List NodeMsg) (m : NodeMsg)
      → waiting dev payload (xs ++ m ∷ []) ≡ waiting dev payload xs + request_of dev payload m
  unfolding waiting
  waiting-snoc xs m = omega (arith, waiting-append xs (m ∷ []))

  pub answers-append :
      (xs ys : List (ℕ × NodeMsg))
      → answers dev payload (xs ++ ys) ≡ answers dev payload xs + answers dev payload ys
  unfolding answers
  answers-append [] ys = omega arith
  answers-append ((d, m) ∷ xs) ys = omega (arith, answers-append xs ys)

  pub answers-post :
      (d : ℕ) (m : NodeMsg) (xs : List (ℕ × NodeMsg))
      → answers dev payload (xs ++ (d, m) ∷ []) ≡ answers dev payload xs + answer_to dev payload d m
  unfolding answers
  answers-post d m xs = omega (arith, answers-append xs ((d, m) ∷ []))

  -- A record is set: the list of `l` is its new one or the old one.
  pub set_ep-conlist :
      (ep : ℕ → Endpt) (x : ℕ) (y : Endpt)
      → (update ep x y l).conlist ≡ (if x == l then y.conlist else (ep l).conlist)
  set_ep-conlist ep x y = ground arith

  pub tally-set_ep :
      (x : ℕ) (y : Endpt) (s : Node) → y.conlist ≡ (s.ep x).conlist → tally (set_ep x y s) ≡ tally s
  tally-set_ep x y s kept =
      ap (λ t. waiting dev payload t + answers dev payload s.posted) (same_list x y s kept)
    where
      same_list :
          (x : ℕ) (y : Endpt) (s : Node)
          → y.conlist ≡ (s.ep x).conlist
          → (update s.ep x y l).conlist ≡ (s.ep l).conlist
      same_list x y s kept = ground (arith, set_ep-conlist s.ep x y)
