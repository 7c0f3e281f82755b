-- ===== src/Endpoint/Close/Falls.antt =====
-- What one step of `scif_close` leaves to do.
use intel_xeon_phi_kernel_dr.Common.{
  ℕ, ◌+◌, ◌-◌, ◌*◌, ◌≤◌, ◌≡◌, ◌≢◌, refl, ap, ◌∙◌, subst, inl, inr, not, ◌&&◌, List, [], ◌∷◌, ◌==◌,
  ==_iff, Bool-cases, length, arith,
}
use intel_xeon_phi_kernel_dr.Endpoint.{
  EpState, closed, unbound, bound, listening, connected, connecting, mapping, closing, cllisten,
  disconnected, zombie, NodeMsg, Endpt, Node, update, set_ep, mem,
}
use intel_xeon_phi_kernel_dr.Endpoint.Close.{
  Pc, flush, flush_unlink, wait_flush, close, close_disconnected, close_unlink, wait_close,
  close_listen, drop_accepts, drop_unlink, drop_zombie, reject_requests, finish, over, close_bug,
  flush_step, unlink, close_case, release_port, micscif_add_epd_to_zombie_list, drop_first,
  unlink_accept, bury_accept, reject_all, close_step,
}
use intel_xeon_phi_kernel_dr.Endpoint.Close.Accepts.{SameAccepts, same_accepts, update-SameAccepts}
use intel_xeon_phi_kernel_dr.Endpoint.Close.View.{
  View, Seen, quiet, answered, acknowledged, joined, left, update-state,
}

-- The most steps that the thread still has to make, the rounds of the accepts apart.
unfoldable pub rank : Pc → ℕ
rank flush = 8
rank flush_unlink = 7
rank wait_flush = 6
rank close = 5
rank close_disconnected = 2
rank close_unlink = 3
rank wait_close = 2
rank close_listen = 4
rank drop_accepts = 3
rank (drop_unlink a) = 2
rank (drop_zombie a) = 1
rank reject_requests = 2
rank finish = 1
rank over = 0
rank close_bug = 0

-- The endpoint is no zombie before it is closed, so the BUG_ON is not reached.
abbrev pub Alive : Pc → EpState → Type 0
Alive flush st = st ≢ zombie
Alive flush_unlink st = st ≢ zombie
Alive wait_flush st = st ≢ zombie
Alive close st = st ≢ zombie
Alive close_bug st = ⊥
Alive _ st = Unit {0}

alive-Seen : (v w : View) → Seen v w → v.state ≢ zombie → w.state ≢ zombie
alive-Seen v w (quiet q) k = rw q k
alive-Seen v w (answered st due turn alive q) k = rw q alive
alive-Seen v w (acknowledged c l q) k = rw q (λ e. cc)
alive-Seen v w (joined due q) k = rw q (λ e. cc)
alive-Seen v w (left n e q) k = rw q (λ e. cc)

pub Alive-Seen : (pc : Pc) (v w : View) → Seen v w → Alive pc v.state → Alive pc w.state
Alive-Seen flush v w h k = alive-Seen v w h k
Alive-Seen flush_unlink v w h k = alive-Seen v w h k
Alive-Seen wait_flush v w h k = alive-Seen v w h k
Alive-Seen close v w h k = alive-Seen v w h k
Alive-Seen close_bug v w h k = k
Alive-Seen close_disconnected v w h k = tt
Alive-Seen _ v w h k = tt

-- One accept is off the list and still counted.
unfoldable pub in_round : Pc → ℕ
in_round (drop_unlink a) = 1
in_round (drop_zombie a) = 1
in_round _ = 0

-- A step that changes no accept: the rank falls.
record Moves (e : ℕ) (pc : Pc) (s : Node) (o : Pc × Node) : Type 0 where
  falls : rank o.0 + 1 ≤ rank pc
  lives : Alive o.0 (o.1.ep e).state
  outside : in_round o.0 ≡ 0
  same : SameAccepts e s.ep o.1.ep

-- The count of the accepts is the length of their list, with the one that a round has taken off.
unfoldable pub Hung : Pc → Endpt → Type 0
Hung pc y = y.acceptcnt ≡ length y.li_accept + in_round pc

-- Every step makes less of what there is left to do.
pub record Falls (e : ℕ) (pc : Pc) (s : Node) (o : Pc × Node) : Type 0 where
  pub falls : rank o.0 + 3 * (o.1.ep e).acceptcnt + 1 ≤ rank pc + 3 * (s.ep e).acceptcnt
  pub lives : Alive o.0 (o.1.ep e).state
  pub hung : Hung o.0 (o.1.ep e)

Moves-Falls :
    (e : ℕ) (pc : Pc) (s : Node) (o : Pc × Node)
    → in_round pc ≡ 0
    → Hung pc (s.ep e)
    → Moves e pc s o
    → Falls e pc s o
unfolding Hung
Moves-Falls e pc s o out h m = record {
  falls = omega (arith, m.falls, m.same.cnt);
  lives = m.lives;
  hung = omega (arith, m.outside, m.same.cnt, m.same.len);
}

set_self-state : (e : ℕ) (s : Node) (y : Endpt) → (update s.ep e y e).state ≡ y.state
set_self-state e s y = update-state s.ep e e y ∙ rw ((==_iff e e).1 refl) refl

close_case-Alive :
    (st st' : EpState)
    → st ≢ zombie
    → Alive (close_case st) st' × (rank (close_case st) + 1 ≤ 5) × (in_round (close_case st) ≡ 0)
unfolding close_case rank in_round
close_case-Alive zombie st' k = absurd (k refl)
close_case-Alive closed st' k = (tt, omega arith, refl)
close_case-Alive disconnected st' k = (tt, omega arith, refl)
close_case-Alive unbound st' k = (tt, omega arith, refl)
close_case-Alive bound st' k = (tt, omega arith, refl)
close_case-Alive connecting st' k = (tt, omega arith, refl)
close_case-Alive mapping st' k = (tt, omega arith, refl)
close_case-Alive connected st' k = (tt, omega arith, refl)
close_case-Alive closing st' k = (tt, omega arith, refl)
close_case-Alive listening st' k = (tt, omega arith, refl)
close_case-Alive cllisten st' k = (tt, omega arith, refl)

flush_step-Moves :
    (e : ℕ) (st : EpState) (s : Node)
    → (s.ep e).state ≢ zombie
    → Moves e flush s (flush_step e st s)
unfolding flush_step rank in_round
flush_step-Moves e connected s k = record {
  falls = omega arith;
  lives = k;
  outside = refl;
  same = same_accepts e s.ep;
}
flush_step-Moves e listening s k = record {
  falls = omega arith;
  lives = rw (set_self-state e s (record (s.ep e) { state = cllisten })) (λ q. cc);
  outside = refl;
  same = update-SameAccepts e e (record (s.ep e) { state = cllisten }) s.ep refl refl;
}
flush_step-Moves e _ s k = record {
  falls = omega arith;
  lives = k;
  outside = refl;
  same = same_accepts e s.ep;
}

flush_unlink-Moves :
    (e : ℕ) (s : Node)
    → (s.ep e).state ≢ zombie
    → Moves e flush_unlink s (unlink wait_flush close e s)
unfolding unlink rank in_round
flush_unlink-Moves e s k = elim (Bool-cases (mem e s.mi_connected)) [
  | inl y ↦
      rw y (record { falls = omega arith; lives = k; outside = refl; same = same_accepts e s.ep })
  | inr y ↦
      rw y (record { falls = omega arith; lives = k; outside = refl; same = same_accepts e s.ep })
]

close_unlink-Moves : (e : ℕ) (s : Node) → Moves e close_unlink s (unlink wait_close finish e s)
unfolding unlink rank in_round
close_unlink-Moves e s = elim (Bool-cases (mem e s.mi_connected)) [
  | inl y ↦
      rw y (record { falls = omega arith; lives = tt; outside = refl; same = same_accepts e s.ep })
  | inr y ↦
      rw y (record { falls = omega arith; lives = tt; outside = refl; same = same_accepts e s.ep })
]

-- The thread goes on to a point where the state does not matter.
on_SameAccepts :
    (e : ℕ) (pc : Pc) (s : Node) (o : Pc × Node)
    → rank o.0 + 1 ≤ rank pc
    → Alive o.0 (o.1.ep e).state
    → in_round o.0 ≡ 0
    → SameAccepts e s.ep o.1.ep
    → Moves e pc s o
on_SameAccepts e pc s o f l r k = record { falls = f; lives = l; outside = r; same = k }

reject_all-ep : (ms : List NodeMsg) (s : Node) → (reject_all ms s).ep ≡ s.ep
unfolding reject_all
reject_all-ep [] s = refl
reject_all-ep (m ∷ ms) s = reject_all-ep ms _

reject_step-SameAccepts :
    (e : ℕ) (s : Node) → SameAccepts e s.ep (close_step e reject_requests s).1.ep
unfolding close_step
reject_step-SameAccepts e s =
    let t = reject_all (s.ep e).conlist s in
    subst (λ f. SameAccepts e f (update t.ep e (record (t.ep e) { conlist = []; conreqcnt = 0 })))
      (reject_all-ep (s.ep e).conlist s)
      (update-SameAccepts e e (record (t.ep e) { conlist = []; conreqcnt = 0 }) t.ep refl refl)

release_port-ep : (e : ℕ) (s : Node) → (release_port e s).ep ≡ s.ep
unfolding release_port
release_port-ep e s =
    elim (Bool-cases (not ((s.ep e).port.port == 0) && not (s.ep e).accepted_ep)) [
      | inl y ↦ rw y refl
      | inr y ↦ rw y refl
    ]

zombie-SameAccepts :
    (e a : ℕ) (s : Node) → SameAccepts e s.ep (micscif_add_epd_to_zombie_list a s).ep
unfolding micscif_add_epd_to_zombie_list
zombie-SameAccepts e a s = update-SameAccepts e a _ s.ep refl refl

finish-SameAccepts :
    (e : ℕ) (s : Node) → SameAccepts e s.ep (micscif_add_epd_to_zombie_list e (release_port e s)).ep
finish-SameAccepts e s =
    subst (λ f. SameAccepts e f (micscif_add_epd_to_zombie_list e (release_port e s)).ep)
      (release_port-ep e s) (zombie-SameAccepts e e (release_port e s))

update_self : (e : ℕ) (y : Endpt) (f : ℕ → Endpt) → update f e y e ≡ y
update_self e y f = rw ((==_iff e e).1 refl) refl

drop_first-Falls :
    (e : ℕ) (as' : List ℕ) (s : Node)
    → (s.ep e).li_accept ≡ as'
    → (s.ep e).acceptcnt ≢ 0
    → Hung drop_accepts (s.ep e)
    → Falls e drop_accepts s (drop_first e as' s)
unfolding drop_first Hung rank in_round
drop_first-Falls e [] s q some_left h = absurd (some_left (omega (arith, ap length q)))
drop_first-Falls e (a ∷ as') s q some_left h =
    let y : Endpt = record (s.ep e) { li_accept = as' } in
    let now : (release_port a (set_ep e y s)).ep e ≡ y =
      ap (λ f. f e) (release_port-ep a (set_ep e y s)) ∙ update_self e y s.ep in
    record {
      falls = omega (arith, ap (λ z. z.acceptcnt) now);
      lives = tt;
      hung =
          omega (arith, ap length q, ap (λ z. z.acceptcnt) now, ap (λ z. length z.li_accept) now);
    }

bury_accept-Falls :
    (e a : ℕ) (s : Node)
    → Hung (drop_zombie a) (s.ep e)
    → Falls e (drop_zombie a) s (drop_accepts, bury_accept e a s)
unfolding bury_accept Hung rank in_round
bury_accept-Falls e a s h =
    let t = micscif_add_epd_to_zombie_list a s in
    let y : Endpt = record (t.ep e) { acceptcnt = (t.ep e).acceptcnt - 1 } in
    let now : update t.ep e y e ≡ y = update_self e y t.ep in
    let k = zombie-SameAccepts e a s in
    record {
      falls = omega (arith, ap (λ z. z.acceptcnt) now, k.cnt);
      lives = tt;
      hung =
          omega (arith, ap (λ z. z.acceptcnt) now, ap (λ z. length z.li_accept) now, k.cnt, k.len);
    }

unlink_accept-ep : (a : ℕ) (s : Node) → (unlink_accept a s).ep ≡ s.ep
unfolding unlink_accept
unlink_accept-ep a s = elim (Bool-cases (mem a s.mi_connected)) [
  | inl y ↦ rw y refl
  | inr y ↦ rw y refl
]

pub close_step-Falls :
    (e : ℕ) (pc : Pc) (s : Node)
    → Alive pc (s.ep e).state
    → Hung pc (s.ep e)
    → pc ≢ over
    → Falls e pc s (close_step e pc s)
unfolding close_step rank in_round Hung
close_step-Falls e flush s k g h =
    Moves-Falls e flush s _ refl g (flush_step-Moves e (s.ep e).state s k)
close_step-Falls e flush_unlink s k g h =
    Moves-Falls e flush_unlink s _ refl g (flush_unlink-Moves e s k)
close_step-Falls e wait_flush s k g h = Moves-Falls e wait_flush s _ refl g (
    on_SameAccepts e wait_flush s _ (omega arith)
      (rw (set_self-state e s (record (s.ep e) { state = disconnected })) (λ q. cc)) refl
      (update-SameAccepts e e (record (s.ep e) { state = disconnected }) s.ep refl refl))
close_step-Falls e close s k g h =
    let (lives, falls, outside) = close_case-Alive (s.ep e).state _ k in
    Moves-Falls e close s _ refl g (
      on_SameAccepts e close s _ falls lives outside
        (update-SameAccepts e e (record (s.ep e) { state = closing }) s.ep refl refl))
close_step-Falls e close_disconnected s k g h =
    Moves-Falls e close_disconnected s _ refl g
      (on_SameAccepts e close_disconnected s _ (omega arith) tt refl (same_accepts e s.ep))
close_step-Falls e close_unlink s k g h =
    Moves-Falls e close_unlink s _ refl g (close_unlink-Moves e s)
close_step-Falls e wait_close s k g h =
    Moves-Falls e wait_close s _ refl g
      (on_SameAccepts e wait_close s _ (omega arith) tt refl (same_accepts e s.ep))
close_step-Falls e close_listen s k g h =
    Moves-Falls e close_listen s _ refl g
      (on_SameAccepts e close_listen s _ (omega arith) tt refl (same_accepts e s.ep))
close_step-Falls e drop_accepts s k g h = elim (Bool-cases ((s.ep e).acceptcnt == 0)) [
  | inl y ↦ rw y (
      Moves-Falls e drop_accepts s _ refl g
        (on_SameAccepts e drop_accepts s _ (omega arith) tt refl (same_accepts e s.ep)))
  | inr y ↦ rw y (drop_first-Falls e (s.ep e).li_accept s refl (λ z. cc ((==_iff _ _).1 z)) g)
]
close_step-Falls e (drop_unlink a) s k g h =
    let now = ap (λ f. f e) (unlink_accept-ep a s) in
    record {
      falls = omega (arith, ap (λ z. z.acceptcnt) now);
      lives = tt;
      hung = omega (arith, ap (λ z. z.acceptcnt) now, ap (λ z. length z.li_accept) now);
    }
close_step-Falls e (drop_zombie a) s k g h = bury_accept-Falls e a s g
close_step-Falls e reject_requests s k g h =
    Moves-Falls e reject_requests s _ refl g
      (on_SameAccepts e reject_requests s _ (omega arith) tt refl (reject_step-SameAccepts e s))
close_step-Falls e finish s k g h =
    Moves-Falls e finish s _ refl g
      (on_SameAccepts e finish s _ (omega arith) tt refl (finish-SameAccepts e s))
close_step-Falls e over s k g h = absurd (h refl)
close_step-Falls e close_bug s k g h = absurd k
