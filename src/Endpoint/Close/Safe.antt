-- ===== src/Endpoint/Close/Safe.antt =====
-- What holds at each point of `scif_close`, and that messages and other threads keep it.
use intel_xeon_phi_kernel_dr.Common.{
  ℕ, zero, suc, ◌+◌, ◌≤◌, ◌<◌, ◌≡◌, ◌≢◌, refl, ap, ◌⊎◌, inl, inr, arith,
}
use intel_xeon_phi_kernel_dr.Endpoint.{listening, connected, connecting, cllisten, disconnected}
use intel_xeon_phi_kernel_dr.Endpoint.Close.{
  Pc, flush, flush_unlink, wait_flush, close, close_disconnected, close_unlink, wait_close,
  close_listen, drop_accepts, drop_unlink, drop_zombie, reject_requests, finish, over, close_bug,
}
use intel_xeon_phi_kernel_dr.Endpoint.Close.View.{
  View, Seen, quiet, answered, acknowledged, joined, left,
}

-- The endpoint stands on one list at most, and its state tells on which.
abbrev pub Linked : View → Type 0
Linked v =
    (v.conn + v.disc + v.listen ≤ 1)
    × (0 < v.conn → v.state ≡ connected)
    × (0 < v.disc → v.state ≡ disconnected)
    × (0 < v.listen → (v.state ≡ listening) ⊎ (v.state ≡ cllisten))

abbrev pub Unlinked : View → Type 0
Unlinked v = (v.conn ≡ 0) × (v.disc ≡ 0) × (v.listen ≡ 0) × (v.state ≢ connecting)

abbrev pub OnDisconnected : View → Type 0
OnDisconnected v = (v.conn ≡ 0) × (v.disc ≤ 1) × (v.listen ≡ 0) × (v.state ≢ connecting)

abbrev pub OnConnected : View → Type 0
OnConnected v = (v.conn + v.disc ≤ 1) × (v.listen ≡ 0) × (v.state ≢ connecting)

abbrev pub OnListen : View → Type 0
OnListen v = (v.conn ≡ 0) × (v.disc ≡ 0) × (v.state ≢ connecting)

-- What holds at each point of the thread.
abbrev pub At : Pc → View → Type 0
At flush v = Linked v
At flush_unlink v = Linked v × (v.listen ≡ 0) × (v.state ≢ connecting)
At wait_flush v = Unlinked v
At close v = Linked v
At close_disconnected v = OnDisconnected v
At close_unlink v = OnConnected v
At wait_close v = Unlinked v
At close_listen v = OnListen v
At drop_accepts v = Unlinked v
At (drop_unlink a) v = Unlinked v
At (drop_zombie a) v = Unlinked v
At reject_requests v = Unlinked v
At finish v = Unlinked v
At over v = Unlinked v × (0 < v.zombies)
At close_bug v = Unit {0}

zero_or_pos : (n : ℕ) → (n ≡ 0) ⊎ (0 < n)
zero_or_pos zero = inl refl
zero_or_pos (suc n) = inr (omega arith)

pub zero_of : {P : Type 0} (n : ℕ) → (0 < n → P) → (P → ⊥) → n ≡ 0
zero_of n h never = elim (zero_or_pos n) [ inl z ↦ z | inr p ↦ absurd (never (h p)) ]

-- In a state that is on no list.
pub nowhere :
    (v : View)
    → Linked v
    → v.state ≢ connected
    → v.state ≢ disconnected
    → v.state ≢ listening
    → v.state ≢ cllisten
    → (v.conn ≡ 0) × (v.disc ≡ 0) × (v.listen ≡ 0)
nowhere v (one, c, d, l) nc nd nl ncl = (
  zero_of v.conn c nc,
  zero_of v.disc d nd,
  zero_of v.listen l (λ q. elim q [ inl a ↦ nl a | inr b ↦ ncl b ]),
)

Linked-Seen : (v w : View) → Seen v w → Linked v → Linked w
Linked-Seen v w (quiet q) k = rw q k
Linked-Seen v w (answered st due turn alive q) k =
    let (nc, nd, nl) = nowhere v k (λ q. cc) (λ q. cc) (λ q. cc) (λ q. cc) in
    rw q
      (omega arith, λ p. absurd (omega arith), λ p. absurd (omega arith), λ p. absurd (omega arith))
Linked-Seen v w (acknowledged c l q) (one, cs, ds, ls) =
    rw q (omega arith, λ p. absurd (omega arith), λ p. refl, λ p. absurd (omega arith))
Linked-Seen v w (joined due q) k =
    let (nc, nd, nl) = nowhere v k (λ q. cc) (λ q. cc) (λ q. cc) (λ q. cc) in
    rw q (omega arith, λ p. refl, λ p. absurd (omega arith), λ p. absurd (omega arith))
Linked-Seen v w (left n e q) (one, cs, ds, ls) =
    rw q (omega arith, λ p. absurd (omega arith), λ p. refl, λ p. absurd (omega arith))

Unlinked-Seen : (v w : View) → Seen v w → Unlinked v → Unlinked w
Unlinked-Seen v w (quiet q) k = rw q k
Unlinked-Seen v w (answered st due turn alive q) (c, d, l, idle) = absurd (idle due)
Unlinked-Seen v w (acknowledged c l q) (c', d, l', idle) = rw q (c, d, l, λ e. cc)
Unlinked-Seen v w (joined due q) (c, d, l, idle) = absurd (idle due)
Unlinked-Seen v w (left n e q) (c, d, l, idle) = absurd (omega arith)

OnDisconnected-Seen : (v w : View) → Seen v w → OnDisconnected v → OnDisconnected w
OnDisconnected-Seen v w (quiet q) k = rw q k
OnDisconnected-Seen v w (answered st due turn alive q) (c, d, l, idle) = absurd (idle due)
OnDisconnected-Seen v w (acknowledged c l q) (c', d, l', idle) = rw q (c, d, l, λ e. cc)
OnDisconnected-Seen v w (joined due q) (c, d, l, idle) = absurd (idle due)
OnDisconnected-Seen v w (left n e q) (c, d, l, idle) = absurd (omega arith)

OnConnected-Seen : (v w : View) → Seen v w → OnConnected v → OnConnected w
OnConnected-Seen v w (quiet q) k = rw q k
OnConnected-Seen v w (answered st due turn alive q) (one, l, idle) = absurd (idle due)
OnConnected-Seen v w (acknowledged c l q) (one, l', idle) = rw q (one, l, λ e. cc)
OnConnected-Seen v w (joined due q) (one, l, idle) = absurd (idle due)
OnConnected-Seen v w (left n e q) (one, l, idle) = rw q (omega arith, l, λ e. cc)

OnListen-Seen : (v w : View) → Seen v w → OnListen v → OnListen w
OnListen-Seen v w (quiet q) k = rw q k
OnListen-Seen v w (answered st due turn alive q) (c, d, idle) = absurd (idle due)
OnListen-Seen v w (acknowledged c l q) (c', d, idle) = rw q (c, d, λ e. cc)
OnListen-Seen v w (joined due q) (c, d, idle) = absurd (idle due)
OnListen-Seen v w (left n e q) (c, d, idle) = absurd (omega arith)

FlushUnlink-Seen : (v w : View) → Seen v w → At flush_unlink v → At flush_unlink w
FlushUnlink-Seen v w (quiet q) k = rw q k
FlushUnlink-Seen v w (answered st due turn alive q) (k, l, idle) = absurd (idle due)
FlushUnlink-Seen v w (acknowledged c l' q) (k, l, idle) =
    (Linked-Seen v w (acknowledged c l' q) k, rw q l, rw q (λ e. cc))
FlushUnlink-Seen v w (joined due q) (k, l, idle) = absurd (idle due)
FlushUnlink-Seen v w (left n e q) (k, l, idle) =
    (Linked-Seen v w (left n e q) k, rw q l, rw q (λ e. cc))

zombies-Seen : (v w : View) → Seen v w → w.zombies ≡ v.zombies
zombies-Seen v w (quiet q) = ap (λ t. t.zombies) q
zombies-Seen v w (answered st due turn alive q) = ap (λ t. t.zombies) q
zombies-Seen v w (acknowledged c l q) = ap (λ t. t.zombies) q
zombies-Seen v w (joined due q) = ap (λ t. t.zombies) q
zombies-Seen v w (left n e q) = ap (λ t. t.zombies) q

pub At-Seen : (pc : Pc) (v w : View) → Seen v w → At pc v → At pc w
At-Seen flush v w h k = Linked-Seen v w h k
At-Seen flush_unlink v w h k = FlushUnlink-Seen v w h k
At-Seen wait_flush v w h k = Unlinked-Seen v w h k
At-Seen close v w h k = Linked-Seen v w h k
At-Seen close_disconnected v w h k = OnDisconnected-Seen v w h k
At-Seen close_unlink v w h k = OnConnected-Seen v w h k
At-Seen wait_close v w h k = Unlinked-Seen v w h k
At-Seen close_listen v w h k = OnListen-Seen v w h k
At-Seen drop_accepts v w h k = Unlinked-Seen v w h k
At-Seen (drop_unlink a) v w h k = Unlinked-Seen v w h k
At-Seen (drop_zombie a) v w h k = Unlinked-Seen v w h k
At-Seen reject_requests v w h k = Unlinked-Seen v w h k
At-Seen finish v w h k = Unlinked-Seen v w h k
At-Seen over v w h (k, z) = (Unlinked-Seen v w h k, omega (arith, zombies-Seen v w h))
At-Seen close_bug v w h k = tt
