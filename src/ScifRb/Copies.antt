-- ===== src/ScifRb/Copies.antt =====
-- `memcpy_torb` and `memcpy_fromrb`: the two copies of a message that wraps make up one write or
-- read that goes round the ring.
use mathlib.Core.Path.{ap₂}
use native.Mathlib.Nat.{mod_self}
use intel_xeon_phi_kernel_dr.Common.{
  ℕ, ◌+◌, ◌-◌, ◌%◌, ◌≤◌, ◌<◌, ◌≡◌, refl, sym, ap, ◌∙◌, ◌⊎◌, inl, inr, Bool, true, false, Option,
  none, some, List, ◌++◌, length, take, drop, length-take, length-drop, length-append,
  take-append-drop, leb, leb→le, leb_false→lt, Bool-cases, if◌then◌else◌, arith,
}
use intel_xeon_phi_kernel_dr.Kernel.{UserCopy}
use intel_xeon_phi_kernel_dr.ScifRb.{Rb, write_at, read_at, memcpy_torb, memcpy_fromrb}
use intel_xeon_phi_kernel_dr.ScifRb.Span.{
  span, span-add, put_bytes, put_bytes-append, write_at-eq-put_bytes, read_at-eq-span,
}

-- What a copy into the ring leaves there: some bytes in order, all of the message if it succeeds.
pub record Copied (size : ℕ) (mem : List ℕ) (off : ℕ) (msg : List ℕ) (fromuser : Bool)
    (out : Bool × List ℕ) : Type 0 where
  pub bytes : List ℕ
  pub short : length bytes ≤ length msg
  pub memory : out.1 ≡ put_bytes size mem off bytes
  pub whole : out.0 ≡ true → bytes ≡ msg
  pub faulted : out.0 ≡ false → fromuser ≡ true

two_writes :
    (size : ℕ) (mem : List ℕ) (off : ℕ) (xs ys : List ℕ)
    → off < size
    → off + length xs ≡ size
    → length ys ≤ size
    → write_at (write_at mem off xs) 0 ys ≡ put_bytes size mem off (xs ++ ys)
two_writes size mem off xs ys ho hx hy =
    write_at-eq-put_bytes size (write_at mem off xs) 0 ys (omega arith)
    ∙ ap (λ m. put_bytes size m 0 ys) (write_at-eq-put_bytes size mem off xs (omega arith))
    ∙ ap (λ o. put_bytes size (put_bytes size mem off xs) o ys) start
    ∙ sym (put_bytes-append size mem off xs ys ho)
  where
    start : 0 ≡ (off + length xs) % size
    start = sym (ap (λ t. t % size) hx ∙ mod_self size)

-- The outcome of the two copies of a message that is split at the end of the ring.
module _ (size : ℕ) (mem : List ℕ) (off : ℕ) (m1 m2 b1 b2 msg : List ℕ) (ok2 : Bool)
    (joined : m1 ++ m2 ≡ msg) (inside : off < size) (to_end : off + length m1 ≡ size)
    (fits : length m2 ≤ size) (same1 : length b1 ≡ length m1) (same2 : length b2 ≡ length m2)
    (whole2 : ok2 ≡ true → b2 ≡ m2) where
  split-Copied :
      (ok1 fromuser : Bool)
      → (ok1 ≡ true → b1 ≡ m1)
      → Copied size mem off msg fromuser (
          if fromuser
          then (if ok1
              then (ok2, write_at (write_at mem off b1) 0 b2)
              else (false, write_at mem off b1))
          else (true, write_at (write_at mem off m1) 0 m2))
  split-Copied ok1 false whole1 = record {
    bytes = m1 ++ m2;
    short = omega (arith, ap length joined);
    memory = two_writes size mem off m1 m2 inside to_end fits;
    whole = λ _. joined;
    faulted = λ e. cc;
  }
  split-Copied true true whole1 = record {
    bytes = b1 ++ b2;
    short = omega (arith, length-append b1 b2, length-append m1 m2, ap length joined);
    memory = two_writes size mem off b1 b2 inside (omega arith) (omega arith);
    whole = λ e. cc (whole1 refl, whole2 e, joined);
    faulted = λ _. refl;
  }
  split-Copied false true whole1 = record {
    bytes = b1;
    short = omega (arith, length-append m1 m2, ap length joined);
    memory = write_at-eq-put_bytes size mem off b1 (omega arith);
    whole = λ e. cc;
    faulted = λ _. refl;
  }

module _ (size : ℕ) (mem : List ℕ) (off : ℕ) (msg b : List ℕ) (ok : Bool)
    (fits : off + length msg ≤ size) (same : length b ≡ length msg)
    (whole : ok ≡ true → b ≡ msg) where
  straight-Copied :
      (fromuser : Bool)
      → Copied size mem off msg fromuser
          (if fromuser then (ok, write_at mem off b) else (true, write_at mem off msg))
  straight-Copied true = record {
    bytes = b;
    short = omega arith;
    memory = write_at-eq-put_bytes size mem off b (omega arith);
    whole = whole;
    faulted = λ _. refl;
  }
  straight-Copied false = record {
    bytes = msg;
    short = omega arith;
    memory = write_at-eq-put_bytes size mem off msg fits;
    whole = λ _. refl;
    faulted = λ e. cc;
  }

module _ (u : UserCopy) (rb : Rb) (mem : List ℕ) (off : ℕ) (inside : off < rb.size) where
  -- A message that fits is written round from the offset; a copy that fails writes at most as much.
  pub memcpy_torb-Copied :
      (msg : List ℕ) (fromuser : Bool)
      → length msg < rb.size
      → Copied rb.size mem off msg fromuser (memcpy_torb u rb mem off msg fromuser)
  unfolding memcpy_torb
  memcpy_torb-Copied msg fromuser fits = elim (Bool-cases (leb rb.size (off + length msg))) [
    | inl e ↦ rw e (
        split-Copied rb.size mem off (take size1 msg) (drop size1 msg) _ _ msg _
          (take-append-drop size1 msg) inside
          (omega (arith, length-take size1 msg, leb→le rb.size (off + length msg) e))
          (omega (arith, length-drop size1 msg)) (u.length-copy_user (take size1 msg))
          (u.length-copy_user (drop size1 msg)) (u.copy_user_ok (drop size1 msg)) _ fromuser
          (u.copy_user_ok (take size1 msg)))
    | inr e ↦ rw e (
        straight-Copied rb.size mem off msg _ _
          (omega (arith, leb_false→lt rb.size (off + length msg) e)) (u.length-copy_user msg)
          (u.copy_user_ok msg) fromuser)
  ]
    where
      size1 : ℕ
      size1 = rb.size - off

two_reads :
    (size : ℕ) (mem : List ℕ) (off n : ℕ)
    → off < size
    → size ≤ length mem
    → size ≤ off + n
    → n < size
    → read_at mem off (size - off) ++ read_at mem 0 (n - (size - off)) ≡ span size mem off n
two_reads size mem off n ho hm wraps fits =
    ap₂ ◌++◌ (read_at-eq-span size mem off (size - off) (omega arith) hm) (
      read_at-eq-span size mem 0 (n - (size - off)) (omega arith) hm
      ∙ ap (λ o. span size mem o (n - (size - off))) start)
    ∙ sym (span-add size mem off (size - off) (n - (size - off)) ho)
    ∙ ap (span size mem off) (omega arith)
  where
    start : 0 ≡ (off + (size - off)) % size
    start = sym (ap (λ t. t % size) (omega arith) ∙ mod_self size)

-- A copy out of the ring gives the bytes from the offset on, going round, or fails towards the user.
abbrev pub Fetched : List ℕ → Bool → Option (List ℕ) → Type 0
Fetched bytes touser out = (out ≡ some bytes) ⊎ ((out ≡ none) × (touser ≡ true))

split-Fetched :
    (m1 m2 b1 b2 bytes : List ℕ) (ok1 ok2 touser : Bool)
    → m1 ++ m2 ≡ bytes
    → (ok1 ≡ true → b1 ≡ m1)
    → (ok2 ≡ true → b2 ≡ m2)
    → Fetched bytes touser (
        if touser
        then (if ok1 then (if ok2 then some (b1 ++ b2) else none) else none)
        else some (m1 ++ m2))
split-Fetched m1 m2 b1 b2 bytes ok1 ok2 false e w1 w2 = inl (ap some e)
split-Fetched m1 m2 b1 b2 bytes true true true e w1 w2 = inl (cc (w1 refl, w2 refl, e))
split-Fetched m1 m2 b1 b2 bytes true false true e w1 w2 = inr (refl, refl)
split-Fetched m1 m2 b1 b2 bytes false ok2 true e w1 w2 = inr (refl, refl)

straight-Fetched :
    (m b bytes : List ℕ) (ok touser : Bool)
    → m ≡ bytes
    → (ok ≡ true → b ≡ m)
    → Fetched bytes touser (if touser then (if ok then some b else none) else some m)
straight-Fetched m b bytes ok false e w = inl (ap some e)
straight-Fetched m b bytes true true e w = inl (cc (w refl, e))
straight-Fetched m b bytes false true e w = inr (refl, refl)

pub memcpy_fromrb-Fetched :
    (u : UserCopy) (rb : Rb) (mem : List ℕ) (off n : ℕ) (touser : Bool)
    → off < rb.size
    → n < rb.size
    → rb.size ≤ length mem
    → Fetched (span rb.size mem off n) touser (memcpy_fromrb u rb mem off n touser)
unfolding memcpy_fromrb
memcpy_fromrb-Fetched u rb mem off n touser ho hn hm = elim (Bool-cases (leb rb.size (off + n))) [
  | inl e ↦ rw e (
      split-Fetched m1 m2 _ _ _ _ _ touser
        (two_reads rb.size mem off n ho hm (leb→le rb.size (off + n) e) hn) (u.copy_user_ok m1)
        (u.copy_user_ok m2))
  | inr e ↦ rw e (
      straight-Fetched (read_at mem off n) _ _ _ touser
        (read_at-eq-span rb.size mem off n (omega (arith, leb_false→lt rb.size (off + n) e)) hm)
        (u.copy_user_ok (read_at mem off n)))
]
  where
    m1 : List ℕ
    m1 = read_at mem off (rb.size - off)

    m2 : List ℕ
    m2 = read_at mem 0 (n - (rb.size - off))
