-- ===== src/ComplRing/Space.antt =====
-- What `allocate_buffer` says of the entries that the DMA engine has not processed.
use native.Mathlib.Nat.{mod-eq_of_lt, mod-eq-sub-mod, mod-lt}
use intel_xeon_phi_kernel_dr.Common.{
  ℕ, zero, suc, ◌+◌, ◌-◌, ◌%◌, ◌≤◌, ◌<◌, ◌≡◌, ◌≢◌, refl, sym, ap, ◌∙◌, ◌⊎◌, inl, inr, true, false,
  none, some, ltb, ◌==◌, ==_iff, ltb→lt, ltb_false→le, Bool-cases, arith,
}
use intel_xeon_phi_kernel_dr.ScifRb.Round.{distance, mod_shift}
use intel_xeon_phi_kernel_dr.ComplRing.{
  ComplBufRing, count_to, space_from, avail_space_in_ring, allocate_buffer, incr_rb_index,
  incr_head,
}

-- `n` entries from `tail` on are not processed, and the next one is at `head`.
pub record Waiting (size head tail n : ℕ) : Type 0 where
  pub tail_lt : tail < size
  pub head_lt : head < size
  pub some_free : n < size
  pub head_at : head ≡ (tail + n) % size

-- The entries that are counted are those that do not wait.
count_to_lem :
    (size head tail n : ℕ)
    → Waiting size head tail n
    → ((head ≡ tail) × (n ≡ 0)) ⊎ ((head ≢ tail) × (count_to head tail size ≡ size - n))
unfolding count_to
count_to_lem size head tail n w =
    let gone : (head + size - tail) % size ≡ n =
      distance size tail head n w.tail_lt w.some_free w.head_at in
    elim (Bool-cases (ltb tail head)) [
      | inl y ↦
          let less : tail < head = ltb→lt tail head y in
          let there : n ≡ head - tail =
            sym gone
            ∙ mod-eq-sub-mod {n = head + size - tail} {m = size} (omega arith)
            ∙ ap (λ t. t % size) (omega arith)
            ∙ mod-eq_of_lt {n = head - tail} {m = size} (omega (arith, w.head_lt)) in
          inr (omega (arith, less), rw (y) (omega (arith, there, less, w.head_lt)))
      | inr y ↦
          let le : head ≤ tail = ltb_false→le tail head y in
          elim (Bool-cases (head == tail)) [
            | inl z ↦
                let same : head ≡ tail = (==_iff head tail).0 z in
                let zero_left : head + size - tail - size ≡ 0 = omega (arith, same) in
                inl (
                  same,
                  sym gone
                      ∙ mod-eq-sub-mod {n = head + size - tail} {m = size} (omega (arith, same))
                      ∙ ap (λ t. t % size) zero_left
                      ∙ mod-eq_of_lt {n = 0} {m = size} (omega (arith, w.some_free)),
                )
            | inr z ↦
                let apart : head ≢ tail = ground (arith, z) in
                let there : n ≡ head + size - tail =
                  sym gone
                  ∙ mod-eq_of_lt {n = head + size - tail} {m = size} (omega (arith, le, apart)) in
                inr (apart, rw (y) (omega (arith, there, le, w.tail_lt)))
          ]
    ]

-- The loop ends without space when all but one entry wait at every read, and with space when more
-- than one is free at some read.
data Outcome (size : ℕ) (ns : ℕ → ℕ) (k retries space : ℕ) : Type 0 where
  all_wait :
      space ≡ 0
      → ((j : ℕ) → k ≤ j → j < k + retries → suc (ns j) ≡ size)
      → Outcome size ns k retries space
  room : space ≢ 0 → (j : ℕ) → j < k + retries → suc (ns j) < size → Outcome size ns k retries space

space_from-Outcome :
    (retries : ℕ) (tails ns : ℕ → ℕ) (k : ℕ) (ring : ComplBufRing)
    → ((j : ℕ) → Waiting ring.size ring.head (tails j) (ns j))
    → Outcome ring.size ns k retries (space_from retries tails k ring)
unfolding space_from
space_from-Outcome zero tails ns k ring w = all_wait refl (λ j lo hi. absurd (omega arith))
space_from-Outcome (suc retries) tails ns k ring w =
    elim (count_to_lem ring.size ring.head (tails k) (ns k) (w k)) [
      | inl (same, none_wait) ↦
          let at : (ring.head == tails k) ≡ true = ground (arith, same) in
          elim (Bool-cases (ring.size == 1)) [
            | inl y ↦
                let one : ring.size ≡ 1 = (==_iff ring.size 1).0 y in
                rw (at)
                  (all_wait (omega (arith, one)) (λ j lo hi. omega (arith, one, (w j).some_free)))
            | inr y ↦
                let more : ring.size ≢ 1 = ground (arith, y) in
                rw (at) (
                  room (omega (arith, more, (w k).some_free)) k (omega arith)
                    (omega (arith, more, none_wait, (w k).some_free)))
          ]
      | inr (apart, counted) ↦
          let not_at : (ring.head == tails k) ≡ false = ground (arith, apart) in
          elim (Bool-cases (count_to ring.head (tails k) ring.size == 1)) [
            | inl y ↦
                let one : count_to ring.head (tails k) ring.size ≡ 1 =
                  (==_iff (count_to ring.head (tails k) ring.size) 1).0 y in
                rw (not_at, y)
                  (later k retries (space_from retries tails (k + 1) ring)
                    (omega (arith, one, counted, (w k).some_free))
                    (space_from-Outcome retries tails ns (k + 1) ring w))
            | inr y ↦
                let more : count_to ring.head (tails k) ring.size ≢ 1 = ground (arith, y) in
                rw (not_at, y)
                  (room (omega (arith, more, counted, (w k).some_free)) k (omega arith)
                    (omega (arith, more, counted, (w k).some_free)))
          ]
    ]
  where
    later :
        (k retries space : ℕ)
        → suc (ns k) ≡ ring.size
        → Outcome ring.size ns (k + 1) retries space
        → Outcome ring.size ns k (suc retries) space
    later k retries space full (all_wait e all) = all_wait e (λ j lo hi.
        elim (Bool-cases (j == k)) [
          | inl y ↦ ap (λ i. suc (ns i)) ((==_iff j k).0 y) ∙ full
          | inr y ↦
              let other : j ≢ k = ground (arith, y) in all j (omega (arith, other)) (omega arith)
        ])
    later k retries space full (room e j hi r) = room e j (omega arith) r

-- The entry at the head is none of those that wait.
head-fresh : (size head tail n i : ℕ) → Waiting size head tail n → i < n → (tail + i) % size ≢ head
head-fresh size head tail n i w lt same = omega (
  arith,
  distance size tail head n w.tail_lt w.some_free w.head_at,
  distance size tail head i w.tail_lt (omega (arith, w.some_free)) (sym same),
)

-- If at every read the entries from `tail` round to `head` wait: `allocate_buffer` gives -1 only if
-- all entries but one waited at each of its 20 reads; otherwise it gives the head, which was not
-- among the entries that waited at one of these 20 reads, and when `incr_head` is called the entries
-- that waited and the new one are still fewer than the size.
pub allocate_buffer_lem :
    (tails ns : ℕ → ℕ) (ring : ComplBufRing)
    → ((j : ℕ) → Waiting ring.size ring.head (tails j) (ns j))
    → ((allocate_buffer tails ring ≡ none) × ((j : ℕ) → j < 20 → suc (ns j) ≡ ring.size))
      ⊎ ((allocate_buffer tails ring ≡ some ring.head)
          × ((j : ℕ) × (j < 20
                × (Waiting ring.size (incr_head ring).head (tails j) (suc (ns j))
                    × ((i : ℕ) → i < ns j → (tails j + i) % ring.size ≢ ring.head)))))
unfolding allocate_buffer avail_space_in_ring incr_head incr_rb_index
allocate_buffer_lem tails ns ring w = by_outcome (space_from-Outcome 20 tails ns 0 ring w)
  where
    by_outcome :
        Outcome ring.size ns 0 20 (space_from 20 tails 0 ring)
        → ((allocate_buffer tails ring ≡ none) × ((j : ℕ) → j < 20 → suc (ns j) ≡ ring.size))
          ⊎ ((allocate_buffer tails ring ≡ some ring.head)
              × ((j : ℕ) × (j < 20
                    × (Waiting ring.size (incr_head ring).head (tails j) (suc (ns j))
                        × ((i : ℕ) → i < ns j → (tails j + i) % ring.size ≢ ring.head)))))
    by_outcome (all_wait e all) =
        let test : (space_from 20 tails 0 ring == 0) ≡ true = ground (arith, e) in
        inl (rw (test) refl, λ j lt. all j (omega arith) (omega (arith, lt)))
    by_outcome (room e j lt more) =
        let test : (space_from 20 tails 0 ring == 0) ≡ false = ground (arith, e) in
        inr (
          rw (test) refl,
          (
            j,
            (
              omega (arith, lt),
              (
                record {
                  tail_lt = (w j).tail_lt;
                  head_lt = mod-lt (ring.head + 1) (omega (arith, more));
                  some_free = more;
                  head_at =
                      ap (λ h. (h + 1) % ring.size) (w j).head_at
                      ∙ mod_shift ring.size (tails j) (ns j) 1
                      ∙ ap (λ t. t % ring.size) (omega arith);
                },
                λ i h. head-fresh ring.size ring.head (tails j) (ns j) i (w j) h,
              ),
            ),
          ),
        )
