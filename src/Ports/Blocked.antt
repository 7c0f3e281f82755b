-- ===== src/Ports/Blocked.antt =====
-- What becomes of the search of `get_scif_port` when `rsrv_scif_port` has taken the word it starts at.
use intel_xeon_phi_kernel_dr.Common.{
  ℕ, zero, suc, ◌+◌, ◌*◌, ◌≤◌, ◌<◌, ◌≡◌, refl, ◌∙◌, inl, inr, false, ◌==◌, Bool-cases, arith,
}
use intel_xeon_phi_kernel_dr.Ports.{Ports, rsrv_scif_port, get_scif_port}
use intel_xeon_phi_kernel_dr.Ports.Spec.{free, Inv}
use intel_xeon_phi_kernel_dr.Ports.Calls.{rsrv_scif_port_lem, first_free-rsrv_scif_port}
use intel_xeon_phi_kernel_dr.Ports.Search.{get_scif_port_stuck}

-- `rsrv_scif_port` at `n` ports in a row.
pub reserve_from : ℕ → ℕ → Ports → Ports
reserve_from zero p st = st
reserve_from (suc n) p st = reserve_from n (p + 1) (rsrv_scif_port p st).1

record Reserved (n p : ℕ) (st st' : Ports) : Type 0 where
  inv : Inv st'
  index : st'.first_free ≡ st.first_free
  taken : (j : ℕ) → p ≤ j → j < p + n → free st' j ≡ false
  others : (j : ℕ) → p + n ≤ j → free st' j ≡ free st j
  fewer : (j : ℕ) → free st j ≡ false → free st' j ≡ false

reserve_from-Reserved :
    (n p : ℕ) (st : Ports) → 0 < p → p + n ≤ 65536 → Inv st → Reserved n p st (reserve_from n p st)
unfolding reserve_from
reserve_from-Reserved zero p st hp hq inv = record {
  inv = inv;
  index = refl;
  taken = λ j lo hi. absurd (omega arith);
  others = λ j h. refl;
  fewer = λ j h. h;
}
reserve_from-Reserved (suc n) p st hp hq inv =
    let one = rsrv_scif_port_lem st inv p hp (omega arith) in
    let rest =
      reserve_from-Reserved n (p + 1) (rsrv_scif_port p st).1 (omega arith) (omega arith) one.2 in
    record {
      inv = rest.inv;
      index = rest.index ∙ first_free-rsrv_scif_port st p inv.ready hp (omega arith);
      taken = λ j lo hi. elim (Bool-cases (p == j)) [
        | inl e ↦ rest.fewer j (one.1 j ∙ rw e)
        | inr e ↦ rest.taken j (ground arith) (omega arith)
      ];
      others = λ j h. rest.others j (omega arith) ∙ one.1 j ∙ ground arith;
      fewer = λ j h. rest.fewer j (one.1 j ∙ ground arith);
    }

-- A defect of the search, where the invariant holds and the search index is in the array: once the
-- 64 ports of the word at the search index have been reserved by
-- number, `get_scif_port` gives no port, though every port behind them may be free.
pub get_scif_port_blocked :
    (st : Ports)
    → Inv st
    → st.first_free < 1024
    → let st' = reserve_from 64 (64 * st.first_free) st in
      ((get_scif_port st').0 ≡ 0) × ((j : ℕ) → 64 * st.first_free + 64 ≤ j → free st' j ≡ free st j)
get_scif_port_blocked st inv h =
    let r =
      reserve_from-Reserved 64 (64 * st.first_free) st (omega (arith, inv.above_reserved))
        (omega arith) inv in
    (
      (get_scif_port_stuck _ r.inv (omega (arith, r.index))
          (λ j k. r.taken _ (omega (arith, r.index)) (omega (arith, r.index)))).0,
      r.others,
    )
