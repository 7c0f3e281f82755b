-- ===== src/Ports/Examples.antt =====
-- The port array at concrete calls.
use intel_xeon_phi_kernel_dr.Common.{
  ℕ, ◌+◌, ◌*◌, ◌≤◌, ◌<◌, ◌≡◌, refl, ◌⊎◌, true, false, List, [], ◌∷◌, if◌then◌else◌, arith,
}
use intel_xeon_phi_kernel_dr.Ports.{
  Ports, init_scif_array, rsrv_scif_port, get_scif_port, put_scif_port,
}
use intel_xeon_phi_kernel_dr.Ports.Spec.{free, Inv, Changed, init-Inv}
use intel_xeon_phi_kernel_dr.Ports.Calls.{rsrv_scif_port_lem, put_scif_port_lem}
use intel_xeon_phi_kernel_dr.Ports.Search.{Found, NotFound, get_scif_port_lem}
use intel_xeon_phi_kernel_dr.Ports.Blocked.{reserve_from, get_scif_port_blocked}
use intel_xeon_phi_kernel_dr.Ports.Held.{Call, reserve, get, release, IsSafe, run, run-IsSafe}

-- The static data as the module is loaded.
loaded : Ports
loaded = record {
  init_array = true;
  first_free = 0;
  port_bits = [];
  port_rsvd = 0;
  port_free = 0;
  port_err = 0;
}

started : Ports
started = init_scif_array loaded

started-Inv : Inv started
unfolding started loaded
started-Inv = init-Inv loaded refl

rsrv_scif_port_lem_example :
    let (r, st') = rsrv_scif_port 2000 started in
    (r ≡ (if free started 2000 then 2000 else 0)) × Changed started st' 2000 false × Inv st'
rsrv_scif_port_lem_example = rsrv_scif_port_lem started started-Inv 2000 (omega arith) (omega arith)

put_scif_port_lem_example :
    let st' = put_scif_port 2000 started in Changed started st' 2000 true × Inv st'
put_scif_port_lem_example = put_scif_port_lem started started-Inv 2000 (omega arith) (omega arith)

get_scif_port_lem_example :
    ((p : ℕ) × Found started p (get_scif_port started)) ⊎ NotFound started (get_scif_port started)
get_scif_port_lem_example = get_scif_port_lem started started-Inv

abbrev calls : List Call
calls = get ∷ reserve 5 ∷ reserve 5 ∷ get ∷ release 1088 ∷ get ∷ []

run-IsSafe_example : IsSafe (run (init_scif_array loaded, []) calls)
unfolding loaded
run-IsSafe_example = run-IsSafe loaded calls refl

index_lt : started.first_free < 1024
unfolding started loaded init_scif_array
index_lt = omega arith

get_scif_port_blocked_example :
    let st' = reserve_from 64 (64 * started.first_free) started in
    ((get_scif_port st').0 ≡ 0)
    × ((j : ℕ) → 64 * started.first_free + 64 ≤ j → free st' j ≡ free started j)
get_scif_port_blocked_example = get_scif_port_blocked started started-Inv index_lt
