-- ===== src/Tests/Direct.antt =====
-- A call that is controlled leg by leg, and the theorems applied to it.
use open_voip.Base.{◌≡◌, ◌⊎◌, refl, [], ◌∷◌, ◌≤◌, List, arith}
use open_voip.Errs.{Err}
use open_voip.Ports.{LegRole, active}
use open_voip.Control.State.{err}
use open_voip.Control.Direct.{DirectLegRequest, add_direct_leg, join_leg}
use open_voip.Control.Direct.Legs.{MayJoin, add_direct_leg_guarded}
use open_voip.Control.Direct.Pairs.{LegRequest, leg_count, run_legs, run_legs-leg_count}
use open_voip.Control.State.{Env}
use open_voip.Tests.{plain, broken, call_in, cell_of, ports}

abbrev guest : DirectLegRequest
guest = record { role = LegRole.customer; agent_id = "" }

add_direct_leg_guarded_example :
    (MayJoin guest (call_in active)
      × (add_direct_leg ports guest (cell_of (call_in active))
          ≡ join_leg ports guest (cell_of (call_in active))))
    ⊎ ((e : Err) × (add_direct_leg ports guest (cell_of (call_in active))
          ≡ (err e, cell_of (call_in active))))
add_direct_leg_guarded_example =
    add_direct_leg_guarded ports guest (call_in active) (cell_of (call_in active)) refl

abbrev coming_and_going : List (Env × LegRequest)
coming_and_going =
    (ports, LegRequest.joins guest)
    ∷ (broken, LegRequest.joins guest)
    ∷ (ports, LegRequest.leaves plain "leg-1")
    ∷ (ports, LegRequest.joins guest)
    ∷ []

run_legs-leg_count_example : leg_count (run_legs coming_and_going (cell_of (call_in active))) ≤ 2
unfolding leg_count
run_legs-leg_count_example =
    run_legs-leg_count coming_and_going (cell_of (call_in active)) (omega arith)
