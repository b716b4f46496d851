-- ===== src/Twin/Observations/Tests.antt =====
-- The order of four observations, two of which name each other as their parents.
use wind_solar_ess_agent.Base.{◌+◌, ◌≤◌, ◌≡◌, refl, Option, none, some, List, [], ◌∷◌, map, arith}
use wind_solar_ess_agent.Js.Text.{Text, codes, text_eq}
use wind_solar_ess_agent.Js.Json.{Fields}
use wind_solar_ess_agent.Twin.Observations.{
  Observation, order_with, order_observations, visit_from, visit_each, children_of, unvisited,
}
use wind_solar_ess_agent.Twin.Observations.Visits.{count}
use wind_solar_ess_agent.Twin.Observations.Complete.{count-order_observations}
use wind_solar_ess_agent.Twin.Observations.Fuel.{order_observations-fuel}

abbrev observation : Text → Option Text → Observation
observation id parent = record {
  observation_id = id;
  parent_observation_id = parent;
  depth = none;
  details = Fields.end;
}

abbrev four : List Observation
four =
    observation (codes "b") (some (codes "a"))
    ∷ observation (codes "x") (some (codes "y"))
    ∷ observation (codes "y") (some (codes "x"))
    ∷ observation (codes "a") none
    ∷ []

-- The tree comes first, then those of the cycle, in the given order.
order_of_four :
    map (λ o. o.observation_id) (order_observations four)
    ≡ codes "a" ∷ codes "b" ∷ codes "x" ∷ codes "y" ∷ []
unfolding order_observations visit_from visit_each children_of unvisited text_eq
order_of_four = refl

distinct : (id : Text) → count id four ≤ 1
unfolding text_eq
distinct [] = omega arith
distinct (c ∷ []) = ground arith
distinct (c ∷ d ∷ t) = ground arith

count-order_observations_example : count (codes "x") (order_observations four) ≡ 1
unfolding text_eq
count-order_observations_example = count-order_observations four distinct (codes "x")

order_observations-fuel_example : order_with (5 + 7) four ≡ order_observations four
order_observations-fuel_example = order_observations-fuel four 7
