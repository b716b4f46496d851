-- ===== src/Twin/Store/Actions.antt =====
-- The count of loaded resources stays within their number (store.js).
use wind_solar_ess_agent.Base.{ℕ, ◌≤◌, ◌≡◌, Option, List, [], ◌∷◌, arith}
use wind_solar_ess_agent.Js.Text.{Text}
use wind_solar_ess_agent.Js.Number.{Numbers}
use wind_solar_ess_agent.Twin.Store.{
  Action, State, ℤ, pos, negsuc, clamp_count, run_action, run_actions, start_scene_loading,
  set_loaded_resources,
}

clamp_count-le : (total : ℕ) (count : ℤ) → clamp_count total count ≤ total
clamp_count-le total (pos count) = omega arith
clamp_count-le total (negsuc count) = omega arith

module _ (numbers : Numbers) (parse_date : Text → Option ℕ) where
  IsWithin : State numbers parse_date → ℕ → Type 0
  IsWithin s total = (s.loading_total ≡ total) × (s.loaded_resources ≤ total)

  run_action-IsWithin :
      (action : Action numbers parse_date) (s : State numbers parse_date) (total : ℕ)
      → IsWithin s total
      → IsWithin (run_action numbers parse_date action s) total
  unfolding run_action IsWithin
  run_action-IsWithin (set_loaded_resources count) s total (e, h) =
      (e, omega (arith, clamp_count-le s.loading_total count))
  run_action-IsWithin (start_scene_loading now) s total (e, h) = (e, omega arith)
  run_action-IsWithin _ s total (e, h) = (e, h)

  run_actions-IsWithin :
      (actions : List (Action numbers parse_date)) (s : State numbers parse_date) (total : ℕ)
      → IsWithin s total
      → IsWithin (run_actions numbers parse_date actions s) total
  unfolding run_actions
  run_actions-IsWithin [] s total h = h
  run_actions-IsWithin (action ∷ actions) s total h =
      run_actions-IsWithin actions (run_action numbers parse_date action s) total
        (run_action-IsWithin action s total h)
