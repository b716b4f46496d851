-- ===== src/Control/Runtime/Calls/Projected.antt =====
-- The errors that a failed call of the runtime can be reported as.
use wind_solar_ess_agent.Base.{[], ℕ, Bool-cases, inl, inr}
use wind_solar_ess_agent.Js.Text.{Text, codes}
use wind_solar_ess_agent.Control.Runtime.{or_default}
use wind_solar_ess_agent.Control.Runtime.Calls.{
  StartError, project_runtime_start_error, is_request_error, names_model_provider,
}

-- What holds of the three errors holds of the one that is reported.
pub project_runtime_start_error_cases :
    (P : ℕ → Text → Type 0) (e : StartError)
    → P 400 (codes "runtime_request_invalid")
    → P 502 (codes "model_provider_unavailable")
    → P 502 (codes "runtime_unavailable")
    → P (project_runtime_start_error e).status (project_runtime_start_error e).code
unfolding project_runtime_start_error
project_runtime_start_error_cases P e request model runtime =
    elim (Bool-cases (is_request_error e.code)) [
      | inl yes_request ↦ rw yes_request request
      | inr no_request ↦
          elim (Bool-cases
            (names_model_provider (or_default e.details (or_default e.message [])))) [
              | inl names ↦ rw (no_request, names) model
              | inr other ↦ rw (no_request, other) runtime
            ]
    ]
