-- ===== src/Workspace/Audit.antt =====
-- audit/audit-client.ts: the calls of the audit panel.
use wind_solar_ess_agent.Base.{Option, none, some, List, [], ◌∷◌, ◌++◌, if◌then◌else◌}
use wind_solar_ess_agent.Js.Text.{Text, codes, decimal}
use wind_solar_ess_agent.Js.Json.{Json, nullish, to_string}
use wind_solar_ess_agent.Js.Map.{set_key}
use wind_solar_ess_agent.Workspace.Access.{
  Server, World, Response, Result, returned, thrown, StationError, message_error, schema_error,
  is_ok, member, continue_with, fetch, bearer, resolve_station_api_token, read_envelope,
}

-- `fetchHarness` of the audit panel; the schema is an argument, and yields `none` where it throws.
module _ {A : Type 0} (parse : Option Json → Option A) where
  abbrev parsed : Option A → Result A
  parsed none = thrown schema_error
  parsed (some value) = returned value

  abbrev harness_error : Response → StationError
  harness_error response = elim (nullish (member "message" (member "error" response.json))) [
    | none ↦ message_error (codes "harness_audit_http_" ++ decimal response.status)
    | some message ↦ message_error (to_string message)
  ]

  unfoldable pub fetch_harness : Server → Text → World → World × Result A
  unfolding fetch
  fetch_harness server path w = continue_with (resolve_station_api_token w) (λ token v.
      continue_with (fetch server (bearer path token) v) (λ response u. (
        u,
        read_envelope response.json (
            if is_ok response.status
            then parsed (parse (member "data" response.json))
            else thrown (harness_error response)),
      )))

-- The calls of the audit panel. `encodeURIComponent`, `URLSearchParams.toString()` and the schemas
-- are arguments.
module _ {A : Type 0} (encode : Text → Text) (print_search : List (Text × Text) → Text)
    (parse : Option Json → Option A) where
  abbrev set_filters : List (Text × Option Text) → List (Text × Text) → List (Text × Text)
  set_filters [] search = search
  set_filters ((key, some (c ∷ t)) ∷ filters) search =
      set_filters filters (set_key key (c ∷ t) search)
  set_filters ((key, _) ∷ filters) search = set_filters filters search

  -- `searchAuditResources`, with a schema that yields the hits.
  unfoldable pub search_audit_resources :
      Server → List (Text × Option Text) → World → World × Result A
  search_audit_resources server filters w =
      fetch_harness parse server
        (codes "/api/v1/resources/search?" ++ print_search (set_filters filters [])) w

  -- `fetchRunAudit`
  unfoldable pub fetch_run_audit : Server → Text → World → World × Result A
  fetch_run_audit server run_id w =
      fetch_harness parse server (codes "/api/v1/runs/" ++ (encode run_id ++ codes "/audit")) w

  -- `fetchEvidenceDetail`
  unfoldable pub fetch_evidence_detail : Server → Text → World → World × Result A
  fetch_evidence_detail server evidence_id w =
      fetch_harness parse server (codes "/api/v1/evidence/" ++ encode evidence_id) w
