-- ===== src/Workbench/Request.antt =====
-- AgentStreamingWorkbench.tsx: the request that the workbench makes of a message. The assets that
-- the regular expressions of `extractAssetReferences` find, and `toLocaleLowerCase`, are arguments.
pub mod Accepted
mod Tests
use wind_solar_ess_agent.Base.{
  ℕ, Bool, true, false, not, ◌&&◌, ◌||◌, Option, none, some, List, [], ◌∷◌, ◌++◌, map, any,
  if◌then◌else◌,
}
use wind_solar_ess_agent.Js.Text.{Text, codes, text_eq, decimal, includes}
use wind_solar_ess_agent.Control.Contracts.{
  Environment, dev, ContextSnapshot, ToolReference, PolicySnapshot, ApprovalStatus, not_required,
  ApprovalSnapshot, TurnInput,
}

-- What the code reads of a device.
pub record DeviceContext : Type 0 where
  pub id : Option Text
  pub station_device_id : Option Text
  pub updated_at : Option Text

pub record AssetScope : Type 0 where
  pub explicit : Bool
  pub selected : Bool

abbrev pub control_agent_tool_ids : List Text
control_agent_tool_ids =
    codes "asset.get_asset"
    ∷ codes "asset.list_assets"
    ∷ codes "asset.get_asset_status"
    ∷ codes "telemetry.get_latest_value"
    ∷ codes "telemetry.get_timeseries"
    ∷ codes "alarm.get_active_alarms"
    ∷ codes "alarm.get_alarm_detail"
    ∷ codes "alarm.get_alarm_history"
    ∷ codes "alarm.get_event_timeline"
    ∷ codes "runtime_context.get_session_context"
    ∷ codes "runtime_context.get_selected_asset_context"
    ∷ codes "runtime_context.get_environment_context"
    ∷ codes "search.search_sop"
    ∷ []

abbrev pub control_broad_query_tool_ids : List Text
control_broad_query_tool_ids =
    codes "asset.list_assets"
    ∷ codes "alarm.get_active_alarms"
    ∷ codes "alarm.get_alarm_history"
    ∷ codes "alarm.get_event_timeline"
    ∷ codes "runtime_context.get_session_context"
    ∷ codes "runtime_context.get_selected_asset_context"
    ∷ codes "runtime_context.get_environment_context"
    ∷ codes "search.search_sop"
    ∷ []

abbrev broad_markers : List Text
broad_markers =
    codes "总体"
    ∷ codes "整体"
    ∷ codes "全场"
    ∷ codes "全站"
    ∷ codes "整个场站"
    ∷ codes "所有设备"
    ∷ codes "全部设备"
    ∷ codes "设备清单"
    ∷ codes "系统概况"
    ∷ codes "overall"
    ∷ codes "all devices"
    ∷ codes "all assets"
    ∷ codes "site-wide"
    ∷ []

-- `isBroadAssetQuery`, of the input in lower case
pub is_broad_asset_query : Text → Bool
is_broad_asset_query normalized = any (λ marker. includes marker normalized) broad_markers

-- The ids of a device that are there and not empty.
abbrev given : Option Text → List Text
given none = []
given (some []) = []
given (some (c ∷ t)) = (c ∷ t) ∷ []

abbrev pub references_of : Option DeviceContext → List Text
references_of none = []
references_of (some container) = given container.id ++ given container.station_device_id

abbrev is_given : {A : Type 0} → Option A → Bool
is_given none = false
is_given (some a) = true

abbrev is_empty : {A : Type 0} → List A → Bool
is_empty [] = true
is_empty (_ ∷ _) = false

abbrev concat_map : (Text → List Text) → List Text → List Text
concat_map f [] = []
concat_map f (t ∷ ts) = f t ++ concat_map f ts

abbrev or_option : Option Text → Option Text → Option Text
or_option none fallback = fallback
or_option (some t) fallback = some t

-- `container?.stationDeviceId ?? container?.id`, where it is not empty
abbrev pub device_id : Option DeviceContext → Option Text
device_id none = none
device_id (some container) = elim (or_option container.station_device_id container.id) [
  | none ↦ none
  | some [] ↦ none
  | some (c ∷ t) ↦ some (c ∷ t)
]

abbrev updated_at_of : Option DeviceContext → Text
updated_at_of none = []
updated_at_of (some container) = elim container.updated_at [ none ↦ [] | some t ↦ t ]

abbrev pub tool_ref : Text → ToolReference
tool_ref tool_id = record { tool_id = tool_id; version = codes "0.1.0" }

module _ (to_lower : Text → Text) (extract_asset_references : Text → List Text) where
  -- `resolveAssetQueryScope`
  pub resolve_asset_query_scope : Text → Option DeviceContext → AssetScope
  unfolding is_broad_asset_query
  resolve_asset_query_scope input container =
      let normalized = to_lower input in
      let references = references_of container in
      let query_assets = extract_asset_references input in
      let selected_assets = concat_map extract_asset_references references in
      let selected_mentioned =
        any (λ reference. includes (to_lower reference) normalized) references
        || any (λ asset. any (text_eq asset) selected_assets) query_assets in
      let broad = is_empty query_assets && is_broad_asset_query normalized in
      let selected =
        selected_mentioned || (is_given container && is_empty query_assets && not broad) in
      record { explicit = selected || not (is_empty query_assets); selected = selected }

  -- `buildAgentRequest`; of the alerts only their number counts.
  pub build_agent_request : Text → Text → Option DeviceContext → ℕ → Text → TurnInput
  unfolding resolve_asset_query_scope
  build_agent_request input station_id container alerts range =
      let scope = resolve_asset_query_scope input container in
      let tool_ids =
        if scope.explicit then control_agent_tool_ids else control_broad_query_tool_ids in
      record {
        text = input;
        context = record {
          selected_asset_id = if scope.selected then device_id container else none;
          environment = some dev;
          attributes = some (
              (codes "trusted_site_id", station_id)
              ∷ (codes "time_range", range)
              ∷ (codes "selected_alarm_count", decimal alerts)
              ∷ (codes "selected_device_updated_at", updated_at_of container)
              ∷ []);
        };
        tool_refs = map tool_ref tool_ids;
        skill_refs = [];
        policy = record { visible_tool_ids = tool_ids; workflow_stage = some (codes "data.query") };
        approval = record { status = not_required; approval_id = none; comment = none };
      }
