-- ===== src/Workspace/Views.antt =====
-- workspace/twin-view-registry.ts: the views of the digital twin by their ids, their segments of the
-- address and their old indices.
mod Tests
use wind_solar_ess_agent.Base.{
  ℕ, zero, suc, ◌≡◌, ◌⊎◌, refl, Bool, true, false, Option, none, some, List, [], ◌∷◌, ◌++◌,
  Bool-cases, inl, inr, if◌then◌else◌,
}
use wind_solar_ess_agent.Js.Text.{Text, codes, text_eq, text_eq→eq}

pub data TwinViewId : Type 0 where
  data_view thermal power_flow alarms video : TwinViewId

pub record TwinViewDefinition : Type 0 where
  pub id : TwinViewId
  pub label : Text
  pub dashboard : Text
  pub scene_profile : Text
  pub legend_profile : Text
  pub telemetry_profile : Text

-- The text of an id, which is the segment of the address too.
abbrev pub route_segment : TwinViewId → Text
route_segment data_view = codes "data"
route_segment thermal = codes "thermal"
route_segment power_flow = codes "power-flow"
route_segment alarms = codes "alarms"
route_segment video = codes "video"

abbrev definition : TwinViewId → Text → Text → Text → Text → Text → TwinViewDefinition
definition id label dashboard scene_profile legend_profile telemetry_profile = record {
  id = id;
  label = label;
  dashboard = dashboard;
  scene_profile = scene_profile;
  legend_profile = legend_profile;
  telemetry_profile = telemetry_profile;
}

abbrev pub default_twin_view : TwinViewDefinition
default_twin_view =
    definition data_view (codes "数据视图") (codes "overview") (codes "asset") (codes "power")
      (codes "asset")

abbrev pub twin_view_definitions : List TwinViewDefinition
twin_view_definitions =
    default_twin_view
    ∷ definition thermal (codes "温度热力") (codes "thermal") (codes "thermal") (codes "temperature")
        (codes "thermal")
    ∷ definition power_flow (codes "潮流分析") (codes "power-flow") (codes "power-flow") (codes "flow")
        (codes "power-flow")
    ∷ definition alarms (codes "告警分析") (codes "alarms") (codes "alarm") (codes "alarm")
        (codes "alarms")
    ∷ definition video (codes "视频监控") (codes "video") (codes "camera") (codes "camera")
        (codes "video")
    ∷ []

abbrev find_segment : Text → List TwinViewDefinition → TwinViewDefinition
find_segment candidate [] = default_twin_view
find_segment candidate (d ∷ ds) =
    let rest = find_segment candidate ds in
    if text_eq (route_segment d.id) candidate then d else rest

-- `resolveTwinView`
unfoldable pub resolve_twin_view : Option Text → TwinViewDefinition
resolve_twin_view none = default_twin_view
resolve_twin_view (some candidate) = find_segment candidate twin_view_definitions

abbrev is_view : TwinViewId → TwinViewId → Bool
is_view a b = text_eq (route_segment a) (route_segment b)

abbrev next_index : Option ℕ → Option ℕ
next_index none = none
next_index (some index) = some (suc index)

abbrev find_index : TwinViewId → List TwinViewDefinition → Option ℕ
find_index view [] = none
find_index view (d ∷ ds) =
    let rest = next_index (find_index view ds) in if is_view d.id view then some 0 else rest

-- `viewIndexFor`, with `none` for -1.
unfoldable pub view_index_for : TwinViewId → Option ℕ
view_index_for view = find_index view twin_view_definitions

abbrev definition_at : List TwinViewDefinition → ℕ → TwinViewDefinition
definition_at [] index = default_twin_view
definition_at (d ∷ ds) zero = d
definition_at (d ∷ ds) (suc index) = definition_at ds index

-- `viewDefinitionForIndex`
unfoldable pub view_definition_for_index : ℕ → TwinViewDefinition
view_definition_for_index index = definition_at twin_view_definitions index

-- `buildTwinViewHref`, with `encodeURIComponent` as an argument.
module _ (encode : Text → Text) where
  abbrev asset_query : Option Text → Text
  asset_query (some (c ∷ t)) = codes "?assetId=" ++ encode (c ∷ t)
  asset_query _ = []

  unfoldable pub build_twin_view_href : Text → TwinViewId → Option Text → Text
  build_twin_view_href station_id view asset_id =
      codes "/stations/"
      ++ (encode station_id ++ (codes "/" ++ (route_segment view ++ asset_query asset_id)))
