-- ===== src/Workspace/Mappers.antt =====
-- workspace/station-data-mappers.ts: what the station's device tree says of the batteries of the
-- scene, and its alarms. Numbers are a parameter, and so is the reading of a date, which yields the
-- text of `toISOString()`.
mod Tests
pub mod References
pub mod Updated
pub mod Containers
use wind_solar_ess_agent.Base.{
  ℕ, Bool, true, false, Option, none, some, List, [], ◌∷◌, ◌++◌, map, take, drop, if◌then◌else◌,
}
use wind_solar_ess_agent.Js.Text.{Text, codes, text_eq}
use wind_solar_ess_agent.Js.Map.{get_key, set_key}
use wind_solar_ess_agent.Js.Number.{Numbers}

pub data Severity : Type 0 where
  normal warning critical : Severity

abbrev severity_of : Text → Option Severity
severity_of value =
    if text_eq value (codes "normal")
    then some normal
    else if text_eq value (codes "warning")
    then some warning
    else if text_eq value (codes "critical")
    then some critical
    else none

-- `normalizedSeverity`
abbrev normalized_severity : Option Text → Severity → Severity
normalized_severity none fallback = fallback
normalized_severity (some value) fallback = elim (severity_of value) [
  | none ↦ fallback
  | some severity ↦ severity
]

-- `a ?? b`
abbrev or_else : {A : Type 0} → Option A → Option A → Option A
or_else none b = b
or_else (some a) b = some a

module _ (numbers : Numbers) where
  open numbers use {Number, is_finite}

  -- `none` stands for a field that is missing.
  pub record Latest : Type 0 where
    pub soc : Option Number
    pub temperature : Option Number
    pub temp : Option Number
    pub power_kw : Option Number
    pub power : Option Number

  pub record Summary : Type 0 where
    pub status : Text
    pub latest : Option Latest

  -- A node of the tree, without its children.
  pub record DeviceInfo : Type 0 where
    pub device_id : Text
    pub code : Option Text
    pub status : Text
    pub summary : Option Summary

  mutual
    pub data DeviceTreeNode : Type 0 where
      node : DeviceInfo → DeviceTreeNodes → DeviceTreeNode

    pub data DeviceTreeNodes : Type 0 where
      no_nodes : DeviceTreeNodes
      more_nodes : DeviceTreeNode → DeviceTreeNodes → DeviceTreeNodes

  pub record WorkspaceContainer : Type 0 where
    pub id : Text
    pub station_device_id : Option Text
    pub severity : Severity
    pub soc : Number
    pub temp : Number
    pub power : Number

  -- `finiteOrFallback`
  abbrev finite_or_fallback : Option Number → Number → Number
  finite_or_fallback none fallback = fallback
  finite_or_fallback (some value) fallback = if is_finite value then value else fallback

  -- `flattenDeviceTree`
  unfoldable mutual
    pub flatten_node : DeviceTreeNode → List DeviceInfo
    flatten_node (node info children) = info ∷ flatten_device_tree children

    pub flatten_device_tree : DeviceTreeNodes → List DeviceInfo
    flatten_device_tree no_nodes = []
    flatten_device_tree (more_nodes n nodes) = flatten_node n ++ flatten_device_tree nodes

  -- `if (node.code) byReference.set(node.code, node)`
  abbrev pub set_code :
      Option Text → DeviceInfo → List (Text × DeviceInfo) → List (Text × DeviceInfo)
  set_code (some (c ∷ t)) info by_reference = set_key (c ∷ t) info by_reference
  set_code _ info by_reference = by_reference

  -- The loop that fills `byReference`.
  unfoldable pub index_references :
      List DeviceInfo → List (Text × DeviceInfo) → List (Text × DeviceInfo)
  index_references [] by_reference = by_reference
  index_references (info ∷ infos) by_reference =
      index_references infos (set_code info.code info (set_key info.device_id info by_reference))

  abbrev text_or : Option Text → Text → Text
  text_or none text = text
  text_or (some given) text = given

  abbrev pub reference_of : WorkspaceContainer → Text
  reference_of c = text_or c.station_device_id c.id

  abbrev latest_or_empty : Option Latest → Latest
  latest_or_empty (some latest) = latest
  latest_or_empty none = record {
    soc = none;
    temperature = none;
    temp = none;
    power_kw = none;
    power = none;
  }

  -- `node.summary?.latest ?? {}`
  abbrev latest_of : Option Summary → Latest
  latest_of none = latest_or_empty none
  latest_of (some summary) = latest_or_empty summary.latest

  abbrev status_of : Option Summary → Text → Text
  status_of none status = status
  status_of (some summary) status = summary.status

  abbrev other_id : Text → Text → Option Text
  other_id id container_id = if text_eq id container_id then none else some id

  abbrev pub update_container : Option DeviceInfo → WorkspaceContainer → WorkspaceContainer
  update_container none c = c
  update_container (some info) c =
      let latest = latest_of info.summary in
      record {
        id = c.id;
        station_device_id = other_id info.device_id c.id;
        severity = normalized_severity (some (status_of info.summary info.status)) c.severity;
        soc = finite_or_fallback latest.soc c.soc;
        temp = finite_or_fallback (or_else latest.temperature latest.temp) c.temp;
        power = finite_or_fallback (or_else latest.power_kw latest.power) c.power;
      }

  -- `mapDeviceTreeToContainers`
  unfoldable pub map_device_tree_to_containers :
      DeviceTreeNodes → List WorkspaceContainer → List WorkspaceContainer
  unfolding flatten_device_tree index_references
  map_device_tree_to_containers nodes fallback =
      let by_reference = index_references (flatten_device_tree nodes) [] in
      map (λ c. update_container (get_key (reference_of c) by_reference) c) fallback

  pub record AlarmItem : Type 0 where
    pub alarm_uuid : Text
    pub device_id : Option Text
    pub severity : Text
    pub message : Text
    pub status : Text
    pub triggered_at : Text

  pub record WorkspaceAlarm : Type 0 where
    pub id : Text
    pub device_id : Option Text
    pub station_device_id : Option Text
    pub severity : Text
    pub title : Text
    pub detail : Text
    pub time : Text

  abbrev node_of : Option Text → List (Text × DeviceInfo) → Option DeviceInfo
  node_of (some (c ∷ t)) by_reference = get_key (c ∷ t) by_reference
  node_of _ by_reference = none

  abbrev code_of : Option DeviceInfo → Option Text
  code_of none = none
  code_of (some info) = info.code

  -- The id of the station where it is not the one that is shown.
  abbrev hidden_id : Option Text → Option Text → Option Text
  hidden_id (some (c ∷ t)) none = some (c ∷ t)
  hidden_id (some (c ∷ t)) (some shown) = other_id (c ∷ t) shown
  hidden_id _ shown = none

  module _ (to_iso : Text → Option Text) where
    abbrev clock : Option Text → Text
    clock none = codes "--:--:--"
    clock (some iso) = take 8 (drop 11 iso)

    pub map_alarm_item : List (Text × DeviceInfo) → AlarmItem → WorkspaceAlarm
    map_alarm_item by_reference item =
        let shown = or_else (code_of (node_of item.device_id by_reference)) item.device_id in
        record {
          id = item.alarm_uuid;
          device_id = shown;
          station_device_id = hidden_id item.device_id shown;
          severity = item.severity;
          title = item.message;
          detail = text_or shown (codes "未关联设备") ++ (codes " · " ++ item.status);
          time = clock (to_iso item.triggered_at);
        }

    -- `mapAlarmItems`
    unfoldable pub map_alarm_items : List AlarmItem → DeviceTreeNodes → List WorkspaceAlarm
    unfolding map_alarm_item
    map_alarm_items items nodes =
        map (map_alarm_item (index_references (flatten_device_tree nodes) [])) items
