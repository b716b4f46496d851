-- ===== src/Twin/Events.antt =====
-- digitalTwinAdapters.js, `createRunEventState` and the loop of `applyRunEventBatch`: what one event
-- of a run does to the state that the frontend keeps of it. The ids of observations are texts.
use text.Mathlib.Text.{◌==◌ as str_eq}
use wind_solar_ess_agent.Base.{
  ℕ, Bool, false, ◌&&◌, Option, none, some, List, [], ◌∷◌, String, drop, if◌then◌else◌,
}
use wind_solar_ess_agent.Js.Text.{Text, codes, text_eq, starts_with}
use wind_solar_ess_agent.Js.Json.{Json, Fields, end, field, get, truthy}
use wind_solar_ess_agent.Twin.Observations.{Observation}

-- What an event says of an observation: `none` stands for a field that is left out.
pub record ObservationPatch : Type 0 where
  pub observation_id : Text
  pub parent_observation_id : Option (Option Text)
  pub depth : Option ℕ
  pub details : Fields

-- `none` stands for a field that is missing or `null`, also for a sequence that is no integer.
pub record RunEvent : Type 0 where
  pub run_id : Option Text
  pub event_sequence : Option ℕ
  pub type : Text
  pub status : Option Text
  pub observation : Option ObservationPatch
  pub payload : Option Json
  pub message : Option Json
  pub action : Option Json
  pub error : Option Json
  pub external_observability : Option Json

pub record RunEventState : Type 0 where
  pub run_id : Text
  pub last_event_id : Text
  pub status : Text
  pub message : Option Json
  pub error : Option Json
  pub external_observability : Option Json
  pub observations : List Observation
  pub scene_actions : List Json
  pub seen_sequences : List ℕ

unfoldable pub create_run_event_state : Text → RunEventState
create_run_event_state run_id = record {
  run_id = run_id;
  last_event_id = codes "0";
  status = codes "queued";
  message = none;
  error = none;
  external_observability = none;
  observations = [];
  scene_actions = [];
  seen_sequences = [];
}

-- `a || fallback` on texts and on JSON values.
abbrev text_or_else : Option Text → Text → Text
text_or_else none fallback = fallback
text_or_else (some []) fallback = fallback
text_or_else (some (c ∷ t)) fallback = c ∷ t

abbrev or_null : Option Json → Option Json
or_null value = if truthy value then value else none

abbrev json_or : Option Json → Json → Json
json_or none fallback = fallback
json_or (some value) fallback = if truthy (some value) then value else fallback

-- `value?.key`
abbrev pub member : String → Option Json → Option Json
member key (some (Json.obj fields)) = get key fields
member key _ = none

-- A text that is there and not empty.
abbrev pub text_of : Option Json → Option Text
text_of (some (Json.str (c ∷ t))) = some (c ∷ t)
text_of _ = none

-- `{ ...old, [key]: value }`, which keeps the place of a key.
abbrev set_field : String → Json → Fields → Fields
set_field key value end = field key value end
set_field key value (field k v rest) =
    let later = set_field key value rest in
    if str_eq k key then field k value rest else field k v later

abbrev spread_fields : Fields → Fields → Fields
spread_fields old end = old
spread_fields old (field k v rest) = spread_fields (set_field k v old) rest

abbrev given_or : {A : Type 0} → Option A → A → A
given_or none old = old
given_or (some new) old = new

abbrev option_or : {A : Type 0} → Option A → Option A → Option A
option_or none old = old
option_or (some new) old = some new

-- `{ ...observations.get(id), ...event.observation }`
unfoldable pub merge_observation : Option Observation → ObservationPatch → Observation
merge_observation none patch = record {
  observation_id = patch.observation_id;
  parent_observation_id = given_or patch.parent_observation_id none;
  depth = patch.depth;
  details = patch.details;
}
merge_observation (some old) patch = record {
  observation_id = patch.observation_id;
  parent_observation_id = given_or patch.parent_observation_id old.parent_observation_id;
  depth = option_or patch.depth old.depth;
  details = spread_fields old.details patch.details;
}

-- The map of observations by their ids, in the order of insertion.
abbrev pub find_observation : Text → List Observation → Option Observation
find_observation id [] = none
find_observation id (o ∷ os) =
    let rest = find_observation id os in if text_eq o.observation_id id then some o else rest

abbrev pub set_observation : Observation → List Observation → List Observation
set_observation new [] = new ∷ []
set_observation new (o ∷ os) =
    let rest = set_observation new os in
    if text_eq o.observation_id new.observation_id then new ∷ os else o ∷ rest

abbrev pub upsert : Option ObservationPatch → List Observation → List Observation
upsert none os = os
upsert (some patch) os =
    set_observation (merge_observation (find_observation patch.observation_id os) patch) os

abbrev is_completed : Option Json → Bool
is_completed (some (Json.str t)) = text_eq t (codes "completed")
is_completed _ = false

-- The observation of a tool that ended.
unfoldable pub tool_observation : Text → RunEvent → Observation
tool_observation id event = record {
  observation_id = id;
  parent_observation_id = none;
  depth = some 0;
  details = field "kind" (Json.str (codes "tool")) (
      field "name"
        (json_or (member "toolId" event.payload)
          (json_or (member "toolLabel" event.payload) (Json.str (codes "Agent 工具"))))
        (field "status"
          (Json.str (
            if is_completed (member "status" event.payload)
            then codes "success"
            else text_or_else event.status (codes "success")))
          (field "summary" (json_or (member "summary" event.payload) (Json.str []))
            (field "evidenceId" (json_or (member "evidenceId" event.payload) Json.null) end))));
}

abbrev pub tool_completed : Option Text → RunEvent → List Observation → List Observation
tool_completed none event os = os
tool_completed (some id) event os = set_observation (tool_observation id event) os

abbrev pub is_type : String → RunEvent → Bool
is_type name event = text_eq event.type (codes name)

abbrev pub has_id : Option ObservationPatch → Option ObservationPatch
has_id none = none
has_id (some patch) = elim patch.observation_id [ [] ↦ none | _ ∷ _ ↦ some patch ]

-- What an event does to the map of observations.
unfoldable pub observe : RunEvent → List Observation → List Observation
unfolding merge_observation tool_observation
observe event os =
    let upserted = upsert (has_id event.observation) os in
    let with_tool = tool_completed (text_of (member "observationId" event.payload)) event os in
    if is_type "observation.upsert" event
    then upserted
    else if is_type "tool.completed" event
    then with_tool
    else os

abbrev failed_error : Json
failed_error = Json.obj (field "message" (Json.str (codes "Agent 运行失败")) end)

abbrev pub new_status : RunEvent → Text → Text
new_status event status =
    if starts_with (codes "run.") event.type
    then text_or_else event.status (drop 4 event.type)
    else if is_type "phase.changed" event
    then text_or_else event.status (codes "running")
    else status

abbrev pub new_message : RunEvent → Option Json → Option Json
new_message event message =
    if is_type "message.completed" event
    then or_null event.message
    else if is_type "response.completed" event
    then or_null event.payload
    else message

abbrev pub new_error : RunEvent → Option Json → Option Json
new_error event error =
    if is_type "run.failed" event
    then some (json_or event.error failed_error)
    else if is_type "error" event
    then some (json_or event.payload (json_or event.error failed_error))
    else error

abbrev pub new_actions : RunEvent → List Json → List Json
new_actions event actions = elim event.action [
  | none ↦ actions
  | some action ↦
      if is_type "scene.action" event
        && truthy (member "command" (some action))
        && truthy (member "assetId" (some action))
      then action ∷ []
      else actions
]

-- What an event does to the other fields of the state.
unfoldable pub update_state : RunEvent → RunEventState → RunEventState
update_state event s = record s {
  status = new_status event s.status;
  message = new_message event s.message;
  scene_actions = new_actions event s.scene_actions;
  error = new_error event s.error;
  external_observability =
      if is_type "run.completed" event
      then or_null event.external_observability
      else s.external_observability;
}
