-- ===== src/Control/Contracts.antt =====
-- contracts/control.ts: what the browser, the control server and the runtime exchange. A value of
-- these types has passed the structural part of its zod schema (types, strict keys); the tests of
-- lengths, patterns and relations between fields are the functions below.
pub mod Parsed
use wind_solar_ess_agent.Base.{
  ℕ, Bool, true, false, ◌&&◌, ◌||◌, not, Option, none, some, List, [], ◌∷◌, leb, length, any,
  if◌then◌else◌,
}
use wind_solar_ess_agent.Js.Text.{Text, trim, split_on}
use wind_solar_ess_agent.Js.Json.{Fields}

pub data Environment : Type 0 where
  dev sandbox prod : Environment

pub record ContextSnapshot : Type 0 where
  pub selected_asset_id : Option Text
  pub environment : Option Environment
  pub attributes : Option (List (Text × Text))

pub record ToolReference : Type 0 where
  pub tool_id : Text
  pub version : Text

pub record SkillReference : Type 0 where
  pub skill_id : Text
  pub version : Text

pub record PolicySnapshot : Type 0 where
  pub visible_tool_ids : List Text
  pub workflow_stage : Option Text

pub data ApprovalStatus : Type 0 where
  not_required required approved rejected : ApprovalStatus

pub record ApprovalSnapshot : Type 0 where
  pub status : ApprovalStatus
  pub approval_id : Option Text
  pub comment : Option Text

pub record SessionUser : Type 0 where
  pub user_id : Text
  pub role : Text
  pub site_id : Option Text

pub record CreateSessionInput : Type 0 where
  pub user : SessionUser
  pub context : ContextSnapshot

pub record TurnInput : Type 0 where
  pub text : Text
  pub context : ContextSnapshot
  pub tool_refs : List ToolReference
  pub skill_refs : List SkillReference
  pub policy : PolicySnapshot
  pub approval : ApprovalSnapshot

pub data RuntimeEventType : Type 0 where
  run_accepted intent_resolved plan_updated tool_selected tool_completed : RuntimeEventType
  evidence_updated approval_required run_completed run_failed : RuntimeEventType

pub record RuntimeEvent : Type 0 where
  pub event_id : Text
  pub event_type : RuntimeEventType
  pub session_id : Text
  pub run_id : Text
  pub sequence : ℕ
  pub occurred_at : Text
  pub payload : Fields

pub record RuntimeTurnRequest : Type 0 where
  pub session_id : Text
  pub text : Text
  pub context : ContextSnapshot
  pub tool_refs : List ToolReference
  pub skill_refs : List SkillReference
  pub policy : PolicySnapshot
  pub approval : ApprovalSnapshot

-- `identifierSchema`
abbrev pub is_identifier : Text → Bool
is_identifier t = leb 1 (length t) && leb (length t) 128

abbrev pub all {ℓ} : {A : Type ℓ} → (A → Bool) → List A → Bool
all p [] = true
all p (x ∷ xs) = p x && all p xs

-- A field that may be missing.
abbrev pub optional : (Text → Bool) → Option Text → Bool
optional p none = true
optional p (some t) = p t

abbrev is_number : Text → Bool
is_number [] = false
is_number (c ∷ t) = all (λ d. leb b'0' d && leb d b'9') (c ∷ t)

abbrev three_numbers : List Text → Bool
three_numbers (a ∷ b ∷ c ∷ []) = is_number a && is_number b && is_number c
three_numbers _ = false

-- `versionSchema`, `/^\d+\.\d+\.\d+$/`
unfoldable pub is_version : Text → Bool
is_version t = three_numbers (split_on b'.' t)

unfoldable pub is_context : ContextSnapshot → Bool
is_context c = optional is_identifier c.selected_asset_id

unfoldable pub is_tool_reference : ToolReference → Bool
unfolding is_version
is_tool_reference r = is_identifier r.tool_id && is_version r.version

pub is_skill_reference : SkillReference → Bool
unfolding is_version
is_skill_reference r = is_identifier r.skill_id && is_version r.version

unfoldable pub is_policy : PolicySnapshot → Bool
is_policy p = all is_identifier p.visible_tool_ids && optional is_identifier p.workflow_stage

-- `["approved", "rejected"].includes(value.status)`
abbrev is_decided : ApprovalStatus → Bool
is_decided approved = true
is_decided rejected = true
is_decided _ = false

-- `!value.approval_id`
abbrev is_missing : Option Text → Bool
is_missing none = true
is_missing (some []) = true
is_missing (some (c ∷ t)) = false

unfoldable pub is_approval : ApprovalSnapshot → Bool
is_approval a =
    optional is_identifier a.approval_id
    && optional (λ t. leb (length t) 1000) a.comment
    && not (is_decided a.status && is_missing a.approval_id)

-- `createSessionInputSchema`
pub is_session_input : CreateSessionInput → Bool
unfolding is_context
is_session_input i =
    is_identifier i.user.user_id
    && is_identifier i.user.role
    && optional is_identifier i.user.site_id
    && is_context i.context

-- `turnInputSchema` on an input whose text is trimmed already.
unfoldable pub is_turn_input : TurnInput → Bool
unfolding is_context is_tool_reference is_skill_reference is_policy is_approval
is_turn_input i =
    (leb 1 (length i.text) && leb (length i.text) 8000)
    && is_context i.context
    && all is_tool_reference i.tool_refs
    && all is_skill_reference i.skill_refs
    && is_policy i.policy
    && is_approval i.approval

-- `turnInputSchema.safeParse`, which trims the text.
unfoldable pub parse_turn_input : TurnInput → Option TurnInput
unfolding is_turn_input
parse_turn_input i =
    let trimmed = record i { text = trim i.text } in
    if is_turn_input trimmed then some trimmed else none

-- `createSessionInputSchema.safeParse`
pub parse_session_input : CreateSessionInput → Option CreateSessionInput
unfolding is_session_input
parse_session_input i = if is_session_input i then some i else none

-- `none` where `identifierSchema.parse` throws.
unfoldable pub to_runtime_turn_request : Text → TurnInput → Option RuntimeTurnRequest
to_runtime_turn_request session_id input =
    if is_identifier session_id
    then some (record {
      session_id = session_id;
      text = input.text;
      context = input.context;
      tool_refs = input.tool_refs;
      skill_refs = input.skill_refs;
      policy = input.policy;
      approval = input.approval;
    })
    else none
