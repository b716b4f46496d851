-- ===== src/Workbench/Store.antt =====
-- agent-workbench-store.ts: the state of the workbench, and its actions as functions of the state.
-- The time of the welcome message is an argument.
pub mod Updates
mod Tests
use wind_solar_ess_agent.Base.{ℕ, Option, none, List, [], ◌∷◌, ◌++◌, map, if◌then◌else◌}
use wind_solar_ess_agent.Js.Text.{Text, codes, text_eq}
use wind_solar_ess_agent.Workbench.Contracts.{AgentRunState}

pub data Role : Type 0 where
  assistant user : Role

pub record AgentWorkbenchMessage : Type 0 where
  pub id : Text
  pub role : Role
  pub content : Text
  pub displayed_text : Text
  pub created_at : Text
  pub run : Option AgentRunState
  pub elapsed_ms : Option ℕ

pub record AgentWorkbenchStore : Type 0 where
  pub station_id : Text
  pub draft : Text
  pub messages : List AgentWorkbenchMessage
  pub active_message_id : Text

abbrev welcome_text : Text
welcome_text = codes "您好，我已载入当前场站上下文。请选择设备或直接发起运行分析。"

pub welcome_message : Text → AgentWorkbenchMessage
welcome_message now = record {
  id = codes "welcome";
  role = assistant;
  content = welcome_text;
  displayed_text = welcome_text;
  created_at = now;
  run = none;
  elapsed_ms = none;
}

unfoldable pub new_store : Text → AgentWorkbenchStore
unfolding welcome_message
new_store now = record {
  station_id = [];
  draft = [];
  messages = welcome_message now ∷ [];
  active_message_id = [];
}

unfoldable pub set_station : Text → Text → AgentWorkbenchStore → AgentWorkbenchStore
unfolding welcome_message
set_station now station_id state = if text_eq state.station_id station_id then state else record {
  station_id = station_id;
  draft = [];
  messages = welcome_message now ∷ [];
  active_message_id = [];
}

unfoldable pub set_draft : Text → AgentWorkbenchStore → AgentWorkbenchStore
set_draft draft state = record state { draft = draft }

unfoldable pub append_messages :
    List AgentWorkbenchMessage → AgentWorkbenchStore → AgentWorkbenchStore
append_messages messages state = record state { messages = state.messages ++ messages }

-- The function inside of `updateMessage`. An update that is an object is the function that sets
-- its fields.
unfoldable pub update_one :
    Text
    → (AgentWorkbenchMessage → AgentWorkbenchMessage)
    → AgentWorkbenchMessage
    → AgentWorkbenchMessage
update_one message_id update message =
    if text_eq message.id message_id then update message else message

unfoldable pub update_message :
    Text
    → (AgentWorkbenchMessage → AgentWorkbenchMessage)
    → AgentWorkbenchStore
    → AgentWorkbenchStore
unfolding update_one
update_message message_id update state = record state {
  messages = map (update_one message_id update) state.messages;
}

unfoldable pub set_active_message_id : Text → AgentWorkbenchStore → AgentWorkbenchStore
set_active_message_id active_message_id state = record state {
  active_message_id = active_message_id;
}
