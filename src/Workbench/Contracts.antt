-- ===== src/Workbench/Contracts.antt =====
-- contracts.ts: the events of an agent run and the state that the workbench keeps of it.
use wind_solar_ess_agent.Base.{ℕ, Bool, Option, List}
use wind_solar_ess_agent.Js.Text.{Text}
use wind_solar_ess_agent.Js.Json.{Fields}

pub data AgentRunStatus : Type 0 where
  queued connecting planning executing streaming waiting_approval reconnecting : AgentRunStatus
  completed cancelled error failed : AgentRunStatus

pub data AgentStreamEventType : Type 0 where
  run_started phase_changed reasoning_summary : AgentStreamEventType
  workflow_started workflow_step_started workflow_step_completed : AgentStreamEventType
  workflow_completed tool_started tool_progress tool_completed : AgentStreamEventType
  response_started response_delta response_completed : AgentStreamEventType
  run_completed run_cancelled error heartbeat scene_action : AgentStreamEventType

pub record SceneAction : Type 0 where
  pub command : Option Text
  pub asset_id : Option Text
  pub scene_node_id : Option Text

-- `none` stands for a field that is left out.
pub record AgentStreamEvent : Type 0 where
  pub event_id : Option Text
  pub sequence : ℕ
  pub event_sequence : Option ℕ
  pub run_id : Option Text
  pub conversation_id : Option Text
  pub message_id : Option Text
  pub trace_id : Option Text
  pub observation_id : Option Text
  pub type : AgentStreamEventType
  pub timestamp : Option Text
  pub payload : Fields
  pub status : Option Text
  pub action : Option SceneAction

pub record AgentExecutionEvent : Type 0 where
  pub id : Text
  pub sequence : ℕ
  pub step_id : Text
  pub type : AgentStreamEventType
  pub label : Text
  pub summary : Text
  pub status : Text
  pub timestamp : Option Text
  pub completed_at : Option Text
  pub duration_ms : Option ℕ
  pub tool_label : Option Text

pub record AgentExecutionState : Type 0 where
  pub current_label : Text
  pub events : List AgentExecutionEvent

-- `pending_events` maps a sequence number to its event; the newest entry stands first.
pub record AgentRunState : Type 0 where
  pub run_id : Text
  pub conversation_id : Text
  pub message_id : Text
  pub status : AgentRunStatus
  pub last_sequence : ℕ
  pub received_text : Text
  pub response_completed : Bool
  pub reasoning_summary : Text
  pub execution : AgentExecutionState
  pub pending_events : List (ℕ × AgentStreamEvent)
  pub error_message : Text
  pub completed_at : Option Text
