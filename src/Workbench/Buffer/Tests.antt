-- ===== src/Workbench/Buffer/Tests.antt =====
-- The text buffer on the inputs of agent-stream-buffer.test.ts, and its theorems at such inputs.
use wind_solar_ess_agent.Base.{◌≡◌, refl, true, none, [], arith}
use wind_solar_ess_agent.Js.Text.{Text, codes}
use wind_solar_ess_agent.Workbench.Contracts.{AgentRunStatus, AgentRunState}
use wind_solar_ess_agent.Workbench.Buffer.{
  calculate_drain_size, should_release_active_message, drain_streaming_text,
}
use wind_solar_ess_agent.Workbench.Buffer.Drain.{ticks, release_of_ended}

abbrev received : Text
received = codes "current power is normal"

abbrev done : AgentRunState
done = record {
  run_id = [];
  conversation_id = [];
  message_id = [];
  status = AgentRunStatus.completed;
  last_sequence = 4;
  received_text = received;
  response_completed = true;
  reasoning_summary = [];
  execution = record { current_label = []; events = [] };
  pending_events = [];
  error_message = [];
  completed_at = none;
}

drain_sizes :
    (calculate_drain_size 199 ≡ 8)
    × (calculate_drain_size 200 ≡ 24)
    × (calculate_drain_size 600 ≡ 64)
unfolding calculate_drain_size
drain_sizes = (refl, refl, refl)

first_piece :
    drain_streaming_text received []
    ≡ record { displayed_text = codes "current "; pending_length = 15 }
unfolding drain_streaming_text
first_piece = refl

release_of_ended_example :
    should_release_active_message AgentRunStatus.completed true
      (drain_streaming_text received (ticks 2 received [])).pending_length
    ≡ true
release_of_ended_example = release_of_ended done [] 2 refl (λ _. refl) (omega arith)
