-- ===== src/Workbench/Buffer.antt =====
-- stream-buffer.ts: how the received text is revealed, tick by tick, and when the workbench lets go
-- of the active message. The timer that calls it every 40 ms is in AgentStreamingWorkbench.tsx.
pub mod Drain
mod Tests
use wind_solar_ess_agent.Base.{
  ℕ, zero, suc, ◌+◌, ◌-◌, Bool, ◌&&◌, leb, ◌==◌, if◌then◌else◌, length, take, min,
}
use wind_solar_ess_agent.Js.Text.{Text, starts_with}
use wind_solar_ess_agent.Workbench.Contracts.{AgentRunStatus}
use wind_solar_ess_agent.Workbench.Reducer.{is_terminal_status}

pub calculate_drain_size : ℕ → ℕ
calculate_drain_size backlog_length =
    if leb 600 backlog_length then 64 else if leb 200 backlog_length then 24 else 8

unfoldable pub should_release_active_message : AgentRunStatus → Bool → ℕ → Bool
should_release_active_message status response_completed pending_length =
    response_completed && pending_length == 0 && is_terminal_status status

pub record Drained : Type 0 where
  pub displayed_text : Text
  pub pending_length : ℕ

-- The third argument of the source is not used there.
unfoldable pub drain_streaming_text : Text → Text → Drained
unfolding calculate_drain_size starts_with
drain_streaming_text received_text displayed_text =
    let pending_length = length received_text - length displayed_text in
    let drain_size = calculate_drain_size pending_length in
    let next_length = min (length received_text) (length displayed_text + drain_size) in
    if starts_with displayed_text received_text
    then record {
      displayed_text = take next_length received_text;
      pending_length = length received_text - next_length;
    }
    else record { displayed_text = received_text; pending_length = 0 }
