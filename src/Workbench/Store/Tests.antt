-- ===== src/Workbench/Store/Tests.antt =====
-- A store with a message of the user and one of the assistant, set to the station that it has.
use wind_solar_ess_agent.Base.{◌≡◌, refl, none, [], ◌∷◌}
use wind_solar_ess_agent.Js.Text.{Text, codes, text_eq}
use wind_solar_ess_agent.Workbench.Store.{
  Role, AgentWorkbenchMessage, AgentWorkbenchStore, set_station,
}

abbrev message : Text → Role → AgentWorkbenchMessage
message id role = record {
  id = id;
  role = role;
  content = [];
  displayed_text = [];
  created_at = codes "now";
  run = none;
  elapsed_ms = none;
}

abbrev two_messages : AgentWorkbenchStore
two_messages = record {
  station_id = codes "st";
  draft = [];
  messages = message (codes "q") Role.user ∷ message (codes "a") Role.assistant ∷ [];
  active_message_id = codes "a";
}

same_station : set_station (codes "later") (codes "st") two_messages ≡ two_messages
unfolding set_station text_eq
same_station = refl
