-- ===== src/Workbench/Request/Accepted.antt =====
-- The requests of the workbench (`buildAgentRequest`) at the schema of the control panel
-- (`turnInputSchema`).
use wind_solar_ess_agent.Base.{
  ℕ, ◌≤◌, ◌≡◌, refl, Bool, true, false, Option, none, some, List, length, map, if◌then◌else◌,
  le→leb,
}
use wind_solar_ess_agent.Js.Text.{Text, trim, split_on}
use wind_solar_ess_agent.Control.Contracts.{
  all, optional, is_identifier, is_tool_reference, is_turn_input, is_policy, is_context,
  is_approval, is_version, parse_turn_input,
}
use wind_solar_ess_agent.Workbench.Request.{
  DeviceContext, control_agent_tool_ids, control_broad_query_tool_ids, device_id, tool_ref,
  resolve_asset_query_scope, build_agent_request,
}

-- The tools of a request, by whether it names an asset.
abbrev tool_ids : Bool → List Text
tool_ids explicit = if explicit then control_agent_tool_ids else control_broad_query_tool_ids

tool_refs_accepted :
    (explicit : Bool) → all is_tool_reference (map tool_ref (tool_ids explicit)) ≡ true
unfolding is_tool_reference is_version split_on
tool_refs_accepted true = refl
tool_refs_accepted false = refl

tool_ids_accepted : (explicit : Bool) → all is_identifier (tool_ids explicit) ≡ true
tool_ids_accepted true = refl
tool_ids_accepted false = refl

asset_accepted :
    (selected : Bool) (device : Option Text)
    → optional is_identifier device ≡ true
    → optional is_identifier (if selected then device else none) ≡ true
asset_accepted true device h = h
asset_accepted false device h = refl

module _ (to_lower : Text → Text) (extract_asset_references : Text → List Text) where
  -- A message that is neither blank nor, once it is trimmed, longer than 8000 is accepted by the
  -- control panel whichever device is selected, unless the device's id is longer than 128; what
  -- the panel reads is the request with the trimmed text.
  pub build_agent_request-parsed :
      (input station_id : Text) (container : Option DeviceContext) (alerts : ℕ) (range : Text)
      → 1 ≤ length (trim input)
      → length (trim input) ≤ 8000
      → optional is_identifier (device_id container) ≡ true
      → let request =
          build_agent_request to_lower extract_asset_references input station_id container alerts
            range in
        parse_turn_input request ≡ some (record request { text = trim input })
  unfolding parse_turn_input is_turn_input is_context is_policy is_approval build_agent_request
  build_agent_request-parsed input station_id container alerts range low high device =
      let scope = resolve_asset_query_scope to_lower extract_asset_references input container in
      rw (le→leb 1 (length (trim input)) low) (
        rw (le→leb (length (trim input)) 8000 high) (
          rw (asset_accepted scope.selected (device_id container) device)
            (rw (tool_refs_accepted scope.explicit) (rw (tool_ids_accepted scope.explicit) refl))))
