-- ===== src/Workspace/Views/Tests.antt =====
-- The views found by their indices and by their segments of the address.
use wind_solar_ess_agent.Base.{ℕ, ◌≡◌, refl, some}
use wind_solar_ess_agent.Js.Text.{codes, text_eq}
use wind_solar_ess_agent.Workspace.Views.{
  TwinViewId, data_view, thermal, power_flow, alarms, video, route_segment, default_twin_view,
  resolve_twin_view, view_index_for, view_definition_for_index,
}

-- The old index of a view, and its segment of the address, lead back to it.
view_definition-view_index :
    (view : TwinViewId)
    → (index : ℕ) × (view_index_for view ≡ some index)
      × ((view_definition_for_index index).id ≡ view)
      × ((resolve_twin_view (some (route_segment view))).id ≡ view)
unfolding view_index_for view_definition_for_index resolve_twin_view text_eq
view_definition-view_index data_view = (0, refl, refl, refl)
view_definition-view_index thermal = (1, refl, refl, refl)
view_definition-view_index power_flow = (2, refl, refl, refl)
view_definition-view_index alarms = (3, refl, refl, refl)
view_definition-view_index video = (4, refl, refl, refl)

unknown_view : resolve_twin_view (some (codes "map")) ≡ default_twin_view
unfolding resolve_twin_view text_eq
unknown_view = refl
