-- ===== src/Twin/Labels/Tests.antt =====
-- The labels of two batteries in the same place, and of one aside.
use wind_solar_ess_agent.Base.{ℕ, ◌≤◌, ◌≡◌, refl, true, false, List, [], ◌∷◌, some, length, All}
use wind_solar_ess_agent.Js.Text.{Text, codes, text_eq}
use wind_solar_ess_agent.Js.Map.{get_key, set_key}
use wind_solar_ess_agent.Js.Number.{integers}
use wind_solar_ess_agent.Twin.Labels.{
  Candidate, SocLevel, Placement, resolve_soc_label_layout, place_all, place, label_priority,
  rectangles_overlap, offsets_for, find_placement, hide_rest,
}
use wind_solar_ess_agent.Twin.Labels.Accepted.{Disjoint, IsMoved}
use wind_solar_ess_agent.Twin.Labels.Shown.{
  HasLabel, EntryIsPlaced, resolve_soc_label_layout-Disjoint,
}

abbrev candidate : Text → SocLevel → ℕ → Candidate integers
candidate id level x = record {
  id = id;
  occluded = false;
  selected = false;
  hovered = false;
  level = level;
  soc = (55, 0);
  distance = (40, 0);
  x = (x, 0);
  y = (0, 0);
  width = (60, 0);
  height = (20, 0);
}

abbrev three : List (Candidate integers)
three =
    candidate (codes "a") SocLevel.normal 0
    ∷ candidate (codes "b") SocLevel.critical 0
    ∷ candidate (codes "c") SocLevel.warning 10
    ∷ []

-- The critical label keeps its place, the warning moves aside, and the other one is hidden.
layout_of_three :
    let items = (resolve_soc_label_layout integers three 40 (95, 0)).items in
    (get_key (codes "a") items ≡ some (record { visible = false; offset_x = (0, 0) }))
    × (get_key (codes "b") items ≡ some (record { visible = true; offset_x = (0, 0) }))
    × (get_key (codes "c") items ≡ some (record { visible = true; offset_x = (64, 0) }))
unfolding resolve_soc_label_layout place_all place label_priority rectangles_overlap get_key set_key
    offsets_for find_placement hide_rest text_eq
layout_of_three = (refl, refl, refl)

resolve_soc_label_layout-Disjoint_example :
    let r = resolve_soc_label_layout integers three 40 (95, 0) in
    All (λ (c : Candidate integers). HasLabel integers r.items c.id) three
    × (shown : List (Placement integers)) × (length shown ≤ 40)
    × Disjoint integers shown
    × All (IsMoved integers three) shown
    × ((id : Text) → EntryIsPlaced integers id (get_key id r.items) shown)
resolve_soc_label_layout-Disjoint_example =
    resolve_soc_label_layout-Disjoint integers three 40 (95, 0)
