-- ===== src/Workspace/Mappers/Tests.antt =====
-- A tree of one node with a child, and two batteries, of which the child is one by its code.
use wind_solar_ess_agent.Base.{◌≡◌, refl, none, some, Option, List, [], ◌∷◌, map}
use wind_solar_ess_agent.Js.Text.{Text, codes, text_eq}
use wind_solar_ess_agent.Js.Map.{get_key, set_key}
use wind_solar_ess_agent.Js.Number.{integers}
use wind_solar_ess_agent.Workspace.Mappers.{
  Summary, DeviceInfo, DeviceTreeNodes, WorkspaceContainer, node, no_nodes, more_nodes,
  flatten_device_tree, map_device_tree_to_containers, index_references, normal, critical,
}
use wind_solar_ess_agent.Workspace.Mappers.Containers.{
  AreMapped, map_device_tree_to_containers-AreMapped,
}

abbrev info : Text → Text → Option (Summary integers) → DeviceInfo integers
info id code summary = record {
  device_id = id;
  code = some code;
  status = codes "normal";
  summary = summary;
}

abbrev measured : Summary integers
measured = record {
  status = codes "critical";
  latest = some (record {
    soc = some (30, 0);
    temperature = none;
    temp = some (41, 0);
    power_kw = none;
    power = none;
  });
}

abbrev tree : DeviceTreeNodes integers
tree =
    more_nodes
      (node (info (codes "s") (codes "S") none)
        (more_nodes (node (info (codes "d3") (codes "A-03") (some measured)) no_nodes) no_nodes))
      no_nodes

abbrev battery : Text → WorkspaceContainer integers
battery id = record {
  id = id;
  station_device_id = none;
  severity = normal;
  soc = (50, 0);
  temp = (20, 0);
  power = (0, 0);
}

abbrev batteries : List (WorkspaceContainer integers)
batteries = battery (codes "A-03") ∷ battery (codes "A-04") ∷ []

mapped_batteries :
    let after = map_device_tree_to_containers integers tree batteries in
    (map (λ c. c.severity) after ≡ critical ∷ normal ∷ [])
    × (map (λ c. c.soc) after ≡ (30, 0) ∷ (50, 0) ∷ [])
    × (map (λ c. c.temp) after ≡ (41, 0) ∷ (20, 0) ∷ [])
    × (map (λ c. c.station_device_id) after ≡ some (codes "d3") ∷ none ∷ [])
unfolding map_device_tree_to_containers flatten_device_tree index_references get_key set_key text_eq
mapped_batteries = (refl, refl, refl, refl)

map_device_tree_to_containers-AreMapped_example :
    AreMapped integers
      (flatten_device_tree integers tree)
      batteries
      (map_device_tree_to_containers integers tree batteries)
map_device_tree_to_containers-AreMapped_example =
    map_device_tree_to_containers-AreMapped integers tree batteries
