-- ===== src/Workspace/Mappers/Containers.antt =====
-- The batteries of the scene under a device tree (workspace/station-data-mappers.ts,
-- `mapDeviceTreeToContainers`).
use wind_solar_ess_agent.Base.{◌≡◌, ◌⊎◌, refl, List, [], ◌∷◌, map, inl, inr, Option-cases}
use wind_solar_ess_agent.Js.Map.{get_key}
use wind_solar_ess_agent.Js.Number.{Numbers}
use wind_solar_ess_agent.Workspace.Mappers.{
  DeviceInfo, DeviceTreeNodes, WorkspaceContainer, flatten_device_tree, index_references,
  reference_of, update_container, map_device_tree_to_containers,
}
use wind_solar_ess_agent.Workspace.Mappers.References.{
  Refers, Occurs, get_key-index_references, index_references-HasKey,
}
use wind_solar_ess_agent.Workspace.Mappers.Updated.{IsUpdated, update_container-IsUpdated}

module _ (numbers : Numbers) where
  -- A battery after the mapping: it is as it was, and no node of the tree has its reference; or a
  -- node of the tree that has its reference updates it.
  abbrev IsMapped :
      List (DeviceInfo numbers) → WorkspaceContainer numbers → WorkspaceContainer numbers → Type 0
  IsMapped infos before after =
      ((after ≡ before)
        × ((info : DeviceInfo numbers)
            → Occurs numbers info infos
            → ¬ Refers numbers (reference_of numbers before) info))
      ⊎ ((info : DeviceInfo numbers) × Occurs numbers info infos
          × Refers numbers (reference_of numbers before) info
          × IsUpdated numbers info before after)

  update_container-IsMapped :
      (infos : List (DeviceInfo numbers)) (c : WorkspaceContainer numbers)
      → IsMapped infos c (
          update_container numbers
            (get_key (reference_of numbers c) (index_references numbers infos []))
            c)
  update_container-IsMapped infos c =
      let reference = reference_of numbers c in
      let by_reference = index_references numbers infos [] in
      elim (Option-cases (get_key reference by_reference)) [
        | inl missing ↦ rw missing (
            inl (
              refl,
              λ info there refers.
                  let (i, found) =
                    index_references-HasKey numbers infos reference info [] there refers in
                  cc (missing, found),
            ))
        | inr (info, found) ↦
            let (there, refers) = get_key-index_references numbers infos reference info found in
            rw found (inr (info, there, refers, update_container-IsUpdated numbers info c))
      ]

  abbrev pub AreMapped :
      List (DeviceInfo numbers)
      → List (WorkspaceContainer numbers)
      → List (WorkspaceContainer numbers)
      → Type 0
  AreMapped infos [] [] = Unit
  AreMapped infos (c ∷ before) (d ∷ after) = IsMapped infos c d × AreMapped infos before after
  AreMapped infos _ _ = ⊥

  map-AreMapped :
      (infos : List (DeviceInfo numbers)) (fallback : List (WorkspaceContainer numbers))
      → let by_reference = index_references numbers infos [] in
        AreMapped infos fallback (
          map
            (λ c. update_container numbers (get_key (reference_of numbers c) by_reference) c)
            fallback)
  map-AreMapped infos [] = tt
  map-AreMapped infos (c ∷ fallback) =
      (update_container-IsMapped infos c, map-AreMapped infos fallback)

  -- The mapping gives the same batteries in the same order, none added and none left out. Each is
  -- as it was if no node of the tree has its reference as its id or code. Otherwise such a node
  -- updates it: it keeps its id, refers to the node by the node's id, has the severity that the
  -- status of the node's summary (without one, the node's own status) names, and the state of
  -- charge, temperature and power that the summary gives; where no severity is named, or no finite
  -- number is given, it keeps its own.
  pub map_device_tree_to_containers-AreMapped :
      (nodes : DeviceTreeNodes numbers) (fallback : List (WorkspaceContainer numbers))
      → AreMapped
          (flatten_device_tree numbers nodes)
          fallback
          (map_device_tree_to_containers numbers nodes fallback)
  unfolding map_device_tree_to_containers
  map_device_tree_to_containers-AreMapped nodes fallback =
      map-AreMapped (flatten_device_tree numbers nodes) fallback
