-- ===== src/Twin/Labels/Shown.antt =====
-- Which labels are shown together (digitalTwinAdapters.js, `resolveSocLabelLayout`).
use wind_solar_ess_agent.Base.{
  ℕ, ◌≤◌, ◌≡◌, ◌∙◌, ◌&&◌, ◌⊎◌, false, Option, none, some, List, [], ◌∷◌, arith, leb, inl, inr,
  Bool-cases, Option-cases, length, All,
}
use wind_solar_ess_agent.Js.Text.{Text, text_eq, text_eq_refl}
use wind_solar_ess_agent.Js.Map.{get_key, set_key, get_key-set_key}
use wind_solar_ess_agent.Js.Number.{Numbers}
use wind_solar_ess_agent.Twin.Labels.{
  Candidate, Placement, Label, hidden, usable_of, all_far, hide_all, hide_unset, hide_rest, placed,
  resolve_soc_label_layout,
}
use wind_solar_ess_agent.Twin.Labels.Accepted.{
  IsMoved, Disjoint, IsPlaced, ShowsPlaced, ShowsPlaced-nil, ShowsPlaced-hide, placed-IsLaid,
}

module _ (numbers : Numbers) where
  open numbers use {Number}

  ShowsPlaced-hide_all :
      (cs : List (Candidate numbers)) (items : List (Text × Label numbers))
      (accepted : List (Placement numbers))
      → ShowsPlaced numbers items accepted
      → ShowsPlaced numbers (hide_all numbers cs items) accepted
  ShowsPlaced-hide_all [] items accepted h = h
  ShowsPlaced-hide_all (c ∷ cs) items accepted h =
      ShowsPlaced-hide_all cs _ accepted (ShowsPlaced-hide numbers c.id items accepted h)

  ShowsPlaced-hide_rest :
      (cs : List (Candidate numbers)) (items : List (Text × Label numbers))
      (accepted : List (Placement numbers))
      → ShowsPlaced numbers items accepted
      → ShowsPlaced numbers (hide_rest numbers cs items) accepted
  unfolding hide_rest
  ShowsPlaced-hide_rest [] items accepted h = h
  ShowsPlaced-hide_rest (c ∷ cs) items accepted h = elim (Option-cases (get_key c.id items)) [
    | inl missing ↦
        rw missing
          (ShowsPlaced-hide_rest cs _ accepted (ShowsPlaced-hide numbers c.id items accepted h))
    | inr (label, there) ↦ rw there (ShowsPlaced-hide_rest cs items accepted h)
  ]

  -- There is a label for this id.
  abbrev pub HasLabel : List (Text × Label numbers) → Text → Type 0
  HasLabel items id = (label : Label numbers) × (get_key id items ≡ some label)

  HasLabel-hide :
      (i j : Text) (items : List (Text × Label numbers))
      → HasLabel items j
      → HasLabel (set_key i (hidden numbers) items) j
  HasLabel-hide i j items (label, h) = elim (Bool-cases (text_eq i j)) [
    | inl same ↦ (hidden numbers, get_key-set_key i j (hidden numbers) items ∙ rw same)
    | inr other ↦ (label, get_key-set_key i j (hidden numbers) items ∙ rw other h)
  ]

  HasLabel-hide_self :
      (id : Text) (items : List (Text × Label numbers))
      → HasLabel (set_key id (hidden numbers) items) id
  HasLabel-hide_self id items =
      (hidden numbers, get_key-set_key id id (hidden numbers) items ∙ rw (text_eq_refl id))

  HasLabel-hide_all :
      (id : Text) (cs : List (Candidate numbers)) (items : List (Text × Label numbers))
      → HasLabel items id
      → HasLabel (hide_all numbers cs items) id
  HasLabel-hide_all id [] items h = h
  HasLabel-hide_all id (c ∷ cs) items h = HasLabel-hide_all id cs _ (HasLabel-hide c.id id items h)

  All-hide_all :
      (cs : List (Candidate numbers)) (items : List (Text × Label numbers))
      → All (λ (c : Candidate numbers). HasLabel (hide_all numbers cs items) c.id) cs
  All-hide_all [] items = tt
  All-hide_all (c ∷ cs) items =
      (HasLabel-hide_all c.id cs _ (HasLabel-hide_self c.id items), All-hide_all cs _)

  HasLabel-hide_unset :
      (id : Text) (c : Candidate numbers) (items : List (Text × Label numbers))
      → HasLabel items id
      → HasLabel (hide_unset numbers c (get_key c.id items) items) id
  HasLabel-hide_unset id c items h = elim (Option-cases (get_key c.id items)) [
    | inl missing ↦ rw missing (HasLabel-hide c.id id items h)
    | inr (label, there) ↦ rw there h
  ]

  HasLabel-hide_unset_self :
      (c : Candidate numbers) (items : List (Text × Label numbers))
      → HasLabel (hide_unset numbers c (get_key c.id items) items) c.id
  HasLabel-hide_unset_self c items = elim (Option-cases (get_key c.id items)) [
    | inl missing ↦ rw missing (HasLabel-hide_self c.id items)
    | inr (label, there) ↦ (label, rw there there)
  ]

  HasLabel-hide_rest :
      (id : Text) (cs : List (Candidate numbers)) (items : List (Text × Label numbers))
      → HasLabel items id
      → HasLabel (hide_rest numbers cs items) id
  unfolding hide_rest
  HasLabel-hide_rest id [] items h = h
  HasLabel-hide_rest id (c ∷ cs) items h =
      HasLabel-hide_rest id cs _ (HasLabel-hide_unset id c items h)

  All-hide_rest :
      (cs : List (Candidate numbers)) (items : List (Text × Label numbers))
      → All (λ (c : Candidate numbers). HasLabel (hide_rest numbers cs items) c.id) cs
  unfolding hide_rest
  All-hide_rest [] items = tt
  All-hide_rest (c ∷ cs) items =
      (HasLabel-hide_rest c.id cs _ (HasLabel-hide_unset_self c items), All-hide_rest cs _)

  -- An entry is missing, hidden, or one of the placements.
  abbrev pub EntryIsPlaced : Text → Option (Label numbers) → List (Placement numbers) → Type 0
  EntryIsPlaced id none accepted = Unit
  EntryIsPlaced id (some label) accepted =
      (label.visible ≡ false) ⊎ IsPlaced numbers id label.offset_x accepted

  ShowsPlaced-EntryIsPlaced :
      (items : List (Text × Label numbers)) (accepted : List (Placement numbers))
      → ShowsPlaced numbers items accepted
      → (id : Text) → EntryIsPlaced id (get_key id items) accepted
  ShowsPlaced-EntryIsPlaced items accepted h id = elim (Option-cases (get_key id items)) [
    | inl missing ↦ rw missing tt
    | inr (label, here) ↦ rw here (elim (Bool-cases label.visible) [
      | inl visible ↦ inr (h id label here visible)
      | inr invisible ↦ inl invisible
    ])
  ]

  -- Every candidate has an entry, and there is a list of at most `max_visible` placements of which
  -- no two overlap, each a candidate that is only moved sideways, such that each entry that is
  -- shown is one of them, by its id and its offset.
  pub resolve_soc_label_layout-Disjoint :
      (cs : List (Candidate numbers)) (max_visible : ℕ) (cluster_distance : Number)
      → let r = resolve_soc_label_layout numbers cs max_visible cluster_distance in
        All (λ (c : Candidate numbers). HasLabel r.items c.id) cs
        × (shown : List (Placement numbers)) × (length shown ≤ max_visible)
        × Disjoint numbers shown
        × All (IsMoved numbers cs) shown
        × ((id : Text) → EntryIsPlaced id (get_key id r.items) shown)
  unfolding resolve_soc_label_layout
  resolve_soc_label_layout-Disjoint cs max_visible cluster_distance =
      let usable = usable_of numbers cs in
      let laid = placed-IsLaid numbers cs max_visible in
      let p = placed numbers cs max_visible in
      elim (Bool-cases (leb 4 (length usable) && all_far numbers cluster_distance usable)) [
        | inl clustered ↦ rw clustered (
          All-hide_all cs [],
          [],
          omega arith,
          tt,
          tt,
          ShowsPlaced-EntryIsPlaced _ []
              (ShowsPlaced-hide_all cs [] [] (ShowsPlaced-nil numbers [])),
        )
        | inr single ↦ rw single (
          All-hide_rest cs p.items,
          p.accepted,
          laid.few,
          laid.disjoint,
          laid.from_candidates,
          ShowsPlaced-EntryIsPlaced _ p.accepted
              (ShowsPlaced-hide_rest cs p.items p.accepted laid.shown),
        )
      ]
