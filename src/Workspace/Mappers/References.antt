-- ===== src/Workspace/Mappers/References.antt =====
-- Which node a reference leads to (workspace/station-data-mappers.ts, the map `byReference`).
use wind_solar_ess_agent.Base.{
  ◌≡◌, ◌≢◌, ◌⊎◌, subst, ap, refl, sym, ◌∙◌, true, Option, none, some, List, [], ◌∷◌, inl, inr,
  Bool-cases,
}
use wind_solar_ess_agent.Js.Text.{Text, text_eq, text_eq→eq, text_eq_refl}
use wind_solar_ess_agent.Js.Map.{get_key, set_key, get_key-set_key}
use wind_solar_ess_agent.Js.Number.{Numbers}
use wind_solar_ess_agent.Workspace.Mappers.{DeviceInfo, set_code, index_references}

module _ (numbers : Numbers) where
  -- The node has this id, or this code, which is not empty.
  abbrev pub Refers : Text → DeviceInfo numbers → Type 0
  Refers reference info =
      (reference ≡ info.device_id) ⊎ ((some reference ≡ info.code) × (reference ≢ []))

  -- What the map holds under a reference has this property.
  abbrev Holds : (Text → DeviceInfo numbers → Type 0) → List (Text × DeviceInfo numbers) → Type 0
  Holds P by_reference =
      (reference : Text) (info : DeviceInfo numbers)
      → get_key reference by_reference ≡ some info
      → P reference info

  Holds-set_key :
      (P : Text → DeviceInfo numbers → Type 0) (key : Text) (new : DeviceInfo numbers)
      (by_reference : List (Text × DeviceInfo numbers))
      → P key new
      → Holds P by_reference
      → Holds P (set_key key new by_reference)
  Holds-set_key P key new by_reference here h reference info found =
      let e = sym (get_key-set_key key reference new by_reference) ∙ found in
      elim (Bool-cases (text_eq key reference)) [
        | inl same ↦
            let is_new : new ≡ info = cc (rw same at e) in
            subst (P reference) is_new
              (subst (λ (k : Text). P k new) (text_eq→eq key reference same) here)
        | inr other ↦ h reference info (rw other at e)
      ]

  Holds-set_code :
      (P : Text → DeviceInfo numbers → Type 0) (code : Option Text) (new : DeviceInfo numbers)
      (by_reference : List (Text × DeviceInfo numbers))
      → ((key : Text) → some key ≡ code → key ≢ [] → P key new)
      → Holds P by_reference
      → Holds P (set_code numbers code new by_reference)
  Holds-set_code P none new by_reference here h = h
  Holds-set_code P (some []) new by_reference here h = h
  Holds-set_code P (some (c ∷ t)) new by_reference here h =
      Holds-set_key P (c ∷ t) new by_reference (here (c ∷ t) refl (λ e. cc)) h

  -- The node is one of these.
  abbrev pub Occurs : DeviceInfo numbers → List (DeviceInfo numbers) → Type 0
  Occurs info [] = ⊥
  Occurs info (i ∷ infos) = (info ≡ i) ⊎ Occurs info infos

  Holds-index_references :
      (P : Text → DeviceInfo numbers → Type 0) (infos : List (DeviceInfo numbers))
      (by_reference : List (Text × DeviceInfo numbers))
      → ((info : DeviceInfo numbers) (key : Text)
          → Occurs info infos
          → Refers key info
          → P key info)
      → Holds P by_reference
      → Holds P (index_references numbers infos by_reference)
  unfolding index_references
  Holds-index_references P [] by_reference new h = h
  Holds-index_references P (i ∷ infos) by_reference new h =
      let by_id = set_key i.device_id i by_reference in
      Holds-index_references P infos (set_code numbers i.code i by_id)
        (λ info key there refers. new info key (inr there) refers)
        (Holds-set_code P i.code i by_id (λ key e full. new i key (inl refl) (inr (e, full)))
          (Holds-set_key P i.device_id i by_reference (new i i.device_id (inl refl) (inl refl)) h))

  -- What a reference leads to is a node of the tree, and has it as its id or its code.
  pub get_key-index_references :
      (infos : List (DeviceInfo numbers)) (reference : Text) (info : DeviceInfo numbers)
      → get_key reference (index_references numbers infos []) ≡ some info
      → Occurs info infos × Refers reference info
  unfolding get_key
  get_key-index_references infos reference info found =
      Holds-index_references (λ key i. Occurs i infos × Refers key i) infos []
        (λ i key there refers. (there, refers)) (λ key i nothing. cc) reference info found

  -- There is a node under the reference.
  abbrev HasKey : Text → List (Text × DeviceInfo numbers) → Type 0
  HasKey reference by_reference =
      (info : DeviceInfo numbers) × (get_key reference by_reference ≡ some info)

  HasKey-set_key :
      (key reference : Text) (new : DeviceInfo numbers)
      (by_reference : List (Text × DeviceInfo numbers))
      → (text_eq key reference ≡ true) ⊎ HasKey reference by_reference
      → HasKey reference (set_key key new by_reference)
  HasKey-set_key key reference new by_reference (inl same) =
      (new, get_key-set_key key reference new by_reference ∙ rw same)
  HasKey-set_key key reference new by_reference (inr (info, there)) =
      elim (Bool-cases (text_eq key reference)) [
        | inl same ↦ (new, get_key-set_key key reference new by_reference ∙ rw same)
        | inr other ↦ (info, get_key-set_key key reference new by_reference ∙ rw other there)
      ]

  HasKey-set_code :
      (code : Option Text) (reference : Text) (new : DeviceInfo numbers)
      (by_reference : List (Text × DeviceInfo numbers))
      → HasKey reference by_reference
      → HasKey reference (set_code numbers code new by_reference)
  HasKey-set_code none reference new by_reference h = h
  HasKey-set_code (some []) reference new by_reference h = h
  HasKey-set_code (some (c ∷ t)) reference new by_reference h =
      HasKey-set_key (c ∷ t) reference new by_reference (inr h)

  HasKey-set_code_self :
      (code : Option Text) (reference : Text) (new : DeviceInfo numbers)
      (by_reference : List (Text × DeviceInfo numbers))
      → some reference ≡ code
      → reference ≢ []
      → HasKey reference (set_code numbers code new by_reference)
  HasKey-set_code_self none reference new by_reference e full = cc
  HasKey-set_code_self (some []) reference new by_reference e full = absurd (full (cc))
  HasKey-set_code_self (some (c ∷ t)) reference new by_reference e full =
      let same : reference ≡ c ∷ t = cc in
      HasKey-set_key (c ∷ t) reference new by_reference
        (inl (ap (text_eq (c ∷ t)) same ∙ text_eq_refl (c ∷ t)))

  HasKey-index_references :
      (infos : List (DeviceInfo numbers)) (reference : Text)
      (by_reference : List (Text × DeviceInfo numbers))
      → HasKey reference by_reference
      → HasKey reference (index_references numbers infos by_reference)
  unfolding index_references
  HasKey-index_references [] reference by_reference h = h
  HasKey-index_references (i ∷ infos) reference by_reference h =
      HasKey-index_references infos reference _ (
        HasKey-set_code i.code reference i _
          (HasKey-set_key i.device_id reference i by_reference (inr h)))

  -- A node of the tree is found under its id and its code, or another node is.
  pub index_references-HasKey :
      (infos : List (DeviceInfo numbers)) (reference : Text) (info : DeviceInfo numbers)
      (by_reference : List (Text × DeviceInfo numbers))
      → Occurs info infos
      → Refers reference info
      → HasKey reference (index_references numbers infos by_reference)
  unfolding index_references
  index_references-HasKey [] reference info by_reference there refers = elim there [ ]
  index_references-HasKey (i ∷ infos) reference info by_reference (inr there) refers =
      index_references-HasKey infos reference info _ there refers
  index_references-HasKey (i ∷ infos) reference info by_reference (inl e) (inl id) =
      let same : reference ≡ i.device_id = id ∙ ap (λ (j : DeviceInfo numbers). j.device_id) e in
      HasKey-index_references infos reference _ (
        HasKey-set_code i.code reference i _ (
          HasKey-set_key i.device_id reference i by_reference
            (inl (ap (text_eq i.device_id) same ∙ text_eq_refl i.device_id))))
  index_references-HasKey (i ∷ infos) reference info by_reference (inl e) (inr (code, full)) =
      HasKey-index_references infos reference _ (
        HasKey-set_code_self i.code reference i _ (code ∙ ap (λ (j : DeviceInfo numbers). j.code) e)
          full)
