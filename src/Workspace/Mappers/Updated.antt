-- ===== src/Workspace/Mappers/Updated.antt =====
-- What a node of the device tree does to a battery (workspace/station-data-mappers.ts,
-- `mapDeviceTreeToContainers`).
use wind_solar_ess_agent.Base.{
  ◌≡◌, ◌≢◌, ◌⊎◌, refl, sym, ap, ◌∙◌, subst, true, false, arith, Option, none, some, inl, inr,
  Bool-cases, Option-cases,
}
use wind_solar_ess_agent.Js.Text.{Text, codes, text_eq, text_eq→eq, text_eq_refl}
use wind_solar_ess_agent.Js.Number.{Numbers}
use wind_solar_ess_agent.Workspace.Mappers.{
  DeviceInfo, WorkspaceContainer, reference_of, update_container, latest_of, status_of, or_else,
  Latest, Severity, normal, warning, critical, finite_or_fallback, normalized_severity,
}

module _ (numbers : Numbers) where
  open numbers use {Number, is_finite}

  -- A value of a battery after the mapping: the one that was measured, if it is a finite number, or
  -- else the one before.
  abbrev pub IsRead : Option Number → Number → Number → Type 0
  IsRead none before after = after ≡ before
  IsRead (some v) before after =
      ((is_finite v ≡ true) × (after ≡ v)) ⊎ ((is_finite v ≡ false) × (after ≡ before))

  -- The severity after the mapping: the one that the status names, or else the one before.
  abbrev pub IsRated : Text → Severity → Severity → Type 0
  IsRated status before after =
      ((status ≡ codes "normal") × (after ≡ normal))
      ⊎ ((status ≡ codes "warning") × (after ≡ warning))
      ⊎ ((status ≡ codes "critical") × (after ≡ critical))
      ⊎ ((status ≢ codes "normal")
          × (status ≢ codes "warning")
          × (status ≢ codes "critical")
          × (after ≡ before))

  -- What a node says: the status and the latest values of its summary, if it has one, and without a
  -- summary its own status and no values.
  abbrev pub status_in : DeviceInfo numbers → Text
  status_in info = elim info.summary [ none ↦ info.status | some summary ↦ summary.status ]

  abbrev pub latest_in : (Latest numbers → Option Number) → DeviceInfo numbers → Option Number
  latest_in field info = elim info.summary [
    | none ↦ none
    | some summary ↦ elim summary.latest [ none ↦ none | some latest ↦ field latest ]
  ]

  -- A battery that a node updates: it keeps its id, refers to the node by the node's id, and takes
  -- the node's values and severity.
  pub record IsUpdated (info : DeviceInfo numbers) (before after : WorkspaceContainer numbers)
      : Type 0 where
    pub same_id : after.id ≡ before.id
    pub refers : reference_of numbers after ≡ info.device_id
    pub rated : IsRated (status_in info) before.severity after.severity
    pub soc_read : IsRead (latest_in (λ l. l.soc) info) before.soc after.soc
    pub temp_read :
        IsRead
          (or_else (latest_in (λ l. l.temperature) info) (latest_in (λ l. l.temp) info))
          before.temp
          after.temp
    pub power_read :
        IsRead
          (or_else (latest_in (λ l. l.power_kw) info) (latest_in (λ l. l.power) info))
          before.power
          after.power

  reference_of-update_container :
      (info : DeviceInfo numbers) (c : WorkspaceContainer numbers)
      → reference_of numbers (update_container numbers (some info) c) ≡ info.device_id
  reference_of-update_container info c = elim (Bool-cases (text_eq info.device_id c.id)) [
    | inl same ↦ rw same (sym (text_eq→eq info.device_id c.id same))
    | inr other ↦ rw other refl
  ]

  finite_or_fallback-IsRead :
      (measured : Option Number) (before : Number)
      → IsRead measured before (finite_or_fallback numbers measured before)
  finite_or_fallback-IsRead none before = refl
  finite_or_fallback-IsRead (some v) before = elim (Bool-cases (is_finite v)) [
    | inl finite ↦ rw finite (inl (refl, refl))
    | inr other ↦ rw other (inr (refl, refl))
  ]

  text_eq-≢ : (a b : Text) → text_eq a b ≡ false → a ≢ b
  text_eq-≢ a b h e = absurd (ground (arith, rw e at h, text_eq_refl b))

  normalized_severity-IsRated :
      (status : Text) (before : Severity)
      → IsRated status before (normalized_severity (some status) before)
  normalized_severity-IsRated status before = elim (Bool-cases (text_eq status (codes "normal"))) [
    | inl e ↦ rw (e, normalized_severity) (inl (text_eq→eq status _ e, refl))
    | inr n ↦ elim (Bool-cases (text_eq status (codes "warning"))) [
      | inl e ↦ rw (n, e, normalized_severity) (inr (inl (text_eq→eq status _ e, refl)))
      | inr w ↦ elim (Bool-cases (text_eq status (codes "critical"))) [
        | inl e ↦ rw (n, w, e, normalized_severity) (inr (inr (inl (text_eq→eq status _ e, refl))))
        | inr c ↦
            rw (n, w, c, normalized_severity)
              (inr (
                inr (inr (text_eq-≢ status _ n, text_eq-≢ status _ w, text_eq-≢ status _ c, refl))))
      ]
    ]
  ]

  -- What the mapping looks up in a summary.
  field-latest_of :
      (field : Latest numbers → Option Number) (info : DeviceInfo numbers)
      → field (latest_of numbers none) ≡ none
      → field (latest_of numbers info.summary) ≡ latest_in field info
  field-latest_of field info h = elim (Option-cases info.summary) [
    | inl missing ↦ rw missing h
    | inr (summary, there) ↦ rw there (elim (Option-cases summary.latest) [
      | inl missing ↦ rw missing h
      | inr (latest, given) ↦ rw given refl
    ])
  ]

  IsRead-field :
      (measured said : Option Number) (before : Number)
      → measured ≡ said
      → IsRead said before (finite_or_fallback numbers measured before)
  IsRead-field measured said before e =
      subst (λ (m : Option Number). IsRead m before (finite_or_fallback numbers measured before)) e
        (finite_or_fallback-IsRead measured before)

  status_of-status_in :
      (info : DeviceInfo numbers) → status_of numbers info.summary info.status ≡ status_in info
  status_of-status_in info = elim (Option-cases info.summary) [
    | inl missing ↦ rw missing refl
    | inr (summary, there) ↦ rw there refl
  ]

  pub update_container-IsUpdated :
      (info : DeviceInfo numbers) (c : WorkspaceContainer numbers)
      → IsUpdated info c (update_container numbers (some info) c)
  update_container-IsUpdated info c = record {
    same_id = refl;
    refers = reference_of-update_container info c;
    rated =
        subst
          (λ (status : Text).
            IsRated status c.severity (update_container numbers (some info) c).severity)
          (status_of-status_in info)
          (normalized_severity-IsRated (status_of numbers info.summary info.status) c.severity);
    soc_read = IsRead-field _ _ c.soc (field-latest_of (λ l. l.soc) info refl);
    temp_read = IsRead-field _ _ c.temp (
        ap (or_else (latest_of numbers info.summary).temperature)
          (field-latest_of (λ l. l.temp) info refl)
        ∙ ap (λ (a : Option Number). or_else a (latest_in (λ l. l.temp) info))
            (field-latest_of (λ l. l.temperature) info refl));
    power_read = IsRead-field _ _ c.power (
        ap (or_else (latest_of numbers info.summary).power_kw)
          (field-latest_of (λ l. l.power) info refl)
        ∙ ap (λ (a : Option Number). or_else a (latest_in (λ l. l.power) info))
            (field-latest_of (λ l. l.power_kw) info refl));
  }
