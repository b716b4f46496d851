-- ===== src/Twin/Telemetry/Snapshot.antt =====
-- The batteries after a batch of telemetry (stationTelemetryClient.js, `applyBessTelemetrySnapshot`).
use wind_solar_ess_agent.Base.{
  ℕ, ◌≤◌, ◌≡◌, ◌⊎◌, refl, false, ◌||◌, All, Option, none, some, List, [], ◌∷◌, arith, inl, inr,
  Bool-cases, Option-cases, ◌∙◌, ltb,
}
use wind_solar_ess_agent.Js.Text.{Text}
use wind_solar_ess_agent.Js.Number.{Numbers}
use wind_solar_ess_agent.Twin.Health.{
  Readings as HealthReadings, holds, finite_and, low_soc, high_temp, critical,
}
use wind_solar_ess_agent.Twin.Health.Raised.{
  IsLevel, bess_health_level_lem, reports_critical, or_left, or_right,
}
use wind_solar_ess_agent.Twin.Telemetry.{
  Point, Container, Readings, parsed, newest_timestamp, newest_of, points_by_device, observe,
  observe_each, text_or_null, apply_bess_telemetry_snapshot,
}

module _ (numbers : Numbers) (parse_date : Text → Option ℕ) where
  open numbers use {less, at_most, of_ℕ}

  -- A time that can be read stays or gives way to a later one.
  abbrev NotBefore : Option Text → Option Text → Type 0
  NotBefore old new =
      (time : ℕ)
      → parsed numbers parse_date old ≡ some time
      → (later : ℕ) × (parsed numbers parse_date new ≡ some later) × (time ≤ later)

  NotBefore-newest_timestamp :
      (current candidate : Option Text)
      → NotBefore current (newest_timestamp numbers parse_date current candidate)
  unfolding newest_timestamp
  NotBefore-newest_timestamp current candidate time known =
      elim (Option-cases (parsed numbers parse_date candidate)) [
        | inl unreadable ↦ rw (known, unreadable) (time, known, omega arith)
        | inr (new, readable) ↦
            rw (known, readable)
              (elim (Bool-cases (ltb time new)) [
                | inl later ↦ rw later (new, readable, ground arith)
                | inr not_later ↦ rw not_later (time, known, omega arith)
              ])
      ]

  NotBefore-newest_of :
      (readings : Readings numbers parse_date) (observed_at : Option Text)
      → NotBefore observed_at (newest_of numbers parse_date readings observed_at)
  NotBefore-newest_of [] observed_at time known = (time, known, omega arith)
  NotBefore-newest_of ((metric, reading) ∷ readings) observed_at time known =
      let (next, readable, le) = NotBefore-newest_timestamp observed_at reading.time time known in
      let (last, readable_last, le_last) = NotBefore-newest_of readings _ next readable in
      (last, readable_last, omega arith)

  -- There was no time that can be read, or there is one that is not before it.
  abbrev pub KeepsTime : Option Text → Option Text → Type 0
  KeepsTime old new =
      (parsed numbers parse_date old ≡ none)
      ⊎ ((time : ℕ) × (later : ℕ) × (parsed numbers parse_date old ≡ some time)
          × (parsed numbers parse_date new ≡ some later)
          × (time ≤ later))

  NotBefore-KeepsTime : (old new : Option Text) → NotBefore old new → KeepsTime old new
  NotBefore-KeepsTime old new h = elim (Option-cases (parsed numbers parse_date old)) [
    | inl unreadable ↦ inl unreadable
    | inr (time, known) ↦
        let (later, readable, le) = h time known in inr (time, later, known, readable, le)
  ]

  -- What a battery is after a batch, against what it was before.
  pub record IsObserved (before after : Container numbers parse_date) : Type 0 where
    pub same_id : after.id ≡ before.id
    pub not_before : KeepsTime before.observed_at after.observed_at
    pub a_level : IsLevel after.severity
    pub low_soc_critical :
        (holds numbers (finite_and numbers (λ soc. less soc (of_ℕ 20))) after.soc ≡ false)
        ⊎ (after.severity ≡ critical)
    pub high_temp_critical :
        (holds numbers (finite_and numbers (λ temp. at_most (of_ℕ 50) temp)) after.temp ≡ false)
        ⊎ (after.severity ≡ critical)

  parsed-text_or_null :
      (time : Option Text)
      → parsed numbers parse_date (text_or_null numbers parse_date time)
        ≡ parsed numbers parse_date time
  parsed-text_or_null none = refl
  parsed-text_or_null (some []) = refl
  parsed-text_or_null (some (c ∷ t)) = refl

  observe-IsObserved :
      (readings : Readings numbers parse_date) (now : ℕ) (c : Container numbers parse_date)
      → IsLevel c.severity
      → IsObserved c (observe numbers parse_date readings now c)
  unfolding observe
  observe-IsObserved readings now c h =
      let after = observe numbers parse_date readings now c in
      let r : HealthReadings numbers = record {
        severity = none;
        status_code = after.status_code;
        alarm_severity = after.alarm_severity;
        soc = after.soc;
        temp = after.temp;
      } in
      let (a_level, on_sign, only) = bess_health_level_lem numbers r c.severity h in
      let low = holds numbers (finite_and numbers (low_soc numbers)) r.soc in
      let high = holds numbers (finite_and numbers (high_temp numbers)) r.temp in
      record {
        same_id = refl;
        not_before = NotBefore-KeepsTime c.observed_at _ (λ time known.
            NotBefore-newest_of readings (text_or_null numbers parse_date c.observed_at) time
              (parsed-text_or_null c.observed_at ∙ known));
        a_level = a_level;
        low_soc_critical = elim (Bool-cases low) [
          | inl e ↦
              inr
                (on_sign (or_right (reports_critical numbers r) (low || high) (or_left low high e)))
          | inr e ↦ inl e
        ];
        high_temp_critical = elim (Bool-cases high) [
          | inl e ↦
              inr (
                on_sign (or_right (reports_critical numbers r) (low || high) (or_right low high e)))
          | inr e ↦ inl e
        ];
      }

  -- Each battery before a batch has one in its place after it.
  abbrev pub AreObserved :
      List (Container numbers parse_date) → List (Container numbers parse_date) → Type 0
  AreObserved [] [] = Unit
  AreObserved (c ∷ before) (d ∷ after) = IsObserved c d × AreObserved before after
  AreObserved _ _ = ⊥

  observe_each-AreObserved :
      (by_device : List (Text × Readings numbers parse_date)) (now : ℕ)
      (containers : List (Container numbers parse_date))
      → All (λ (c : Container numbers parse_date). IsLevel c.severity) containers
      → AreObserved containers (observe_each numbers parse_date by_device now containers)
  observe_each-AreObserved by_device now [] h = tt
  observe_each-AreObserved by_device now (c ∷ containers) (level, h) =
      (observe-IsObserved _ now c level, observe_each-AreObserved by_device now containers h)

  -- If the severities are among the three levels, then so are they after a batch, whatever it
  -- holds; the batteries are the same, in their order; a time of observation that can be read never
  -- moves back; and a battery with a state of charge below 20 or a temperature of 50 or more is
  -- critical.
  pub apply_bess_telemetry_snapshot-AreObserved :
      (containers : List (Container numbers parse_date)) (points : List (Point numbers parse_date))
      (now : ℕ)
      → All (λ (c : Container numbers parse_date). IsLevel c.severity) containers
      → AreObserved containers
          (apply_bess_telemetry_snapshot numbers parse_date containers points now)
  unfolding apply_bess_telemetry_snapshot
  apply_bess_telemetry_snapshot-AreObserved containers points now h =
      observe_each-AreObserved (points_by_device numbers parse_date points []) now containers h
