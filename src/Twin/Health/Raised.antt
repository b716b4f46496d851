-- ===== src/Twin/Health/Raised.antt =====
-- When the health level is critical (bessScenePresentation.js, `bessHealthLevel`).
use wind_solar_ess_agent.Base.{
  ◌≡◌, ◌≢◌, ◌⊎◌, refl, Bool, true, false, ◌||◌, Option, none, some, arith, inl, inr, Bool-cases,
}
use wind_solar_ess_agent.Js.Text.{Text, text_eq, text_eq→eq, text_eq_refl}
use wind_solar_ess_agent.Js.Number.{Numbers}
use wind_solar_ess_agent.Twin.Health.{
  Readings, normal, warning, critical, elevated_health_level, reported_level, bess_health_level,
  holds, finite_and, low_soc, high_temp, raise, is_health_level, given_level,
}

-- One of the three levels.
abbrev pub IsLevel : Text → Type 0
IsLevel level = (level ≡ normal) ⊎ (level ≡ warning) ⊎ (level ≡ critical)

or_cases : (a b : Bool) → (a || b) ≡ true → (a ≡ true) ⊎ (b ≡ true)
or_cases true b h = inl refl
or_cases false b h = inr h

pub or_left : (a b : Bool) → a ≡ true → (a || b) ≡ true
or_left a b h = rw h

pub or_right : (a b : Bool) → b ≡ true → (a || b) ≡ true
or_right true b h = refl
or_right false b h = h

elevated-critical : (level : Text) → IsLevel level → elevated_health_level level critical ≡ critical
unfolding elevated_health_level text_eq
elevated-critical level (inl e) = rw e
elevated-critical level (inr (inl e)) = rw e
elevated-critical level (inr (inr e)) = rw e

-- To raise to a warning leaves a critical level, and makes no other level critical.
elevated-warning :
    (level : Text)
    → IsLevel level
    → IsLevel (elevated_health_level level warning)
      × (elevated_health_level level warning ≡ critical → level ≡ critical)
      × (level ≡ critical → elevated_health_level level warning ≡ critical)
unfolding elevated_health_level text_eq
elevated-warning level (inl e) =
    rw e (inr (inl refl), λ h. absurd (ground arith), λ h. absurd (ground arith))
elevated-warning level (inr (inl e)) =
    rw e (inr (inl refl), λ h. absurd (ground arith), λ h. absurd (ground arith))
elevated-warning level (inr (inr e)) = rw e (inr (inr refl), λ h. refl, λ h. refl)

module _ (numbers : Numbers) where
  open numbers use {Number, less, at_most, equal, of_ℕ, is_finite}

  -- What one reading does to a level.
  record IsRaised (worst : Bool) (level raised : Text) : Type 0 where
    a_level : IsLevel raised
    on_sign : worst ≡ true → raised ≡ critical
    stays : level ≡ critical → raised ≡ critical
    only_on_sign : raised ≡ critical → (worst ≡ true) ⊎ (level ≡ critical)

  raise-IsRaised :
      (is_worst is_bad : Number → Bool) (value : Option Number) (level : Text)
      → IsLevel level
      → IsRaised
          (holds numbers (finite_and numbers is_worst) value)
          level
          (raise numbers is_worst is_bad value level)
  raise-IsRaised is_worst is_bad none level h = record {
    a_level = h;
    on_sign = λ e. cc;
    stays = λ e. e;
    only_on_sign = λ e. inr e;
  }
  raise-IsRaised is_worst is_bad (some value) level h = elim (Bool-cases (is_finite value)) [
    | inr infinite ↦
        rw infinite
          (record { a_level = h; on_sign = λ e. cc; stays = λ e. e; only_on_sign = λ e. inr e })
    | inl finite ↦ rw finite (elim (Bool-cases (is_worst value)) [
      | inl worst ↦
          let e = elevated-critical level h in
          rw worst (record {
            a_level = inr (inr e);
            on_sign = λ _. e;
            stays = λ _. e;
            only_on_sign = λ _. inl refl;
          })
      | inr better ↦ rw better (elim (Bool-cases (is_bad value)) [
        | inl bad ↦
            let (keeps, only, stays) = elevated-warning level h in
            rw bad (record {
              a_level = keeps;
              on_sign = λ e. cc;
              stays = stays;
              only_on_sign = λ e. inr (only e);
            })
        | inr good ↦
            rw good
              (record { a_level = h; on_sign = λ e. cc; stays = λ e. e; only_on_sign = λ e. inr e })
      ])
    ])
  ]

  abbrev pub reports_critical : Readings numbers → Bool
  reports_critical r =
      holds numbers (λ a. at_most (of_ℕ 700) a) r.alarm_severity
      || holds numbers (λ s. equal s (of_ℕ 4)) r.status_code

  -- A sign of a critical state: an alarm of 700 or more, the status 4, a state of charge below 20,
  -- or a temperature of 50 or more.
  abbrev pub critical_sign : Readings numbers → Bool
  critical_sign r =
      reports_critical r
      || (holds numbers (finite_and numbers (λ soc. less soc (of_ℕ 20))) r.soc
          || holds numbers (finite_and numbers (λ temp. at_most (of_ℕ 50) temp)) r.temp)

  -- The level that is there before the readings are looked at.
  abbrev pub level_before : Readings numbers → Text → Text
  level_before r fallback = given_level numbers (is_health_level r.severity) fallback

  reported_level_lem :
      (r : Readings numbers) (level : Text)
      → IsLevel level
      → IsLevel (reported_level numbers r level)
        × (reports_critical r ≡ true → reported_level numbers r level ≡ critical)
        × (reported_level numbers r level ≡ critical
            → (reports_critical r ≡ true) ⊎ (level ≡ critical))
  unfolding reported_level
  reported_level_lem r level h = elim (Bool-cases (reports_critical r)) [
    | inl worst ↦ rw worst (inr (inr refl), λ _. refl, λ _. inl refl)
    | inr better ↦
        rw better
          (elim (Bool-cases (
            holds numbers (λ a. less (of_ℕ 0) a) r.alarm_severity
            || holds numbers (λ s. equal s (of_ℕ 0)) r.status_code
            || holds numbers (λ s. at_most (of_ℕ 3) s) r.status_code)) [
              | inl bad ↦ rw bad (inr (inl refl), λ e. cc, λ e. absurd (ground arith))
              | inr good ↦ rw good (elim (Bool-cases (holds numbers is_finite r.status_code)) [
                | inl known ↦ rw known (inl refl, λ e. cc, λ e. absurd (ground arith))
                | inr unknown ↦ rw unknown (h, λ e. cc, λ e. inr e)
              ])
            ])
  ]

  is_health_level-IsLevel :
      (severity : Option Text) (fallback : Text)
      → IsLevel fallback
      → IsLevel (given_level numbers (is_health_level severity) fallback)
  is_health_level-IsLevel none fallback h = h
  is_health_level-IsLevel (some level) fallback h =
      elim (Bool-cases (text_eq level normal || text_eq level warning || text_eq level critical)) [
        | inr other ↦ rw other h
        | inl one ↦ rw one (elim (or_cases (text_eq level normal || text_eq level warning) _ one) [
          | inr e ↦ inr (inr (text_eq→eq level critical e))
          | inl more ↦ elim (or_cases (text_eq level normal) _ more) [
            | inl e ↦ inl (text_eq→eq level normal e)
            | inr e ↦ inr (inl (text_eq→eq level warning e))
          ]
        ])
      ]

  pub bess_health_level_lem :
      (r : Readings numbers) (fallback : Text)
      → IsLevel fallback
      → let level = bess_health_level numbers r fallback in
        IsLevel level
        × (critical_sign r ≡ true → level ≡ critical)
        × (level ≡ critical → (critical_sign r ≡ true) ⊎ (level_before r fallback ≡ critical))
  unfolding bess_health_level
  bess_health_level_lem r fallback h =
      let before = level_before r fallback in
      let reported = reported_level numbers r before in
      let (a_level, on_report, only_on_report) =
        reported_level_lem r before (is_health_level-IsLevel r.severity fallback h) in
      let by_soc =
        raise-IsRaised (low_soc numbers) (λ soc. less soc (of_ℕ 50)) r.soc reported a_level in
      let by_temp =
        raise-IsRaised (high_temp numbers) (λ temp. at_most (of_ℕ 40) temp) r.temp _
          by_soc.a_level in
      let soc_sign = holds numbers (finite_and numbers (low_soc numbers)) r.soc in
      let temp_sign = holds numbers (finite_and numbers (high_temp numbers)) r.temp in
      (
        by_temp.a_level,
        λ sign. elim (or_cases (reports_critical r) (soc_sign || temp_sign) sign) [
          | inl report ↦ by_temp.stays (by_soc.stays (on_report report))
          | inr more ↦ elim (or_cases soc_sign temp_sign more) [
            | inl low ↦ by_temp.stays (by_soc.on_sign low)
            | inr hot ↦ by_temp.on_sign hot
          ]
        ],
        λ e. elim (by_temp.only_on_sign e) [
          | inl hot ↦ inl (
              or_right (reports_critical r) (soc_sign || temp_sign)
                (or_right soc_sign temp_sign hot))
          | inr from_soc ↦ elim (by_soc.only_on_sign from_soc) [
            | inl low ↦ inl (
                or_right (reports_critical r) (soc_sign || temp_sign)
                  (or_left soc_sign temp_sign low))
            | inr from_report ↦ elim (only_on_report from_report) [
              | inl report ↦ inl (or_left (reports_critical r) _ report)
              | inr from_before ↦ inr from_before
            ]
          ]
        ],
      )

  -- The health level is one of the three levels if the fallback is. If there is a sign of a
  -- critical state it is critical; if there is none, it is only critical where the level before was.
  pub bess_health_level-critical :
      (r : Readings numbers) (fallback : Text)
      → IsLevel fallback
      → let level = bess_health_level numbers r fallback in
        IsLevel level
        × (((critical_sign r ≡ true) × (level ≡ critical))
            ⊎ ((critical_sign r ≡ false)
                × ((level ≢ critical) ⊎ (level_before r fallback ≡ critical))))
  bess_health_level-critical r fallback h =
      let level = bess_health_level numbers r fallback in
      let (a_level, on_sign, only_on_sign) = bess_health_level_lem r fallback h in
      (
        a_level,
        elim (Bool-cases (critical_sign r)) [
          | inl sign ↦ inl (sign, on_sign sign)
          | inr no_sign ↦ inr (
            no_sign,
            elim (Bool-cases (text_eq level critical)) [
              | inl is_critical ↦ elim (only_on_sign (text_eq→eq level critical is_critical)) [
                | inl sign ↦ absurd (ground arith)
                | inr before ↦ inr before
              ]
              | inr other ↦ inl (λ e. absurd (ground (arith, rw e at other, text_eq_refl critical)))
            ],
          )
        ],
      )
