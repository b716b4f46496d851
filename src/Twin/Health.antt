-- ===== src/Twin/Health.antt =====
-- bessScenePresentation.js: the health level of a battery from its telemetry. Numbers are a
-- parameter; a number that is missing is `none`.
pub mod Raised
use wind_solar_ess_agent.Base.{
  ℕ, Bool, true, false, ◌&&◌, ◌||◌, Option, none, some, List, [], ◌∷◌, ltb, leb, ◌++◌, drop,
  if◌then◌else◌,
}
use wind_solar_ess_agent.Js.Text.{Text, codes, text_eq}
use wind_solar_ess_agent.Js.Number.{Numbers}

abbrev pub normal : Text
normal = codes "normal"

abbrev pub warning : Text
warning = codes "warning"

abbrev pub critical : Text
critical = codes "critical"

-- `HEALTH_RANK[level]`, where `none` stands for `undefined`.
unfoldable pub health_rank : Text → Option ℕ
health_rank level =
    if text_eq level normal
    then some 0
    else if text_eq level warning
    then some 1
    else if text_eq level critical
    then some 2
    else none

-- `HEALTH_LEVELS.has(level)`
abbrev is_health_level : Option Text → Option Text
is_health_level none = none
is_health_level (some level) =
    if text_eq level normal || text_eq level warning || text_eq level critical
    then some level
    else none

abbrev rank_above : Option ℕ → Option ℕ → Bool
rank_above (some a) (some b) = ltb b a
rank_above _ _ = false

unfoldable pub elevated_health_level : Text → Text → Text
unfolding health_rank
elevated_health_level current candidate =
    if rank_above (health_rank candidate) (health_rank current) then candidate else current

abbrev is_digit : ℕ → Bool
is_digit c = leb 48 c && leb c 57

-- `/^A-\d{2}$/.test(id)`
unfoldable pub is_scene_id : Text → Bool
is_scene_id (a ∷ dash ∷ d ∷ e ∷ []) =
    text_eq (a ∷ dash ∷ []) (codes "A-") && is_digit d && is_digit e
is_scene_id _ = false

unfoldable pub source_asset_id_for_scene_container : Text → Text
unfolding is_scene_id
source_asset_id_for_scene_container id =
    if is_scene_id id
    then codes "BESS_A_" ++ drop 2 id
    else elim id [ [] ↦ codes "unknown" | c ∷ rest ↦ c ∷ rest ]

module _ (numbers : Numbers) where
  open numbers use {Number, less, at_most, equal, of_ℕ, is_finite}

  -- What `bessHealthLevel` reads.
  pub record Readings : Type 0 where
    pub severity : Option Text
    pub status_code : Option Number
    pub alarm_severity : Option Number
    pub soc : Option Number
    pub temp : Option Number

  -- A comparison with `undefined` is false.
  abbrev pub holds : (Number → Bool) → Option Number → Bool
  holds test none = false
  holds test (some value) = test value

  abbrev given_level : Option Text → Text → Text
  given_level none fallback = fallback
  given_level (some level) fallback = level

  -- The level by the status and the alarm.
  unfoldable pub reported_level : Readings → Text → Text
  reported_level r level =
      if holds (λ a. at_most (of_ℕ 700) a) r.alarm_severity
        || holds (λ s. equal s (of_ℕ 4)) r.status_code
      then critical
      else if holds (λ a. less (of_ℕ 0) a) r.alarm_severity
          || holds (λ s. equal s (of_ℕ 0)) r.status_code
          || holds (λ s. at_most (of_ℕ 3) s) r.status_code
      then warning
      else if holds is_finite r.status_code
      then normal
      else level

  abbrev pub finite_and : (Number → Bool) → Number → Bool
  finite_and test value = is_finite value && test value

  -- The two `if`s over one reading: it is critical, or else a warning.
  abbrev raise : (Number → Bool) → (Number → Bool) → Option Number → Text → Text
  raise is_worst is_bad none level = level
  raise is_worst is_bad (some value) level =
      if is_finite value
      then (if is_worst value
          then elevated_health_level level critical
          else if is_bad value
          then elevated_health_level level warning
          else level)
      else level

  abbrev pub low_soc : Number → Bool
  low_soc soc = less soc (of_ℕ 20)

  abbrev pub high_temp : Number → Bool
  high_temp temp = at_most (of_ℕ 50) temp

  -- `bessHealthLevel`
  unfoldable pub bess_health_level : Readings → Text → Text
  unfolding reported_level elevated_health_level
  bess_health_level r fallback =
      let level = reported_level r (given_level (is_health_level r.severity) fallback) in
      raise high_temp (λ temp. at_most (of_ℕ 40) temp) r.temp
        (raise low_soc (λ soc. less soc (of_ℕ 50)) r.soc level)

  pub record Presentation : Type 0 where
    pub asset_id : Text
    pub level : Text
    pub status_label : Option Text
    pub soh : Option Number

  abbrev asset_or : Option Text → Text → Text
  asset_or (some (c ∷ t)) id = c ∷ t
  asset_or _ id = source_asset_id_for_scene_container id

  abbrev finite_or_null : Option Number → Option Number
  finite_or_null none = none
  finite_or_null (some value) = if is_finite value then some value else none

  -- `bessScenePresentation` of a battery with this id, readings, asset and state of health.
  unfoldable pub bess_scene_presentation :
      Text → Readings → Option Text → Bool → Option Number → Presentation
  bess_scene_presentation id r source_asset_id is_stale soh = record {
    asset_id = asset_or source_asset_id id;
    level = bess_health_level r normal;
    status_label = if is_stale then some (codes "数据过期") else none;
    soh = finite_or_null soh;
  }
