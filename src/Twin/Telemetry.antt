-- ===== src/Twin/Telemetry.antt =====
-- stationTelemetryClient.js: what a batch of telemetry does to the batteries of the scene and to the
-- overview of the station. Numbers and `Date.parse` are parameters; times are milliseconds.
mod Tests
pub mod Snapshot
pub mod History
pub mod Overview
use wind_solar_ess_agent.Base.{
  ℕ, ◌+◌, ◌-◌, Bool, true, false, ◌&&◌, ◌||◌, Option, none, some, List, [], ◌∷◌, ◌++◌, map, length,
  drop, leb, ltb, if◌then◌else◌,
}
use wind_solar_ess_agent.Js.Text.{Text, codes, text_eq}
use wind_solar_ess_agent.Js.Map.{get_key, set_key}
use wind_solar_ess_agent.Js.Number.{Numbers}
use wind_solar_ess_agent.Twin.Health.{is_scene_id, bess_health_level}

abbrev pub stale_after_ms : ℕ
stale_after_ms = 15000

abbrev pub history_limit : ℕ
history_limit = 360

pub data DataState : Type 0 where
  live stale : DataState

module _ (numbers : Numbers) (parse_date : Text → Option ℕ) where
  open numbers use {Number, max, min, add, negate, divide, of_ℕ, is_finite}

  -- A point of the batch; a value that is missing or no number is `none`, and so is a missing text.
  pub record Point : Type 0 where
    pub device_id : Option Text
    pub metric_key : Text
    pub value : Option Number
    pub time : Option Text

  -- A battery. What the batch does not change is not kept here.
  pub record Container : Type 0 where
    pub id : Text
    pub soc : Option Number
    pub soh : Option Number
    pub temp : Option Number
    pub power : Option Number
    pub fan_rpm : Option Number
    pub status_code : Option Number
    pub alarm_severity : Option Number
    pub severity : Text
    pub observed_at : Option Text
    pub data_state : Option DataState

  -- A number and a time that are there: what a point is worth.
  pub record Reading : Type 0 where
    pub value : Number
    pub time : Option Text

  -- `!candidate || Number.isNaN(Date.parse(candidate))` holds where this is `none`.
  abbrev pub parsed : Option Text → Option ℕ
  parsed none = none
  parsed (some []) = none
  parsed (some (c ∷ t)) = parse_date (c ∷ t)

  abbrev newer : Option ℕ → Option ℕ → Option Text → Option Text → Option Text
  newer old none current candidate = current
  newer none (some new) current candidate = candidate
  newer (some old) (some new) current candidate = if ltb old new then candidate else current

  unfoldable pub newest_timestamp : Option Text → Option Text → Option Text
  newest_timestamp current candidate = newer (parsed current) (parsed candidate) current candidate

  abbrev finite_value : Option Number → Option Number
  finite_value none = none
  finite_value (some value) = if is_finite value then some value else none

  abbrev scene_id : Option Text → Option Text
  scene_id none = none
  scene_id (some id) = if is_scene_id id then some id else none

  abbrev valid : Option Text → Option Number → Option Text → Option (Text × Reading)
  valid (some id) (some value) time = some (id, record { value = value; time = time })
  valid _ _ time = none

  -- The device and the reading of a point, unless the first `if` skips it.
  unfoldable pub reading_of : Point → Option (Text × Reading)
  reading_of p = valid (scene_id p.device_id) (finite_value p.value) p.time

  abbrev pub Readings : Type 0
  Readings = List (Text × Reading)

  abbrev readings_or_empty : Option Readings → Readings
  readings_or_empty none = []
  readings_or_empty (some readings) = readings

  abbrev pub add_reading :
      Text → Option (Text × Reading) → List (Text × Readings) → List (Text × Readings)
  add_reading metric none by_device = by_device
  add_reading metric (some (id, reading)) by_device =
      set_key id (set_key metric reading (readings_or_empty (get_key id by_device))) by_device

  -- The readings by device and metric, which the first loop collects.
  unfoldable pub points_by_device : List Point → List (Text × Readings) → List (Text × Readings)
  unfolding reading_of
  points_by_device [] by_device = by_device
  points_by_device (p ∷ points) by_device =
      points_by_device points (add_reading p.metric_key (reading_of p) by_device)

  abbrev pub newest_of : Readings → Option Text → Option Text
  newest_of [] observed_at = observed_at
  newest_of ((metric, reading) ∷ readings) observed_at =
      newest_of readings (newest_timestamp observed_at reading.time)

  abbrev text_or_null : Option Text → Option Text
  text_or_null (some []) = none
  text_or_null time = time

  abbrev value_or : Option Reading → Option Number → Option Number
  value_or none fallback = fallback
  value_or (some reading) fallback = some reading.value

  -- `age <= BESS_STALE_AFTER_MS`, with the age infinite where no time was observed.
  abbrev pub is_recent : Option ℕ → ℕ → Bool
  is_recent none now = false
  is_recent (some time) now = leb (now - time) stale_after_ms

  -- The new fields of a battery.
  unfoldable pub observe : Readings → ℕ → Container → Container
  observe readings now c =
      let value_for =
        λ (metric : Text) (fallback : Option Number). value_or (get_key metric readings) fallback in
      let observed_at = newest_of readings (text_or_null c.observed_at) in
      let status_code = value_for (codes "status_code") c.status_code in
      let alarm_severity = value_for (codes "alarm_severity") c.alarm_severity in
      let soc = value_for (codes "soc") c.soc in
      let temp = value_for (codes "temperature") c.temp in
      record {
        id = c.id;
        soc = soc;
        soh = value_for (codes "soh") c.soh;
        temp = temp;
        power = value_for (codes "power_kw") c.power;
        fan_rpm = value_for (codes "fan_rpm") c.fan_rpm;
        status_code = status_code;
        alarm_severity = alarm_severity;
        severity =
            bess_health_level numbers
              (record {
                severity = none;
                status_code = status_code;
                alarm_severity = alarm_severity;
                soc = soc;
                temp = temp;
              })
              c.severity;
        observed_at = observed_at;
        data_state = some (if is_recent (parsed observed_at) now then live else stale);
      }

  abbrev pub observe_each : List (Text × Readings) → ℕ → List Container → List Container
  observe_each by_device now [] = []
  observe_each by_device now (c ∷ containers) =
      observe (readings_or_empty (get_key c.id by_device)) now c
      ∷ observe_each by_device now containers

  -- `applyBessTelemetrySnapshot`
  unfoldable pub apply_bess_telemetry_snapshot : List Container → List Point → ℕ → List Container
  unfolding points_by_device observe
  apply_bess_telemetry_snapshot containers points now =
      observe_each (points_by_device points []) now containers
