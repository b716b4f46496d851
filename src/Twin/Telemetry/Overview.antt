-- ===== src/Twin/Telemetry/Overview.antt =====
-- stationTelemetryClient.js: the overview of the station that a batch of telemetry brings up to date.
use wind_solar_ess_agent.Base.{
  ℕ, ◌-◌, Bool, true, false, Option, none, some, List, [], ◌∷◌, length, drop, ltb, if◌then◌else◌,
}
use wind_solar_ess_agent.Js.Text.{Text, codes, text_eq}
use wind_solar_ess_agent.Js.Map.{get_key}
use wind_solar_ess_agent.Js.Number.{Numbers}
use wind_solar_ess_agent.Twin.Telemetry.{
  Point, Readings, parsed, newest_timestamp, reading_of, points_by_device, stale_after_ms,
  history_limit,
}

-- `===` on texts that may be missing.
abbrev pub same_time : Option Text → Option Text → Bool
same_time none none = true
same_time (some a) (some b) = text_eq a b
same_time _ _ = false

module _ (numbers : Numbers) (parse_date : Text → Option ℕ) where
  open numbers use {Number, max, min, add, negate, divide, of_ℕ}

  pub record HistoryPoint : Type 0 where
    pub timestamp : Option Text
    pub net_power_mw : Number
    pub discharging_power_mw : Number
    pub charging_power_mw : Number
    pub average_soc : Option Number

  -- The overview; its `source` is always the same. `none` stands for `null`.
  pub record Overview : Type 0 where
    pub status : Text
    pub updated_at : Option Text
    pub error : Text
    pub device_count : ℕ
    pub net_power_kw : Option Number
    pub charging_power_kw : Option Number
    pub discharging_power_kw : Option Number
    pub average_soc : Option Number
    pub history : List HistoryPoint

  abbrev pub create_bess_runtime_overview : Overview
  create_bess_runtime_overview = record {
    status = codes "loading";
    updated_at = none;
    error = [];
    device_count = 0;
    net_power_kw = none;
    charging_power_kw = none;
    discharging_power_kw = none;
    average_soc = none;
    history = [];
  }

  -- `updatedAt` after the loop: the times of the points that are not skipped.
  abbrev pub newest_update : List (Point numbers parse_date) → Option Text → Option Text
  newest_update [] updated_at = updated_at
  newest_update (p ∷ points) updated_at = elim (reading_of numbers parse_date p) [
    | none ↦ newest_update points updated_at
    | some (id, reading) ↦
        newest_update points (newest_timestamp numbers parse_date updated_at reading.time)
  ]

  -- The values of one metric, of the devices that have it.
  abbrev pub metric_values : Text → List (Text × Readings numbers parse_date) → List Number
  metric_values metric [] = []
  metric_values metric ((id, readings) ∷ devices) =
      let rest = metric_values metric devices in
      elim (get_key metric readings) [ none ↦ rest | some reading ↦ reading.value ∷ rest ]

  abbrev total : (Number → Number) → Number → List Number → Number
  total part sum [] = sum
  total part sum (value ∷ values) = total part (add sum (part value)) values

  -- `Math.abs(Math.min(0, value))`
  abbrev drawn : Number → Number
  drawn value = negate (min (of_ℕ 0) value)

  abbrev average_or : List Number → Option Number → Option Number
  average_or [] previous = previous
  average_or (v ∷ vs) previous =
      some (divide (total (λ s. s) (of_ℕ 0) (v ∷ vs)) (of_ℕ (length (v ∷ vs))))

  -- The new point takes the place of a last one with the same time.
  unfoldable pub push_point : List HistoryPoint → HistoryPoint → List HistoryPoint
  push_point [] point = point ∷ []
  push_point (last ∷ []) point =
      if same_time last.timestamp point.timestamp then point ∷ [] else last ∷ point ∷ []
  push_point (p ∷ q ∷ history) point = p ∷ push_point (q ∷ history) point

  -- `history.slice(-BESS_RUNTIME_HISTORY_LIMIT)`
  abbrev pub newest_points : List HistoryPoint → List HistoryPoint
  newest_points history = drop (length history - history_limit) history

  abbrev timestamp_of : Option ℕ → Option Text → Option Text → Option Text
  timestamp_of none pushed_at updated_at = updated_at
  timestamp_of (some time) pushed_at updated_at = pushed_at

  abbrev pub live_overview :
      List Number → List Number → ℕ → Option Text → Overview → Option Text → Overview
  live_overview powers soc_values device_count updated_at previous pushed_at =
      let net = total (λ p. p) (of_ℕ 0) powers in
      let discharging = total (λ p. max (of_ℕ 0) p) (of_ℕ 0) powers in
      let charging = total drawn (of_ℕ 0) powers in
      let average = average_or soc_values previous.average_soc in
      let point : HistoryPoint = record {
        timestamp = timestamp_of (parsed numbers parse_date pushed_at) pushed_at updated_at;
        net_power_mw = divide net (of_ℕ 1000);
        discharging_power_mw = divide discharging (of_ℕ 1000);
        charging_power_mw = divide charging (of_ℕ 1000);
        average_soc = average;
      } in
      record {
        status = codes "live";
        updated_at = updated_at;
        error = [];
        device_count = device_count;
        net_power_kw = some net;
        charging_power_kw = some charging;
        discharging_power_kw = some discharging;
        average_soc = average;
        history = newest_points (push_point previous.history point);
      }

  abbrev pub nothing_measured : List Number → List Number → Bool
  nothing_measured [] [] = true
  nothing_measured _ _ = false

  -- `summarizeBessRuntimeSnapshot`
  unfoldable pub summarize_bess_runtime_snapshot :
      List (Point numbers parse_date) → Overview → Option Text → Overview
  unfolding points_by_device
  summarize_bess_runtime_snapshot points previous pushed_at =
      let by_device = points_by_device numbers parse_date points [] in
      let powers = metric_values (codes "power_kw") by_device in
      let soc_values = metric_values (codes "soc") by_device in
      if nothing_measured powers soc_values
      then previous
      else live_overview powers soc_values (length by_device)
          (newest_update points previous.updated_at) previous pushed_at

  abbrev age_over : Option ℕ → ℕ → Bool
  age_over none now = false
  age_over (some time) now = ltb stale_after_ms (now - time)

  -- `markBessRuntimeOverviewStale`
  unfoldable pub mark_bess_runtime_overview_stale : Overview → ℕ → Overview
  mark_bess_runtime_overview_stale overview now =
      if age_over (parsed numbers parse_date overview.updated_at) now
      then record overview { status = codes "stale" }
      else overview
