-- ===== src/Twin/Telemetry/Tests.antt =====
-- A batch of telemetry for a battery that was normal, in which its charge falls to 15.
use wind_solar_ess_agent.Base.{
  ℕ, ◌≤◌, ◌+◌, ◌≡◌, ◌≢◌, false, refl, Option, none, some, List, [], ◌∷◌, arith, inl, true, ◌⊎◌, map,
  length,
}
use wind_solar_ess_agent.Js.Text.{Text, codes, text_eq}
use wind_solar_ess_agent.Js.Map.{get_key, set_key}
use wind_solar_ess_agent.Js.Number.{integers}
use wind_solar_ess_agent.Twin.Health.{
  Readings, normal, critical, is_scene_id, bess_health_level, elevated_health_level, reported_level,
  health_rank,
}
use wind_solar_ess_agent.Twin.Health.Raised.{
  IsLevel, critical_sign, level_before, bess_health_level-critical,
}
use wind_solar_ess_agent.Twin.Telemetry.{
  Container, Point, apply_bess_telemetry_snapshot, points_by_device, reading_of, observe,
  newest_timestamp,
}
use wind_solar_ess_agent.Twin.Telemetry.Overview.{
  Overview, create_bess_runtime_overview, summarize_bess_runtime_snapshot,
}
use wind_solar_ess_agent.Twin.Telemetry.Snapshot.{
  AreObserved, apply_bess_telemetry_snapshot-AreObserved,
}
use wind_solar_ess_agent.Twin.Telemetry.History.{
  IsHistory, summarize_bess_runtime_snapshot-IsHistory,
}

-- A reading of dates that knows times of one digit.
abbrev parse_digit : Text → Option ℕ
parse_digit (c ∷ []) = some c
parse_digit _ = none

abbrev battery : Container integers parse_digit
battery = record {
  id = codes "A-01";
  soc = some (80, 0);
  soh = none;
  temp = some (28, 0);
  power = some (320, 0);
  fan_rpm = none;
  status_code = none;
  alarm_severity = none;
  severity = normal;
  observed_at = some (codes "1");
  data_state = none;
}

abbrev point : Text → ℕ → Text → Point integers parse_digit
point metric value time = record {
  device_id = some (codes "A-01");
  metric_key = metric;
  value = some (value, 0);
  time = some time;
}

abbrev points : List (Point integers parse_digit)
points = point (codes "soc") 15 (codes "5") ∷ point (codes "power_kw") 40 (codes "3") ∷ []

battery_after :
    let after = apply_bess_telemetry_snapshot integers parse_digit (battery ∷ []) points 60 in
    (map (λ c. c.severity) after ≡ critical ∷ [])
    × (map (λ c. c.observed_at) after ≡ some (codes "5") ∷ [])
unfolding apply_bess_telemetry_snapshot points_by_device reading_of observe newest_timestamp
    is_scene_id bess_health_level elevated_health_level reported_level health_rank get_key set_key
    text_eq
battery_after = (refl, refl)

apply_bess_telemetry_snapshot-AreObserved_example :
    AreObserved integers parse_digit
      (battery ∷ [])
      (apply_bess_telemetry_snapshot integers parse_digit (battery ∷ []) points 60)
apply_bess_telemetry_snapshot-AreObserved_example =
    apply_bess_telemetry_snapshot-AreObserved integers parse_digit (battery ∷ []) points 60
      (inl refl, tt)

abbrev overview : Overview integers parse_digit
overview = create_bess_runtime_overview integers parse_digit

summarize_bess_runtime_snapshot-IsHistory_example :
    let next =
      summarize_bess_runtime_snapshot integers parse_digit points overview (some (codes "7")) in
    IsHistory integers parse_digit next.history
    × (length next.history ≤ length overview.history + 1)
summarize_bess_runtime_snapshot-IsHistory_example =
    summarize_bess_runtime_snapshot-IsHistory integers parse_digit points overview
      (some (codes "7")) (omega arith, tt)

abbrev hot : Readings integers
hot = record {
  severity = some normal;
  status_code = some (1, 0);
  alarm_severity = none;
  soc = some (60, 0);
  temp = some (55, 0);
}

bess_health_level-critical_example :
    let level = bess_health_level integers hot normal in
    IsLevel level
    × (((critical_sign integers hot ≡ true) × (level ≡ critical))
        ⊎ ((critical_sign integers hot ≡ false)
            × ((level ≢ critical) ⊎ (level_before integers hot normal ≡ critical))))
bess_health_level-critical_example = bess_health_level-critical integers hot normal (inl refl)
