-- ===== src/Twin/Telemetry/History.antt =====
-- The history of the overview (stationTelemetryClient.js, `summarizeBessRuntimeSnapshot`).
use wind_solar_ess_agent.Base.{
  ℕ, zero, suc, ◌+◌, ◌-◌, ◌≤◌, ◌≡◌, refl, true, false, Option, none, some, ap, sym, ◌∙◌, List, [],
  ◌∷◌, arith, inl, inr, Bool-cases, length, drop,
}
use wind_solar_ess_agent.Js.Text.{Text, codes, text_eq→eq}
use wind_solar_ess_agent.Js.Number.{Numbers}
use wind_solar_ess_agent.Twin.Telemetry.{Point, history_limit, points_by_device}
use wind_solar_ess_agent.Twin.Telemetry.Overview.{
  Overview, HistoryPoint, same_time, push_point, newest_points, summarize_bess_runtime_snapshot,
  nothing_measured, metric_values,
}

same_time→eq : (a b : Option Text) → same_time a b ≡ true → a ≡ b
same_time→eq none none h = refl
same_time→eq (some a) (some b) h = ap some (text_eq→eq a b h)
same_time→eq none (some b) h = cc
same_time→eq (some a) none h = cc

module _ (numbers : Numbers) (parse_date : Text → Option ℕ) where
  -- No two neighbours have the same time.
  abbrev NoRepeat : List (HistoryPoint numbers parse_date) → Type 0
  NoRepeat [] = Unit
  NoRepeat (p ∷ []) = Unit
  NoRepeat (p ∷ q ∷ history) = (same_time p.timestamp q.timestamp ≡ false) × NoRepeat (q ∷ history)

  NoRepeat-rest :
      (p : HistoryPoint numbers parse_date) (history : List (HistoryPoint numbers parse_date))
      → NoRepeat (p ∷ history)
      → NoRepeat history
  NoRepeat-rest p [] h = tt
  NoRepeat-rest p (q ∷ history) (apart, h) = h

  drop-NoRepeat :
      (n : ℕ) (history : List (HistoryPoint numbers parse_date))
      → NoRepeat history
      → NoRepeat (drop n history)
  drop-NoRepeat zero history h = h
  drop-NoRepeat (suc n) [] h = tt
  drop-NoRepeat (suc n) (p ∷ history) h = drop-NoRepeat n history (NoRepeat-rest p history h)

  length-drop :
      (n : ℕ) (history : List (HistoryPoint numbers parse_date))
      → length (drop n history) ≡ length history - n
  length-drop zero history = omega arith
  length-drop (suc n) [] = omega arith
  length-drop (suc n) (p ∷ history) = omega (arith, length-drop n history)

  push_point-NoRepeat :
      (history : List (HistoryPoint numbers parse_date)) (point : HistoryPoint numbers parse_date)
      → NoRepeat history
      → NoRepeat (push_point numbers parse_date history point)
  unfolding push_point
  push_point-NoRepeat [] point h = tt
  push_point-NoRepeat (last ∷ []) point h =
      elim (Bool-cases (same_time last.timestamp point.timestamp)) [
        | inl same ↦ rw same tt
        | inr other ↦ rw other (other, tt)
      ]
  push_point-NoRepeat (p ∷ last ∷ []) point (apart, h) =
      elim (Bool-cases (same_time last.timestamp point.timestamp)) [
        | inl same ↦ rw same (
          ap (same_time p.timestamp) (sym (same_time→eq last.timestamp point.timestamp same))
              ∙ apart,
          tt,
        )
        | inr other ↦ rw other (apart, (other, tt))
      ]
  push_point-NoRepeat (p ∷ q ∷ r ∷ history) point (apart, h) =
      (apart, push_point-NoRepeat (q ∷ r ∷ history) point h)

  -- At most 360 points, of which no two neighbours have the same time.
  abbrev pub IsHistory : List (HistoryPoint numbers parse_date) → Type 0
  IsHistory history = (length history ≤ history_limit) × NoRepeat history

  length-push_point :
      (history : List (HistoryPoint numbers parse_date)) (point : HistoryPoint numbers parse_date)
      → length (push_point numbers parse_date history point) ≤ length history + 1
  unfolding push_point
  length-push_point [] point = omega arith
  length-push_point (last ∷ []) point =
      elim (Bool-cases (same_time last.timestamp point.timestamp)) [
        | inl same ↦ rw same (omega arith)
        | inr other ↦ rw other (omega arith)
      ]
  length-push_point (p ∷ q ∷ history) point = omega (arith, length-push_point (q ∷ history) point)

  newest_points-IsHistory :
      (history : List (HistoryPoint numbers parse_date)) (point : HistoryPoint numbers parse_date)
      → IsHistory history
      → let next = newest_points numbers parse_date (push_point numbers parse_date history point) in
        IsHistory next × (length next ≤ length history + 1)
  newest_points-IsHistory history point (few, apart) =
      let pushed = push_point numbers parse_date history point in
      let cut = length-drop (length pushed - history_limit) pushed in
      let more = length-push_point history point in
      (
        (
          omega (arith, cut),
          drop-NoRepeat (length pushed - history_limit) pushed
              (push_point-NoRepeat history point apart),
        ),
        omega (arith, cut, more),
      )

  -- The overview keeps its history so that it has at most 360 points, no two neighbours of which
  -- have the same time, whatever a batch holds and whenever it was sent; and a batch adds at most
  -- one point.
  pub summarize_bess_runtime_snapshot-IsHistory :
      (points : List (Point numbers parse_date)) (previous : Overview numbers parse_date)
      (pushed_at : Option Text)
      → IsHistory previous.history
      → let next = summarize_bess_runtime_snapshot numbers parse_date points previous pushed_at in
        IsHistory next.history × (length next.history ≤ length previous.history + 1)
  unfolding summarize_bess_runtime_snapshot
  summarize_bess_runtime_snapshot-IsHistory points previous pushed_at h =
      let by_device = points_by_device numbers parse_date points [] in
      let powers = metric_values numbers parse_date (codes "power_kw") by_device in
      let soc_values = metric_values numbers parse_date (codes "soc") by_device in
      elim (Bool-cases (nothing_measured numbers parse_date powers soc_values)) [
        | inl nothing ↦ rw nothing (h, omega arith)
        | inr some_measured ↦ rw some_measured (newest_points-IsHistory previous.history _ h)
      ]
