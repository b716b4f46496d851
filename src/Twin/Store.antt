-- ===== src/Twin/Store.antt =====
-- store.js: the state of the digital twin and its actions, and what it computes from temperatures
-- and ids. Numbers and `Date.parse` are parameters; indices and times are naturals. zustand's `set`
-- is the application of the action to the state; the log entries are left out, and so are
-- the timeline's segments, which no action changes.
mod Tests
pub mod Actions
use wind_solar_ess_agent.Base.{
  ℕ, suc, ◌+◌, ◌-◌, ◌*◌, Bool, true, false, not, ◌&&◌, ◌||◌, Option, none, some, List, [], ◌∷◌, leb,
  ◌==◌, if◌then◌else◌,
}
use Prim.Native.Nat.{min}
use wind_solar_ess_agent.Js.Text.{Text, codes, text_eq, starts_with}
use wind_solar_ess_agent.Js.Json.{Json}
use wind_solar_ess_agent.Js.Map.{get_key, set_key}
use wind_solar_ess_agent.Js.Number.{Numbers}
use wind_solar_ess_agent.Twin.Telemetry.{Container}
use wind_solar_ess_agent.Twin.Telemetry.Overview.{Overview, create_bess_runtime_overview}

-- A whole number; `negsuc n` is -(n + 1).
pub data ℤ : Type 0 where
  pos : ℕ → ℤ
  negsuc : ℕ → ℤ

abbrev is_digit : ℕ → Bool
is_digit c = leb 48 c && leb c 57

-- `/^A-\d{2}/.exec(deviceId || "")?.[0] || null`
unfoldable pub cluster_id_for_device : Text → Option Text
cluster_id_for_device (a ∷ dash ∷ d ∷ e ∷ rest) =
    if text_eq (a ∷ dash ∷ []) (codes "A-") && is_digit d && is_digit e
    then some (a ∷ dash ∷ d ∷ e ∷ [])
    else none
cluster_id_for_device _ = none

-- `packageMatch ? Number(packageMatch[1]) - 1 : null`, at the first place where `-P` and two digits
-- stand. `-P00` gives -1.
abbrev digits_value : ℕ → ℕ → ℤ
digits_value d e = elim (10 * (d - 48) + (e - 48)) [ ℕ.zero ↦ negsuc 0 | suc n ↦ pos n ]

abbrev package_here : Text → Option ℤ
package_here (dash ∷ p ∷ d ∷ e ∷ rest) =
    if text_eq (dash ∷ p ∷ []) (codes "-P") && is_digit d && is_digit e
    then some (digits_value d e)
    else none
package_here _ = none

unfoldable pub package_index_of : Text → Option ℤ
package_index_of [] = none
package_index_of (c ∷ t) =
    let later = package_index_of t in
    elim (package_here (c ∷ t)) [ none ↦ later | some index ↦ some index ]

-- `Math.max(0, Math.min(total, count))`
abbrev pub clamp_count : ℕ → ℤ → ℕ
clamp_count total (pos count) = min total count
clamp_count total (negsuc count) = 0

-- `!layers[key]`
abbrev toggled : Option Bool → Bool
toggled none = true
toggled (some shown) = not shown

module _ (numbers : Numbers) (parse_date : Text → Option ℕ) where
  open numbers use {Number, less, at_most, max, min as min_number, of_ℕ}

  -- `severityForTemp`, by the bands of `ALARM_BANDS`; a temperature in no band is in the last.
  unfoldable pub severity_for_temp : Number → Text
  severity_for_temp temp =
      if less temp (of_ℕ 40)
      then codes "normal"
      else if at_most (of_ℕ 40) temp && less temp (of_ℕ 50)
      then codes "warning"
      else codes "critical"

  pub record State : Type 0 where
    pub containers : List (Container numbers parse_date)
    pub runtime_overview : Overview numbers parse_date
    pub runtime_refresh_nonce : ℕ
    pub active_view : ℕ
    pub selected_device : Option Text
    pub hover_device : Option Text
    pub selected_package_index : Option ℤ
    pub cooling_mode : Text
    pub debug_logs_enabled : Bool
    pub loading_total : ℕ
    pub loaded_resources : ℕ
    pub scene_loading : Bool
    pub scene_ready : Bool
    pub loading_overlay_visible : Bool
    pub loading_started_at : ℕ
    pub min_loading_duration_ms : ℕ
    pub temp_range : Number × Number
    pub playing : Bool
    pub speed : Text
    pub timeline_progress : Number
    pub alerts : List Json
    pub layers : List (Text × Bool)
    pub reset_camera_nonce : ℕ
    pub camera_preset : Option Json
    pub camera_user_control_nonce : ℕ
    pub settings_open : Bool

  -- The actions with their arguments; `start_scene_loading` with the time, in milliseconds.
  pub data Action : Type 0 where
    replace_containers : List (Container numbers parse_date) → Action
    replace_runtime_overview : Overview numbers parse_date → Action
    refresh : Action
    set_active_view : ℕ → Action
    set_selected_device : Option Text → Action
    set_hover_device : Option Text → Action
    set_selected_package_index : Option ℤ → Action
    set_cooling_mode : Text → Action
    set_debug_logs_enabled : Bool → Action
    start_scene_loading : ℕ → Action
    set_loaded_resources : ℤ → Action
    set_scene_ready : Bool → Action
    finish_scene_loading : Action
    hide_loading_overlay : Action
    set_temp_range : Number × Number → Action
    set_playing : Bool → Action
    toggle_play : Action
    set_speed : Text → Action
    set_timeline_progress : Number → Action
    replace_alerts : List Json → Action
    toggle_layer : Text → Action
    reset_camera : Option Json → Action
    mark_camera_user_controlled : Action
    toggle_settings : Action

  abbrev package_of : Option Text → Option ℤ
  package_of none = none
  package_of (some id) = package_index_of id

  unfoldable pub run_action : Action → State → State
  run_action (replace_containers containers) s = record s { containers = containers }
  run_action (replace_runtime_overview overview) s = record s { runtime_overview = overview }
  run_action refresh s = record s { runtime_refresh_nonce = s.runtime_refresh_nonce + 1 }
  run_action (set_active_view n) s = record s {
    active_view = n;
    selected_package_index = if n == 0 then s.selected_package_index else none;
  }
  run_action (set_selected_device id) s = record s {
    selected_device = id;
    selected_package_index = package_of id;
  }
  run_action (set_hover_device id) s = record s { hover_device = id }
  run_action (set_selected_package_index index) s = record s { selected_package_index = index }
  run_action (set_cooling_mode mode) s = record s { cooling_mode = mode }
  run_action (set_debug_logs_enabled enabled) s = record s { debug_logs_enabled = enabled }
  run_action (start_scene_loading now) s = record s {
    loaded_resources = 0;
    scene_loading = true;
    scene_ready = false;
    loading_overlay_visible = true;
    loading_started_at = now;
  }
  run_action (set_loaded_resources count) s = record s {
    loaded_resources = clamp_count s.loading_total count;
  }
  run_action (set_scene_ready ready) s = record s { scene_ready = ready }
  run_action finish_scene_loading s = record s { scene_loading = false }
  run_action hide_loading_overlay s = record s { loading_overlay_visible = false }
  run_action (set_temp_range range) s = record s { temp_range = range }
  run_action (set_playing playing) s = record s { playing = playing }
  run_action toggle_play s = record s { playing = not s.playing }
  run_action (set_speed speed) s = record s { speed = speed }
  run_action (set_timeline_progress p) s = record s {
    timeline_progress = max (of_ℕ 0) (min_number (of_ℕ 1) p);
  }
  run_action (replace_alerts alerts) s = record s { alerts = alerts }
  run_action (toggle_layer key) s = record s {
    layers = set_key key (toggled (get_key key s.layers)) s.layers;
  }
  run_action (reset_camera preset) s = record s {
    reset_camera_nonce = s.reset_camera_nonce + 1;
    camera_preset = preset;
  }
  run_action mark_camera_user_controlled s = record s {
    camera_user_control_nonce = s.camera_user_control_nonce + 1;
  }
  run_action toggle_settings s = record s { settings_open = not s.settings_open }

  unfoldable pub run_actions : List Action → State → State
  run_actions [] s = s
  run_actions (action ∷ actions) s = run_actions actions (run_action action s)

  -- The state that the store is made with: the batteries are those of the layout, and `0.5` and the
  -- build's mode are arguments.
  abbrev pub initial_state : List (Container numbers parse_date) → Number → Bool → State
  initial_state containers half development = record {
    containers = containers;
    runtime_overview = create_bess_runtime_overview numbers parse_date;
    runtime_refresh_nonce = 0;
    active_view = 0;
    selected_device = none;
    hover_device = none;
    selected_package_index = none;
    cooling_mode = codes "auto";
    debug_logs_enabled = development;
    loading_total = 6;
    loaded_resources = 0;
    scene_loading = true;
    scene_ready = false;
    loading_overlay_visible = true;
    loading_started_at = 0;
    min_loading_duration_ms = 1500;
    temp_range = (of_ℕ 10, of_ℕ 60);
    playing = true;
    speed = codes "1x";
    timeline_progress = half;
    alerts = [];
    layers = (codes "heatmap", true) ∷ (codes "labels", true) ∷ [];
    reset_camera_nonce = 0;
    camera_preset = none;
    camera_user_control_nonce = 0;
    settings_open = false;
  }
