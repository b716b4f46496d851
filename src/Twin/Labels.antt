-- ===== src/Twin/Labels.antt =====
-- digitalTwinAdapters.js, `resolveSocLabelLayout` with the functions that it calls, and the levels
-- that it reads: which labels of the batteries are shown, and where. Numbers are a parameter.
mod Tests
pub mod Accepted
pub mod Shown
use wind_solar_ess_agent.Base.{
  ℕ, ◌-◌, Bool, true, false, not, ◌&&◌, ◌||◌, Option, none, some, List, [], ◌∷◌, ◌++◌, any, length,
  leb, ltb, ◌==◌, if◌then◌else◌,
}
use wind_solar_ess_agent.Js.Text.{Text, codes, text_eq}
use wind_solar_ess_agent.Js.Map.{get_key, set_key}
use wind_solar_ess_agent.Js.Number.{Numbers}

pub data SocLevel : Type 0 where
  normal warning critical offline : SocLevel

pub data Lod : Type 0 where
  compact standard detail : Lod

abbrev is_critical : SocLevel → Bool
is_critical SocLevel.critical = true
is_critical _ = false

-- `["critical", "warning"].includes(level)`
abbrev is_alarm : SocLevel → Bool
is_alarm SocLevel.critical = true
is_alarm SocLevel.warning = true
is_alarm _ = false

module _ (numbers : Numbers) where
  open numbers use {Number, less, at_most, add, negate, divide, round, of_ℕ, is_finite}

  -- What `socLevelFor` reads of a device; `updated_at` is the parsed time, `none` if it is no time.
  pub record Device : Type 0 where
    pub updated_at : Option ℕ
    pub connection_state : Text
    pub alarm_level : Text
    pub soc : Number

  abbrev is_stale : Option ℕ → ℕ → Bool
  is_stale none now = false
  is_stale (some updated_at) now = ltb 30000 (now - updated_at)

  unfoldable pub soc_level_for : Option Device → ℕ → SocLevel
  soc_level_for none now = SocLevel.offline
  soc_level_for (some device) now =
      if text_eq device.connection_state (codes "offline") || is_stale device.updated_at now
      then SocLevel.offline
      else if text_eq device.alarm_level (codes "critical") || less device.soc (of_ℕ 20)
      then SocLevel.critical
      else if text_eq device.alarm_level (codes "warning") || less device.soc (of_ℕ 50)
      then SocLevel.warning
      else SocLevel.normal

  unfoldable pub lod_for_distance : Number → Lod
  lod_for_distance distance =
      if less (of_ℕ 80) distance
      then Lod.compact
      else if at_most (of_ℕ 35) distance
      then Lod.standard
      else Lod.detail

  -- A label that could be shown; `soc` is `Number(item.soc)`.
  pub record Candidate : Type 0 where
    pub id : Text
    pub occluded : Bool
    pub selected : Bool
    pub hovered : Bool
    pub level : SocLevel
    pub soc : Number
    pub distance : Number
    pub x : Number
    pub y : Number
    pub width : Number
    pub height : Number

  abbrev level_priority : SocLevel → ℕ
  level_priority SocLevel.critical = 400
  level_priority SocLevel.warning = 300
  level_priority SocLevel.offline = 100
  level_priority SocLevel.normal = 200

  unfoldable pub label_priority : Candidate → ℕ
  label_priority item =
      if item.selected then 500 else if item.hovered then 450 else level_priority item.level

  unfoldable pub rectangles_overlap : Candidate → Candidate → Bool
  rectangles_overlap left right =
      less left.x (add right.x right.width)
      && less right.x (add left.x left.width)
      && less left.y (add right.y right.height)
      && less right.y (add left.y left.height)

  -- An entry of `items`; its `offsetY` is always 0.
  pub record Label : Type 0 where
    pub visible : Bool
    pub offset_x : Number

  pub record Cluster : Type 0 where
    pub count : ℕ
    pub average_soc : Number
    pub alarm_count : ℕ

  -- A candidate that is moved by `offset_x`.
  pub record Placement : Type 0 where
    pub item : Candidate
    pub offset_x : Number

  pub record Layout : Type 0 where
    pub items : List (Text × Label)
    pub cluster : Option Cluster

  -- The variables of the loop.
  pub record Placing : Type 0 where
    pub items : List (Text × Label)
    pub accepted : List Placement

  abbrev pub hidden : Label
  hidden = record { visible = false; offset_x = of_ℕ 0 }

  abbrev pub is_usable : Candidate → Bool
  is_usable item = not item.occluded || item.selected || is_critical item.level

  abbrev pub usable_of : List Candidate → List Candidate
  usable_of [] = []
  usable_of (c ∷ cs) = let rest = usable_of cs in if is_usable c then c ∷ rest else rest

  abbrev pub all_far : Number → List Candidate → Bool
  all_far cluster_distance [] = true
  all_far cluster_distance (c ∷ cs) =
      at_most cluster_distance c.distance && all_far cluster_distance cs

  abbrev soc_values : List Candidate → List Number
  soc_values [] = []
  soc_values (c ∷ cs) = let rest = soc_values cs in if is_finite c.soc then c.soc ∷ rest else rest

  abbrev sum_from : Number → List Number → Number
  sum_from sum [] = sum
  sum_from sum (value ∷ values) = sum_from (add sum value) values

  unfoldable pub average_soc : List Number → Number
  average_soc [] = of_ℕ 0
  average_soc (v ∷ vs) = round (divide (sum_from (of_ℕ 0) (v ∷ vs)) (of_ℕ (length (v ∷ vs))))

  abbrev alarm_count : List Candidate → ℕ
  alarm_count [] = 0
  alarm_count (c ∷ cs) = let rest = alarm_count cs in if is_alarm c.level then ℕ.suc rest else rest

  abbrev pub hide_all : List Candidate → List (Text × Label) → List (Text × Label)
  hide_all [] items = items
  hide_all (c ∷ cs) items = hide_all cs (set_key c.id hidden items)

  -- Whether the comparison of the sort puts the second label in front of the first.
  abbrev pub comes_later : Candidate → Candidate → Bool
  comes_later left right =
      ltb (label_priority left) (label_priority right)
      || (label_priority left == label_priority right && less right.distance left.distance)

  abbrev pub insert_label : Candidate → List Candidate → List Candidate
  insert_label c [] = c ∷ []
  insert_label c (d ∷ ds) =
      let later = insert_label c ds in if comes_later c d then d ∷ later else c ∷ d ∷ ds

  abbrev pub sort_labels : List Candidate → List Candidate
  sort_labels [] = []
  sort_labels (c ∷ cs) = insert_label c (sort_labels cs)

  unfoldable pub offsets_for : Candidate → List Number
  offsets_for item =
      if leb 400 (label_priority item)
      then of_ℕ 0 ∷ of_ℕ 64 ∷ negate (of_ℕ 64) ∷ of_ℕ 128 ∷ negate (of_ℕ 128) ∷ []
      else if leb 300 (label_priority item)
      then of_ℕ 0 ∷ of_ℕ 64 ∷ negate (of_ℕ 64) ∷ []
      else of_ℕ 0 ∷ []

  abbrev pub moved : Candidate → Number → Placement
  moved c offset = record { item = record c { x = add c.x offset }; offset_x = offset }

  abbrev pub overlaps_any : Placement → List Placement → Bool
  overlaps_any candidate accepted =
      any (λ (placed : Placement). rectangles_overlap candidate.item placed.item) accepted

  unfoldable pub find_placement : Candidate → List Number → List Placement → Option Placement
  find_placement c [] accepted = none
  find_placement c (offset ∷ offsets) accepted =
      let rest = find_placement c offsets accepted in
      if overlaps_any (moved c offset) accepted then rest else some (moved c offset)

  abbrev pub accept : Candidate → Option Placement → Placing → Placing
  accept c none p = record p { items = set_key c.id hidden p.items }
  accept c (some placement) p = record {
    items = set_key c.id (record { visible = true; offset_x = placement.offset_x }) p.items;
    accepted = p.accepted ++ placement ∷ [];
  }

  -- The body of the loop.
  unfoldable pub place : ℕ → Candidate → Placing → Placing
  place max_visible c p =
      if leb max_visible (length p.accepted)
      then record p { items = set_key c.id hidden p.items }
      else accept c (find_placement c (offsets_for c) p.accepted) p

  unfoldable pub place_all : ℕ → List Candidate → Placing → Placing
  unfolding place
  place_all max_visible [] p = p
  place_all max_visible (c ∷ cs) p = place_all max_visible cs (place max_visible c p)

  abbrev pub hide_unset : Candidate → Option Label → List (Text × Label) → List (Text × Label)
  hide_unset c none items = set_key c.id hidden items
  hide_unset c (some label) items = items

  -- The last loop.
  unfoldable pub hide_rest : List Candidate → List (Text × Label) → List (Text × Label)
  hide_rest [] items = items
  hide_rest (c ∷ cs) items = hide_rest cs (hide_unset c (get_key c.id items) items)

  abbrev pub placed : List Candidate → ℕ → Placing
  placed candidates max_visible =
      place_all max_visible (sort_labels (usable_of candidates))
        (record { items = []; accepted = [] })

  -- `resolveSocLabelLayout`
  unfoldable pub resolve_soc_label_layout : List Candidate → ℕ → Number → Layout
  unfolding place_all hide_rest average_soc
  resolve_soc_label_layout candidates max_visible cluster_distance =
      let usable = usable_of candidates in
      if leb 4 (length usable) && all_far cluster_distance usable
      then record {
        items = hide_all candidates [];
        cluster = some (record {
          count = length usable;
          average_soc = average_soc (soc_values usable);
          alarm_count = alarm_count usable;
        });
      }
      else record {
        items = hide_rest candidates (placed candidates max_visible).items;
        cluster = none;
      }
