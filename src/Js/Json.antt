-- ===== src/Js/Json.antt =====
-- The values that `JSON.parse` yields, and how the program reads them: a missing key and `null`
-- are both replaced by `??`.
use text.Mathlib.Text.{◌==◌ as str_eq}
use wind_solar_ess_agent.Base.{
  ℕ, ◌≡◌, refl, Bool, true, false, not, Option, none, some, [], ◌++◌, String, ◌==◌, if◌then◌else◌,
}
use wind_solar_ess_agent.Js.Text.{Text, codes, decimal}

mutual
  pub data Json : Type 0 where
    null : Json
    bool : Bool → Json
    num : ℕ → Json
    str : Text → Json
    arr : Items → Json
    obj : Fields → Json

  pub data Items : Type 0 where
    nil : Items
    cons : Json → Items → Items

  pub data Fields : Type 0 where
    end : Fields
    field : String → Json → Fields → Fields

-- `o.key`; `none` stands for `undefined`.
unfoldable pub get : String → Fields → Option Json
get key end = none
get key (field k v fs) = if str_eq k key then some v else get key fs

-- The left side of `??`: `none` for `undefined` and for `null`.
abbrev pub nullish : Option Json → Option Json
nullish none = none
nullish (some null) = none
nullish (some v) = some v

-- `Boolean(v)`, with `none` for `undefined`.
abbrev pub truthy : Option Json → Bool
truthy none = false
truthy (some null) = false
truthy (some (bool b)) = b
truthy (some (num n)) = not (n == 0)
truthy (some (str [])) = false
truthy (some _) = true

-- `String(v)`. The items of an array are joined by commas, with nothing for `null`.
unfoldable mutual
  pub to_string : Json → Text
  to_string null = codes "null"
  to_string (bool true) = codes "true"
  to_string (bool false) = codes "false"
  to_string (num n) = decimal n
  to_string (str s) = s
  to_string (arr xs) = join_items xs
  to_string (obj fs) = codes "[object Object]"

  pub join_items : Items → Text
  join_items nil = []
  join_items (cons null xs) = join_more xs
  join_items (cons x xs) = to_string x ++ join_more xs

  pub join_more : Items → Text
  join_more nil = []
  join_more (cons null xs) = codes "," ++ join_more xs
  join_more (cons x xs) = codes "," ++ (to_string x ++ join_more xs)

-- `String(v ?? fallback)`.
unfoldable pub string_or : Text → Option Json → Text
unfolding to_string
string_or fallback v = elim (nullish v) [ none ↦ fallback | some j ↦ to_string j ]

to_string_test :
    to_string (arr (cons (num 1) (cons null (cons (str (codes "x")) nil)))) ≡ codes "1,,x"
unfolding to_string decimal
to_string_test = refl

get_test : get "b" (field "a" null (field "b" (num 3) end)) ≡ some (num 3)
unfolding get
get_test = refl
