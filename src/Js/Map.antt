-- ===== src/Js/Map.antt =====
-- `Map` with texts as keys, in the order of insertion.
use wind_solar_ess_agent.Base.{◌≡◌, refl, Option, none, some, List, [], ◌∷◌, arith, if◌then◌else◌}
use wind_solar_ess_agent.Js.Text.{Text, text_eq, text_eq_iff}

module _ {ℓ} {V : Type ℓ} where
  -- `map.get(key)`, with `none` for `undefined`.
  unfoldable pub get_key : Text → List (Text × V) → Option V
  get_key key [] = none
  get_key key ((k, value) ∷ entries) =
      let rest = get_key key entries in if text_eq k key then some value else rest

  -- `map.set(key, value)`, which keeps the place of a key.
  unfoldable pub set_key : Text → V → List (Text × V) → List (Text × V)
  set_key key value [] = (key, value) ∷ []
  set_key key value ((k, old) ∷ entries) =
      let rest = set_key key value entries in
      if text_eq k key then (key, value) ∷ entries else (k, old) ∷ rest

  pub get_key-set_key :
      (i j : Text) (value : V) (entries : List (Text × V))
      → get_key j (set_key i value entries)
        ≡ (if text_eq i j then some value else get_key j entries)
  unfolding get_key set_key
  get_key-set_key i j value [] = refl
  get_key-set_key i j value ((k, old) ∷ entries) =
      ground (
        arith,
        get_key-set_key i j value entries,
        text_eq_iff i j,
        text_eq_iff k i,
        text_eq_iff k j,
      )
