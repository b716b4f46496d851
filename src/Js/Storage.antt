-- ===== src/Js/Storage.antt =====
-- `sessionStorage`: the items of a page, each a text under a key. The newest item stands first.
use wind_solar_ess_agent.Base.{
  ◌≡◌, refl, Option, none, some, List, [], ◌∷◌, inl, inr, Bool-cases, if◌then◌else◌,
}
use wind_solar_ess_agent.Js.Text.{Text, text_eq, text_eq_refl}

abbrev pub Storage : Type 0
Storage = List (Text × Text)

-- `none` stands for `null`.
unfoldable pub get_item : Text → Storage → Option Text
get_item key [] = none
get_item key ((k, value) ∷ items) =
    let rest = get_item key items in if text_eq k key then some value else rest

unfoldable pub remove_item : Text → Storage → Storage
remove_item key [] = []
remove_item key ((k, value) ∷ items) =
    let rest = remove_item key items in if text_eq k key then rest else (k, value) ∷ rest

unfoldable pub set_item : Text → Text → Storage → Storage
unfolding remove_item
set_item key value items = (key, value) ∷ remove_item key items

pub get_item-set_item :
    (key value : Text) (items : Storage) → get_item key (set_item key value items) ≡ some value
unfolding get_item set_item
get_item-set_item key value items = rw (text_eq_refl key)

pub get_item-remove_item :
    (key : Text) (items : Storage) → get_item key (remove_item key items) ≡ none
unfolding get_item remove_item
get_item-remove_item key [] = refl
get_item-remove_item key ((k, value) ∷ items) = elim (Bool-cases (text_eq k key)) [
  | inl same ↦ rw same (get_item-remove_item key items)
  | inr other ↦ rw other (rw other (get_item-remove_item key items))
]
