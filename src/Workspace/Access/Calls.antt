-- ===== src/Workspace/Access/Calls.antt =====
-- A call of the station's API whose token is refused (workspace/station-api.ts, `fetchStationApi`).
use wind_solar_ess_agent.Base.{
  ◌≡◌, refl, Option, none, some, [], ◌∷◌, ◌==◌, inl, inr, Bool-cases, Option-cases, if◌then◌else◌,
}
use wind_solar_ess_agent.Js.Text.{Text}
use wind_solar_ess_agent.Js.Json.{Json}
use wind_solar_ess_agent.Js.Storage.{Storage, get_item-remove_item}
use wind_solar_ess_agent.Workspace.Access.{
  Server, Response, World, Result, thrown, login_required, network_error, stored_token,
  clear_storage, bearer, read_station_answer, fetch_station_api, station_token_key,
}

-- After the token is cleared there is none.
stored_token-clear_storage :
    (storage : Option Storage) → stored_token (clear_storage storage) ≡ none
stored_token-clear_storage none = refl
stored_token-clear_storage (some storage) = get_item-remove_item station_token_key storage

-- A call that is made at most once: an answer of 401 clears the token and asks for a login.
abbrev after_answer : World → Option Response → World × Result Json
after_answer w none = (w, thrown network_error)
after_answer w (some response) =
    if response.status == 401
    then (record w { storage = clear_storage w.storage }, thrown login_required)
    else (w, read_station_answer response)

abbrev pub call_once : Server → Text → Option Text → World → World × Result Json
call_once server url (some (c ∷ t)) w =
    let request = bearer url (c ∷ t) in
    after_answer (record w { requests = request ∷ w.requests }) (server w.requests request)
call_once server url _ w = (w, thrown login_required)

-- A call of the station's API sends at most one request, with the stored token if there is one.
-- An answer of 401 removes the token and makes the call fail for want of a login: the second
-- attempt behind it is never sent.
pub fetch_station_api-call_once :
    (server : Server) (url : Text) (w : World)
    → fetch_station_api server url w ≡ call_once server url (stored_token w.storage) w
unfolding fetch_station_api
fetch_station_api-call_once server url w = elim (Option-cases (stored_token w.storage)) [
  | inl missing ↦ rw missing refl
  | inr ([], empty) ↦ rw empty refl
  | inr (c ∷ t, there) ↦
      let request = bearer url (c ∷ t) in
      rw there (elim (Option-cases (server w.requests request)) [
        | inl rejected ↦ rw rejected refl
        | inr (response, answered) ↦ rw answered (elim (Bool-cases (response.status == 401)) [
          | inl refused ↦ rw (refused, stored_token-clear_storage w.storage) refl
          | inr taken ↦ rw taken refl
        ])
      ])
]
