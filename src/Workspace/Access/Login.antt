-- ===== src/Workspace/Access/Login.antt =====
-- The token after a login (auth/station-auth.ts, `authenticateStation`).
use wind_solar_ess_agent.Base.{
  ℕ, ◌≡◌, ◌≢◌, ◌&&◌, arith, refl, Option, none, some, [], ◌∷◌, Option-cases, inl, inr, Bool-cases,
}
use wind_solar_ess_agent.Js.Text.{Text}
use wind_solar_ess_agent.Js.Json.{Json}
use wind_solar_ess_agent.Js.Storage.{Storage, get_item-set_item}
use wind_solar_ess_agent.Workspace.Access.{
  Server, World, Response, Result, thrown, returned, login_request, accepted_token, text_of, is_ok,
  is_zero, member, keep_token, resolve_station_api_token, authenticate_station, station_token_key,
  store_token,
}

-- What a login leaves behind: after a success the calls find the token that it returned, which is
-- not empty; after a failure the storage is as it was.
abbrev LeavesToken : World → World × Result Text → Type 0
LeavesToken w (w', returned token) =
    (token ≢ []) × (resolve_station_api_token w' ≡ (w', returned token))
LeavesToken w (w', thrown error) = w'.storage ≡ w.storage

abbrev IsFull : Text → Type 0
IsFull token = (c : ℕ) × (t : Text) × (token ≡ c ∷ t)

text_of-IsFull : (value : Option Json) (token : Text) → text_of value ≡ some token → IsFull token
text_of-IsFull none token h = cc
text_of-IsFull (some (Json.str (c ∷ t))) token h = (c, t, cc)
text_of-IsFull (some (Json.str [])) token h = cc
text_of-IsFull (some Json.null) token h = cc
text_of-IsFull (some (Json.bool b)) token h = cc
text_of-IsFull (some (Json.num n)) token h = cc
text_of-IsFull (some (Json.arr items)) token h = cc
text_of-IsFull (some (Json.obj fields)) token h = cc

accepted_token-IsFull :
    (response : Response) (token : Text) → accepted_token response ≡ some token → IsFull token
accepted_token-IsFull response token h =
    elim (Bool-cases (is_ok response.status && is_zero (member "code" response.json))) [
      | inl success ↦
          text_of-IsFull (member "access_token" (member "data" response.json)) token
            (rw success at h)
      | inr failure ↦ absurd (ground arith)
    ]

resolve-stored :
    (c : ℕ) (t : Text) (v : World) (storage : Storage)
    → v.storage ≡ some storage
    → let v' = record v { storage = store_token (c ∷ t) v.storage } in
      resolve_station_api_token v' ≡ (v', returned (c ∷ t))
resolve-stored c t v storage there =
    rw there (rw (get_item-set_item station_token_key (c ∷ t) storage))

keep_token-LeavesToken :
    (w v : World) (storage : Storage) (response : Response) (token : Option Text)
    → v.storage ≡ some storage
    → v.storage ≡ w.storage
    → accepted_token response ≡ token
    → ((keep_token token response v).0.requests ≡ v.requests)
      × LeavesToken w (keep_token token response v)
keep_token-LeavesToken w v storage response none there same h = (refl, same)
keep_token-LeavesToken w v storage response (some token) there same h =
    let (c, t, e) = accepted_token-IsFull response token h in
    (refl, (λ empty. cc (e, empty), rw e (resolve-stored c t v storage there)))

-- A login sends one request, with the name without the white space around it. After a success the
-- calls find the token that it returned, which is not empty; after a failure the storage is as it
-- was. The page has a storage.
authenticate_station-LeavesToken :
    (server : Server) (username password : Text) (w : World) (storage : Storage)
    → w.storage ≡ some storage
    → let outcome = authenticate_station server username password w in
      (outcome.0.requests ≡ login_request username password ∷ w.requests) × LeavesToken w outcome
unfolding authenticate_station
authenticate_station-LeavesToken server username password w storage there =
    elim (Option-cases (server w.requests (login_request username password))) [
      | inl rejected ↦ rw rejected (refl, refl)
      | inr (response, answered) ↦
          let v = record w { requests = login_request username password ∷ w.requests } in
          rw answered
            (keep_token-LeavesToken w v storage response (accepted_token response) there refl refl)
    ]
