-- ===== src/Workspace/Access/Tests.antt =====
-- A login, a call with its token, and a call whose token is refused.
use wind_solar_ess_agent.Base.{◌≡◌, refl, none, some, [], ◌∷◌}
use wind_solar_ess_agent.Js.Text.{codes, text_eq}
use wind_solar_ess_agent.Js.Json.{Json, Fields, get}
use wind_solar_ess_agent.Js.Storage.{get_item, set_item, remove_item}
use wind_solar_ess_agent.Workspace.Access.{
  Server, Response, World, returned, stored_token, authenticate_station, fetch_station_api,
}
use wind_solar_ess_agent.Workspace.Access.Calls.{call_once, fetch_station_api-call_once}

abbrev envelope : Json → Response
envelope content = record {
  status = 200;
  json =
      some (Json.obj (Fields.field "code" (Json.num 0) (Fields.field "data" content Fields.end)));
}

-- It gives everybody the token `t`.
abbrev welcoming : Server
welcoming requests request =
    some (envelope (Json.obj (Fields.field "access_token" (Json.str (codes "t")) Fields.end)))

abbrev refusing : Server
refusing requests request = some (record { status = 401; json = none })

abbrev page : World
page = record { storage = some []; requests = [] }

abbrev logged_in : World
logged_in = record { storage = some ((codes "station.accessToken", codes "t") ∷ []); requests = [] }

login_stores :
    stored_token (authenticate_station welcoming (codes " admin") (codes "p") page).0.storage
    ≡ some (codes "t")
unfolding authenticate_station get get_item set_item remove_item text_eq
login_stores = refl

call_returns :
    (fetch_station_api welcoming (codes "/api/v1/alarms") logged_in).1
    ≡ returned (Json.obj (Fields.field "access_token" (Json.str (codes "t")) Fields.end))
unfolding fetch_station_api get get_item text_eq
call_returns = refl

fetch_station_api-call_once_example :
    fetch_station_api refusing (codes "/api/v1/alarms") logged_in
    ≡ call_once refusing (codes "/api/v1/alarms") (stored_token logged_in.storage) logged_in
fetch_station_api-call_once_example =
    fetch_station_api-call_once refusing (codes "/api/v1/alarms") logged_in
