-- ===== src/Workspace/Access.antt =====
-- How the workspace reaches the station's API: auth/station-auth.ts, the browser's login and its
-- token; workspace/station-api.ts, the calls with the token. The server is an argument: what it
-- answers to a request after the earlier ones.
mod Tests
pub mod Calls
pub mod Login
use wind_solar_ess_agent.Base.{
  ℕ, String, Bool, true, false, not, ◌&&◌, ◌||◌, Option, none, some, List, [], ◌∷◌, ◌++◌, leb, ◌==◌,
  if◌then◌else◌,
}
use wind_solar_ess_agent.Js.Text.{Text, codes, decimal, trim}
use wind_solar_ess_agent.Js.Json.{Json, get, truthy, nullish, to_string}
use wind_solar_ess_agent.Js.Map.{set_key}
use wind_solar_ess_agent.Js.Storage.{Storage, get_item, set_item, remove_item}

abbrev pub station_token_key : Text
station_token_key = codes "station.accessToken"

pub data RequestBody : Type 0 where
  no_body : RequestBody
  credentials : (username password : Text) → RequestBody

pub record Request : Type 0 where
  pub path : Text
  pub authorization : Option Text
  pub body : RequestBody

-- An answer; `json` is `none` where the body is no JSON.
pub record Response : Type 0 where
  pub status : ℕ
  pub json : Option Json

-- What the calls throw.
pub data StationError : Type 0 where
  login_required : StationError
  -- `fetch` rejects, a body is no JSON, or a field of `null` is read.
  network_error json_error type_error : StationError
  wrong_credentials : StationError
  message_error : Text → StationError
  -- What the schema of the audit panel does not accept.
  schema_error : StationError

pub data Result (A : Type 0) : Type 0 where
  returned : A → Result A
  thrown : StationError → Result A

-- The page's storage, `none` where there is none, and the requests that were sent, the newest first.
pub record World : Type 0 where
  pub storage : Option Storage
  pub requests : List Request

-- `none` where `fetch` rejects.
abbrev pub Server : Type 0
Server = List Request → Request → Option Response

abbrev pub is_ok : ℕ → Bool
is_ok status = leb 200 status && leb status 299

-- `value?.key`
abbrev pub member : String → Option Json → Option Json
member key (some (Json.obj fields)) = get key fields
member key _ = none

abbrev pub continue_with :
    {A B : Type 0} → World × Result A → (A → World → World × Result B) → World × Result B
continue_with (w, returned a) next = next a w
continue_with (w, thrown error) next = (w, thrown error)

-- `storage?.getItem("station.accessToken")`
abbrev pub stored_token : Option Storage → Option Text
stored_token none = none
stored_token (some storage) = get_item station_token_key storage

abbrev pub clear_storage : Option Storage → Option Storage
clear_storage none = none
clear_storage (some storage) = some (remove_item station_token_key storage)

abbrev pub store_token : Text → Option Storage → Option Storage
store_token token none = none
store_token token (some storage) = some (set_item station_token_key token storage)

abbrev text_or_empty : Option Text → Text
text_or_empty none = []
text_or_empty (some text) = text

-- `readStationToken`
abbrev pub read_station_token : Option Storage → Text
read_station_token storage = text_or_empty (stored_token storage)

-- `clearStationToken`, and `clearStationApiToken`
abbrev pub clear_station_token : World → World
clear_station_token w = record w { storage = clear_storage w.storage }

abbrev answered : Option Response → Result Response
answered none = thrown network_error
answered (some response) = returned response

-- `fetch`
unfoldable pub fetch : Server → Request → World → World × Result Response
fetch server request w =
    (record w { requests = request ∷ w.requests }, answered (server w.requests request))

-- `"" + value`, which stands in the messages.
abbrev printed : Option Json → Text
printed none = codes "undefined"
printed (some json) = to_string json

-- A string that is not empty.
abbrev pub text_of : Option Json → Option Text
text_of (some (Json.str (c ∷ t))) = some (c ∷ t)
text_of _ = none

abbrev is_zero : Option Json → Bool
is_zero (some (Json.num n)) = n == 0
is_zero _ = false

-- The token of an answer that is a success.
abbrev pub accepted_token : Response → Option Text
accepted_token response =
    if is_ok response.status && is_zero (member "code" response.json)
    then text_of (member "access_token" (member "data" response.json))
    else none

abbrev refused : Response → StationError
refused response =
    if response.status == 401
    then wrong_credentials
    else if truthy (member "message" response.json)
    then message_error (printed (member "message" response.json))
    else message_error (codes "登录服务返回 HTTP " ++ decimal response.status)

abbrev keep_token : Option Text → Response → World → World × Result Text
keep_token none response w = (w, thrown (refused response))
keep_token (some token) response w =
    (record w { storage = store_token token w.storage }, returned token)

abbrev login_request : Text → Text → Request
login_request username password = record {
  path = codes "/api/v1/auth/login";
  authorization = none;
  body = credentials (trim username) password;
}

-- `authenticateStation`
unfoldable pub authenticate_station : Server → Text → Text → World → World × Result Text
unfolding fetch
authenticate_station server username password w =
    continue_with (fetch server (login_request username password) w)
      (λ response v. keep_token (accepted_token response) response v)

abbrev pub bearer : Text → Text → Request
bearer path token = record {
  path = path;
  authorization = some (codes "Bearer " ++ token);
  body = no_body;
}

-- `validateStationToken`
unfoldable pub validate_station_token : Server → Text → World → World × Result Bool
unfolding fetch
validate_station_token server [] w = (w, returned false)
validate_station_token server (c ∷ t) w =
    continue_with (fetch server (bearer (codes "/api/v1/users/me") (c ∷ t)) w) (λ response v. (
      v,
      returned (
          is_ok response.status
          && is_zero (member "code" response.json)
          && truthy (member "id" (member "data" response.json))),
    ))

abbrev token_or_throw : Option Text → Result Text
token_or_throw (some (c ∷ t)) = returned (c ∷ t)
token_or_throw _ = thrown login_required

-- `resolveStationApiToken`
abbrev pub resolve_station_api_token : World → World × Result Text
resolve_station_api_token w = (w, token_or_throw (stored_token w.storage))

abbrev set_params : List (Text × Option Json) → List (Text × Text) → List (Text × Text)
set_params [] search = search
set_params ((key, none) ∷ params) search = set_params params search
set_params ((key, some value) ∷ params) search =
    set_params params (set_key key (to_string value) search)

abbrev pub with_query : Text → Text → Text
with_query path [] = path
with_query path (c ∷ query) = path ++ (codes "?" ++ (c ∷ query))

-- `URLSearchParams.toString()` is an argument.
module _ (print_search : List (Text × Text) → Text) where
  -- `buildStationApiUrl`
  unfoldable pub build_station_api_url : Text → List (Text × Option Json) → Text
  build_station_api_url path params =
      with_query (codes "/api/v1" ++ path) (print_search (set_params params []))

-- `!envelope` is no case: a field of `null` throws a TypeError.
abbrev pub read_envelope : {A : Type 0} → Option Json → Result A → Result A
read_envelope none rest = thrown json_error
read_envelope (some Json.null) rest = thrown type_error
read_envelope (some json) rest = rest

abbrev data_or_throw : Option Json → StationError → Result Json
data_or_throw none error = thrown error
data_or_throw (some result) error = returned result

-- `unwrapStationEnvelope`
unfoldable pub unwrap_station_envelope : Option Json → Result Json
unwrap_station_envelope envelope =
    let error = message_error (
      codes "station_api_"
      ++ (printed (member "code" envelope)
          ++ (codes ":" ++ printed (member "message" envelope)))) in
    if is_zero (member "code" envelope)
    then data_or_throw (member "data" envelope) error
    else thrown error

-- The statements behind the last request.
abbrev pub read_station_answer : Response → Result Json
read_station_answer response = read_envelope response.json (
    if is_ok response.status
    then unwrap_station_envelope response.json
    else thrown (
        message_error (
          codes "station_http_"
          ++ (decimal response.status ++ (codes ":" ++ printed (member "message" response.json))))))

-- The second attempt, behind an answer of 401.
abbrev retry : Server → Text → World → World × Result Response
retry server url w =
    continue_with (resolve_station_api_token (clear_station_token w))
      (λ token v. fetch server (bearer url token) v)

-- `fetchStationApi`, from the address on.
unfoldable pub fetch_station_api : Server → Text → World → World × Result Json
unfolding fetch unwrap_station_envelope
fetch_station_api server url w = continue_with (resolve_station_api_token w) (λ token v.
    continue_with (fetch server (bearer url token) v) (λ response u.
      continue_with (if response.status == 401 then retry server url u else (u, returned response))
        (λ last t. (t, read_station_answer last))))
