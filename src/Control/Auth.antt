-- ===== src/Control/Auth.antt =====
-- control-auth.ts: access tokens and session ids, both signed with the secret of the control panel.
-- Node's `Buffer`, `createHmac` and `JSON` are an interface; the environment's secret, the clock and
-- `randomUUID()` are arguments.
pub mod Signed
pub mod Token
pub mod Accepted
pub mod Failures
pub mod Session
pub mod Sample
mod Tests
use wind_solar_ess_agent.Base.{
  ℕ, ◌+◌, ◌≡◌, Bool, true, false, not, ◌&&◌, ◌||◌, Option, none, some, List, [], ◌∷◌, ◌++◌, ltb,
  leb, ◌==◌, if◌then◌else◌, length, drop, All,
}
use wind_solar_ess_agent.Js.Text.{Text, codes, text_eq, trim, starts_with, split_on}

pub record ControlIdentity : Type 0 where
  pub user_id : Text
  pub role : Text
  pub tenant_id : Text

-- The claims of a token; `none` stands for a claim that is left out.
pub record JwtPayload : Type 0 where
  pub sub : Option Text
  pub exp : Option ℕ
  pub role : Option Text
  pub tenant_id : Option Text

-- What `JSON.parse` yields at a type of objects: `null`, or the fields that the code reads.
pub data Parsed (A : Type 0) : Type 0 where
  null_value : Parsed A
  object : A → Parsed A

-- The alphabet of base64url.
abbrev pub is_base64url : ℕ → Bool
is_base64url c =
    (leb b'A' c && leb c b'Z')
    || (leb b'a' c && leb c b'z')
    || (leb b'0' c && leb c b'9')
    || c == b'-'
    || c == b'_'

abbrev pub IsBase64Url : Text → Type 0
IsBase64Url t = All (λ c. is_base64url c ≡ true) t

-- What the code relies on of Node: base64url of a text and back, HMAC-SHA256 in base64url (the
-- secret last), the bytes of a text, whether its surrogates are paired (`isWellFormed`), and JSON of
-- the header and of the claims (`none` where `JSON.parse` throws). Claims of other types than
-- `JwtPayload` names are not modelled.
pub record Node : Type 0 where
  pub base64url : Text → Text
  pub from_base64url : Text → Text
  pub hmac : Text → Text → Text
  pub utf8 : Text → List ℕ
  pub well_formed : Text → Bool
  pub header_json : Text
  pub parse_header : Text → Option (Parsed (Option Text))
  pub payload_json : JwtPayload → Text
  pub parse_payload : Text → Option (Parsed JwtPayload)
  pub from_base64url-base64url :
      (t : Text) → well_formed t ≡ true → from_base64url (base64url t) ≡ t
  pub base64url-IsBase64Url : (t : Text) → IsBase64Url (base64url t)
  pub base64url-pos : (c : ℕ) (t : Text) → (length (base64url (c ∷ t)) == 0) ≡ false
  pub hmac-IsBase64Url : (t secret : Text) → IsBase64Url (hmac t secret)
  pub hmac-pos : (t secret : Text) → (length (hmac t secret) == 0) ≡ false
  pub header_json-pos : (length header_json == 0) ≡ false
  pub payload_json-pos : (p : JwtPayload) → (length (payload_json p) == 0) ≡ false
  pub header_json_well_formed : well_formed header_json ≡ true
  pub payload_json_well_formed : (p : JwtPayload) → well_formed (payload_json p) ≡ true
  pub utf8-ascii : (a b : Text) → IsBase64Url b → text_eq (utf8 a) (utf8 b) ≡ true → a ≡ b
  pub parse_header-header_json : parse_header header_json ≡ some (object (some (codes "HS256")))
  pub parse_payload-payload_json :
      (p : JwtPayload) → parse_payload (payload_json p) ≡ some (object p)

-- A `ControlAuthError` with its status and code, or an exception of another class.
pub data Thrown : Type 0 where
  secret_required type_error range_error : Thrown

pub data AuthResult (A : Type 0) : Type 0 where
  ok : A → AuthResult A
  auth_error : ℕ → Text → AuthResult A
  thrown : Thrown → AuthResult A

infixl 5 ◌>>=◌
abbrev pub ◌>>=◌ : {A B : Type 0} → AuthResult A → (A → AuthResult B) → AuthResult B
ok a >>= f = f a
auth_error status code >>= f = auth_error status code
thrown e >>= f = thrown e

-- `process.env.JWT_SECRET`, which must be set and not empty.
pub jwt_secret : Option Text → AuthResult Text
jwt_secret none = thrown secret_required
jwt_secret (some []) = thrown secret_required
jwt_secret (some (c ∷ secret)) = ok (c ∷ secret)

-- A part of a split that is `undefined` or empty is no part.
abbrev pub part : List Text → Option Text
part [] = none
part ([] ∷ _) = none
part ((c ∷ t) ∷ _) = some (c ∷ t)

abbrev pub rest : List Text → List Text
rest [] = []
rest (_ ∷ parts) = parts

abbrev pub require : {A : Type 0} → Option A → ℕ → Text → AuthResult A
require none status code = auth_error status code
require (some a) status code = ok a

abbrev pub check : {A : Type 0} → Bool → ℕ → Text → AuthResult A → AuthResult A
check true status code next = next
check false status code next = auth_error status code

abbrev pub or_else : Option Text → Text → Text
or_else none fallback = fallback
or_else (some t) fallback = t

abbrev bearer : Text
bearer = codes "Bearer "

-- `timingSafeEqual`, which throws on buffers of different lengths.
unfoldable pub timing_safe_equal : List ℕ → List ℕ → AuthResult Bool
timing_safe_equal a b = if length a == length b then ok (text_eq a b) else thrown range_error

-- `${a}.${b}`
pub dotted : Text → Text → Text
dotted a b = a ++ b'.' ∷ b

-- `header.alg`, which throws on `null`.
pub header_alg : Parsed (Option Text) → AuthResult (Option Text)
header_alg null_value = thrown type_error
header_alg (object alg) = ok alg

abbrev is_hs256 : Option Text → Bool
is_hs256 none = false
is_hs256 (some alg) = text_eq alg (codes "HS256")

-- `payload.exp && payload.exp < now`
abbrev is_expired : Option ℕ → ℕ → Bool
is_expired none now = false
is_expired (some exp) now = not (exp == 0) && ltb exp now

-- The last test and the result.
pub identity_of_claims : ℕ → Parsed JwtPayload → AuthResult ControlIdentity
identity_of_claims now null_value = thrown type_error
identity_of_claims now (object claims) = do
  subject ← require (part (or_else claims.sub [] ∷ [])) 401 (codes "auth_expired")
  check (not (is_expired claims.exp now)) 401 (codes "auth_expired") (
      ok (record {
        user_id = subject;
        role = or_else claims.role (codes "operator");
        tenant_id = or_else claims.tenant_id (codes "tenant_lab");
      }))

-- `sessionId.replace(/^session_/, "")`
pub strip_session : Text → Text
strip_session session_id =
    if starts_with (codes "session_") session_id then drop 8 session_id else session_id

abbrev pub first_piece : List Text → Text
first_piece [] = []
first_piece (t ∷ _) = t

-- `payloadPart.split("~", 1)[0]`
pub subject_part : Text → Text
subject_part payload_part = first_piece (split_on b'~' payload_part)

module _ (node : Node) where
  open node use {
    base64url, from_base64url, hmac, utf8, header_json, parse_header, payload_json, parse_payload,
  }

  unfoldable pub create_control_access_token :
      ControlIdentity → ℕ → ℕ → Option Text → AuthResult Text
  unfolding dotted jwt_secret
  create_control_access_token identity expires_in_seconds now env = do
    secret ← jwt_secret env
    let header = base64url header_json
    let payload = base64url (
        payload_json (record {
          sub = some identity.user_id;
          exp = some (now + expires_in_seconds);
          role = some identity.role;
          tenant_id = some identity.tenant_id;
        }))
    ok (dotted (dotted header payload) (hmac (dotted header payload) secret))

  pub authenticate_parts : Option Text → ℕ → Text → Text → Text → AuthResult ControlIdentity
  unfolding jwt_secret dotted header_alg identity_of_claims
  authenticate_parts env now header_part payload_part signature_part = do
    header ← require (parse_header (from_base64url header_part)) 401 (codes "auth_invalid")
    payload ← require (parse_payload (from_base64url payload_part)) 401 (codes "auth_invalid")
    alg ← header_alg header
    check (is_hs256 alg) 401 (codes "auth_invalid") do
      secret ← jwt_secret env
      let received = utf8 signature_part
      let expected = utf8 (hmac (dotted header_part payload_part) secret)
      check (length received == length expected) 401 (codes "auth_invalid") do
        same ← timing_safe_equal received expected
        check same 401 (codes "auth_invalid") (identity_of_claims now payload)

  -- The argument is the `Authorization` header of the request.
  unfoldable pub authenticate_control_request :
      Option Text → ℕ → Option Text → AuthResult ControlIdentity
  unfolding authenticate_parts
  authenticate_control_request env now header =
      let authorization = or_else header [] in
      check (starts_with bearer authorization) 401 (codes "auth_missing") do
        let parts = split_on b'.' (trim (drop 7 authorization))
        header_part ← require (part parts) 401 (codes "auth_invalid")
        payload_part ← require (part (rest parts)) 401 (codes "auth_invalid")
        signature_part ← require (part (rest (rest parts))) 401 (codes "auth_invalid")
        authenticate_parts env now header_part payload_part signature_part

  -- `createControlSessionId`; `uuid` is `randomUUID()` without its dashes.
  unfoldable pub create_control_session_id : ControlIdentity → Text → Option Text → AuthResult Text
  unfolding jwt_secret dotted
  create_control_session_id identity uuid env = do
    let payload = base64url identity.user_id ++ b'~' ∷ uuid
    secret ← jwt_secret env
    ok (codes "session_" ++ dotted payload (hmac payload secret))

  -- The function returns nothing.
  pub authorize_parts : Option Text → ControlIdentity → Text → Text → AuthResult (Unit {0})
  unfolding jwt_secret subject_part
  authorize_parts env identity payload_part signature_part = do
    secret ← jwt_secret env
    let expected = hmac payload_part secret
    check (length signature_part == length expected) 404 (codes "session_not_found") do
      same ← timing_safe_equal (utf8 signature_part) (utf8 expected)
      check same 404 (codes "session_not_found") (
          check (text_eq (from_base64url (subject_part payload_part)) identity.user_id) 403
            (codes "session_forbidden") (ok tt))

  unfoldable pub authorize_control_session :
      Option Text → ControlIdentity → Text → AuthResult (Unit {0})
  unfolding authorize_parts strip_session
  authorize_control_session env identity session_id = do
    let parts = split_on b'.' (strip_session session_id)
    payload_part ← require (part parts) 404 (codes "session_not_found")
    signature_part ← require (part (rest parts)) 404 (codes "session_not_found")
    authorize_parts env identity payload_part signature_part
