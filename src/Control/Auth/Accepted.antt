-- ===== src/Control/Auth/Accepted.antt =====
-- Access tokens (control-auth.ts): what an accepted token must be.
use wind_solar_ess_agent.Base.{
  ℕ, ◌≡◌, refl, ◌∙◌, ap, true, false, not, Option, none, some, List, [], ◌∷◌, arith, drop,
}
use wind_solar_ess_agent.Js.Text.{Text, codes, text_eq, text_eq→eq, split_on, starts_with, trim}
use wind_solar_ess_agent.Control.Auth.{
  ControlIdentity, JwtPayload, Parsed, null_value, object, Node, ok, part, rest, or_else, bearer,
  timing_safe_equal, dotted, header_alg, is_hs256, is_expired, identity_of_claims,
  authenticate_parts, authenticate_control_request,
}
use wind_solar_ess_agent.Control.Auth.Signed.{bind-ok, require-ok, check-ok}

header_alg-ok :
    (h : Parsed (Option Text)) (alg : Option Text) → header_alg h ≡ ok alg → h ≡ object alg
unfolding header_alg
header_alg-ok null_value alg e = cc
header_alg-ok (object alg') alg e = cc

is_hs256-true : (alg : Option Text) → is_hs256 alg ≡ true → alg ≡ some (codes "HS256")
is_hs256-true none h = cc
is_hs256-true (some alg) h = ap some (text_eq→eq _ _ h)

timing_safe_equal-ok : (a b : List ℕ) → timing_safe_equal a b ≡ ok true → text_eq a b ≡ true
unfolding timing_safe_equal
timing_safe_equal-ok a b h = ground arith

subject-ok :
    (sub : Option Text) (user : Text) → part (or_else sub [] ∷ []) ≡ some user → sub ≡ some user
subject-ok none user h = cc
subject-ok (some []) user h = cc
subject-ok (some (c ∷ t)) user h = h

-- The claims that give an identity: they name the user, have not expired, and name the role and the
-- tenant where these are not the defaults.
abbrev pub GivesIdentity : ℕ → JwtPayload → ControlIdentity → Type 0
GivesIdentity now claims identity =
    (claims.sub ≡ some identity.user_id)
    × (is_expired claims.exp now ≡ false)
    × (or_else claims.role (codes "operator") ≡ identity.role)
    × (or_else claims.tenant_id (codes "tenant_lab") ≡ identity.tenant_id)

identity_of_claims-ok :
    (now : ℕ) (payload : Parsed JwtPayload) (identity : ControlIdentity)
    → identity_of_claims now payload ≡ ok identity
    → (claims : JwtPayload) × (payload ≡ object claims) × GivesIdentity now claims identity
unfolding identity_of_claims
identity_of_claims-ok now null_value identity e = cc
identity_of_claims-ok now (object claims) identity e =
    let (user, at_user, e1) = require-ok (part (or_else claims.sub [] ∷ [])) 401 _ _ _ e in
    let (current, e2) = check-ok (not (is_expired claims.exp now)) 401 _ _ _ e1 in
    let same : record {
      user_id = user;
      role = or_else claims.role (codes "operator");
      tenant_id = or_else claims.tenant_id (codes "tenant_lab");
    }
        ≡ identity =
      cc in
    (
      claims,
      refl,
      (
        subject-ok claims.sub user at_user ∙ ap (λ i. some (ControlIdentity.user_id i)) same,
        (ground arith),
        ap ControlIdentity.role same,
        ap ControlIdentity.tenant_id same,
      ),
    )

module _ (node : Node) where
  open node use {from_base64url, hmac, utf8, parse_header, parse_payload}

  -- What an accepted token must be: three parts, the third of them the signature of the others
  -- with the secret, a header that names HS256, and claims that give the identity.
  pub record IsSigned (secret : Text) (now : ℕ) (identity : ControlIdentity) (parts : List Text)
      : Type 0 where
    pub header : Text
    pub payload : Text
    pub signature : Text
    pub claims : JwtPayload
    pub header_part : part parts ≡ some header
    pub payload_part : part (rest parts) ≡ some payload
    pub signature_part : part (rest (rest parts)) ≡ some signature
    pub signed : signature ≡ hmac (dotted header payload) secret
    pub algorithm : parse_header (from_base64url header) ≡ some (object (some (codes "HS256")))
    pub read : parse_payload (from_base64url payload) ≡ some (object claims)
    pub gives : GivesIdentity now claims identity

  authenticate_parts-ok :
      (c : ℕ) (secret : Text) (now : ℕ) (h p q : Text) (identity : ControlIdentity)
      → authenticate_parts node (some (c ∷ secret)) now h p q ≡ ok identity
      → (claims : JwtPayload) × (q ≡ hmac (dotted h p) (c ∷ secret))
        × (parse_header (from_base64url h) ≡ some (object (some (codes "HS256"))))
        × (parse_payload (from_base64url p) ≡ some (object claims))
        × GivesIdentity now claims identity
  unfolding authenticate_parts
  authenticate_parts-ok c secret now h p q identity e =
      let (header, at_header, e1) = require-ok (parse_header (from_base64url h)) 401 _ _ _ e in
      let (payload, at_payload, e2) = require-ok (parse_payload (from_base64url p)) 401 _ _ _ e1 in
      let (alg, at_alg, e3) = bind-ok (header_alg header) _ _ e2 in
      let (hs, e4) = check-ok (is_hs256 alg) 401 _ _ _ e3 in
      let (len, e5) = check-ok _ 401 _ _ _ e4 in
      let (same, at_same, e6) =
        bind-ok (timing_safe_equal (utf8 q) (utf8 (hmac (dotted h p) (c ∷ secret)))) _ _ e5 in
      let (equal, e7) = check-ok same 401 _ _ _ e6 in
      let (claims, is_object, gives) = identity_of_claims-ok now payload identity e7 in
      (
        claims,
        node.utf8-ascii q _ (node.hmac-IsBase64Url (dotted h p) (c ∷ secret))
            (timing_safe_equal-ok _ _ (at_same ∙ ap ok equal)),
        at_header ∙ ap some (header_alg-ok header alg at_alg ∙ ap object (is_hs256-true alg hs)),
        at_payload ∙ ap some is_object,
        gives,
      )

  -- Whoever is authenticated has sent the header `Bearer` with a token whose third part is the
  -- signature of the first two with the secret, whose header names HS256, and whose claims, not
  -- expired, give this very identity. The secret is set and not empty.
  pub authenticate_control_request-ok :
      (c : ℕ) (secret : Text) (now : ℕ) (header : Option Text) (identity : ControlIdentity)
      → authenticate_control_request node (some (c ∷ secret)) now header ≡ ok identity
      → (starts_with (codes "Bearer ") (or_else header []) ≡ true)
        × IsSigned (c ∷ secret) now identity (split_on b'.' (trim (drop 7 (or_else header []))))
  unfolding authenticate_control_request
  authenticate_control_request-ok c secret now header identity e =
      let parts = split_on b'.' (trim (drop 7 (or_else header []))) in
      let (has_bearer, e0) = check-ok (starts_with bearer (or_else header [])) 401 _ _ _ e in
      let (h, at_h, e1) = require-ok (part parts) 401 _ _ _ e0 in
      let (p, at_p, e2) = require-ok (part (rest parts)) 401 _ _ _ e1 in
      let (q, at_q, e3) = require-ok (part (rest (rest parts))) 401 _ _ _ e2 in
      let (claims, signed, algorithm, read, gives) =
        authenticate_parts-ok c secret now h p q identity e3 in
      (
        has_bearer,
        record {
          header = h;
          payload = p;
          signature = q;
          claims = claims;
          header_part = at_h;
          payload_part = at_p;
          signature_part = at_q;
          signed = signed;
          algorithm = algorithm;
          read = read;
          gives = gives;
        },
      )
