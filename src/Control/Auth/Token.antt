-- ===== src/Control/Auth/Token.antt =====
-- Access tokens (control-auth.ts): what a token that the server has made is accepted for.
use wind_solar_ess_agent.Base.{
  ℕ, ◌+◌, ◌≡◌, refl, ◌∙◌, ap, false, not, ◌&&◌, Option, some, List, [], ◌∷◌, ◌++◌, ◌==◌, ltb,
  All-append, if◌then◌else◌, length, inl, inr, Bool-cases, append_assoc,
}
use wind_solar_ess_agent.Js.Text.{Text, codes, text_eq_refl, split_on, starts_with, trim, is_space}
use wind_solar_ess_agent.Control.Auth.{
  ControlIdentity, JwtPayload, object, Node, IsBase64Url, ok, auth_error, part, dotted,
  create_control_access_token, header_alg, identity_of_claims, authenticate_parts,
  authenticate_control_request,
}
use wind_solar_ess_agent.Control.Auth.Signed.{
  NoSpace, trim-NoSpace, split_on-append, split_on_whole, IsBase64Url-Lacks_dot,
  IsBase64Url-NoSpace, part_pos, timing_safe_equal_refl, length_refl,
}

-- A token of three parts splits into them, and has no white space.
split_token :
    (h p q : Text)
    → IsBase64Url h
    → IsBase64Url p
    → IsBase64Url q
    → split_on b'.' (dotted (dotted h p) q) ≡ h ∷ p ∷ q ∷ []
unfolding dotted
split_token h p q a b c =
    ap (split_on b'.') (append_assoc h (b'.' ∷ p) (b'.' ∷ q))
    ∙ split_on-append b'.' h (p ++ b'.' ∷ q) (IsBase64Url-Lacks_dot h a)
    ∙ ap (h ∷◌) (split_on-append b'.' p q (IsBase64Url-Lacks_dot p b))
    ∙ ap (λ (parts : List Text). h ∷ p ∷ parts) (split_on_whole b'.' q (IsBase64Url-Lacks_dot q c))

dotted-NoSpace : (a b : Text) → NoSpace a → NoSpace b → NoSpace (dotted a b)
unfolding dotted is_space
dotted-NoSpace a b h k = All-append (λ c. is_space c ≡ false) a (b'.' ∷ b) h (refl, k)

trim_token :
    (h p q : Text)
    → IsBase64Url h
    → IsBase64Url p
    → IsBase64Url q
    → trim (dotted (dotted h p) q) ≡ dotted (dotted h p) q
trim_token h p q a b c = trim-NoSpace _ (
    dotted-NoSpace (dotted h p) q
      (dotted-NoSpace h p (IsBase64Url-NoSpace h a) (IsBase64Url-NoSpace p b))
      (IsBase64Url-NoSpace q c))

module _ (node : Node) where
  open node use {
    base64url, from_base64url, hmac, utf8, header_json, payload_json, parse_header, parse_payload,
  }

  -- The claims that are put into a token.
  abbrev claims_of : ControlIdentity → ℕ → JwtPayload
  claims_of identity exp = record {
    sub = some identity.user_id;
    exp = some exp;
    role = some identity.role;
    tenant_id = some identity.tenant_id;
  }

  base64url_pos : (t : Text) → (length t == 0) ≡ false → (length (base64url t) == 0) ≡ false
  base64url_pos [] h = cc
  base64url_pos (c ∷ t) h = node.base64url-pos c t

  identity_of_claims_of :
      (identity : ControlIdentity) (exp now : ℕ)
      → (length identity.user_id == 0) ≡ false
      → identity_of_claims now (object (claims_of identity exp)) ≡ (
          if not (exp == 0) && ltb exp now
          then auth_error 401 (codes "auth_expired")
          else ok identity)
  unfolding identity_of_claims
  identity_of_claims_of identity exp now h =
      rw (part_pos identity.user_id [] h) (elim (Bool-cases (not (exp == 0) && ltb exp now)) [
        | inl late ↦ rw late
        | inr early ↦ rw early
      ])

  -- A header and claims with their own signature pass up to the test of the claims.
  authenticate_parts-signed :
      (c : ℕ) (secret : Text) (now : ℕ) (claims : JwtPayload)
      → authenticate_parts node
          (some (c ∷ secret))
          now
          (base64url header_json)
          (base64url (payload_json claims))
          (hmac (dotted (base64url header_json) (base64url (payload_json claims))) (c ∷ secret))
        ≡ identity_of_claims now (object claims)
  unfolding authenticate_parts
  authenticate_parts-signed c secret now claims = simp (
    node.from_base64url-base64url header_json node.header_json_well_formed,
    node.from_base64url-base64url (payload_json claims) (node.payload_json_well_formed claims),
    node.parse_header-header_json,
    node.parse_payload-payload_json,
    header_alg,
    text_eq_refl,
    length_refl,
    timing_safe_equal_refl,
  )

  -- A header `Bearer …` whose token splits into three parts is judged by them.
  authenticate-split :
      (env : Option Text) (now : ℕ) (token h p q : Text)
      → split_on b'.' (trim token) ≡ h ∷ p ∷ q ∷ []
      → part (h ∷ p ∷ q ∷ []) ≡ some h
      → part (p ∷ q ∷ []) ≡ some p
      → part (q ∷ []) ≡ some q
      → authenticate_control_request node env now (some (codes "Bearer " ++ token))
        ≡ authenticate_parts node env now h p q
  unfolding authenticate_control_request starts_with
  authenticate-split env now token h p q split a b c = simp (split, a, b, c)

  authenticate-signed :
      (identity : ControlIdentity) (exp now c : ℕ) (secret : Text)
      → (length identity.user_id == 0) ≡ false
      → authenticate_control_request node (some (c ∷ secret)) now (
          some (
            codes "Bearer "
            ++ dotted
                (dotted (base64url header_json) (base64url (payload_json (claims_of identity exp))))
                (hmac
                  (dotted
                    (base64url header_json)
                    (base64url (payload_json (claims_of identity exp))))
                  (c ∷ secret))))
        ≡ (if not (exp == 0) && ltb exp now
            then auth_error 401 (codes "auth_expired")
            else ok identity)
  authenticate-signed identity exp now c secret named =
      let claims = claims_of identity exp in
      let h = base64url header_json in
      let p = base64url (payload_json claims) in
      let q = hmac (dotted h p) (c ∷ secret) in
      let h' = node.base64url-IsBase64Url header_json in
      let p' = node.base64url-IsBase64Url (payload_json claims) in
      let q' = node.hmac-IsBase64Url (dotted h p) (c ∷ secret) in
      authenticate-split (some (c ∷ secret)) now (dotted (dotted h p) q) h p q
        (ap (split_on b'.') (trim_token h p q h' p' q') ∙ split_token h p q h' p' q')
        (part_pos h (p ∷ q ∷ []) (base64url_pos header_json node.header_json-pos))
        (part_pos p (q ∷ []) (base64url_pos (payload_json claims) (node.payload_json-pos claims)))
        (part_pos q [] (node.hmac-pos (dotted h p) (c ∷ secret)))
      ∙ authenticate_parts-signed c secret now claims
      ∙ identity_of_claims_of identity exp now named

  -- A token made for a user whose id is not empty, at second `now` for `lifetime` seconds, gives at
  -- second `later` the identity that it was made for, if its expiry time has not passed (or is 0),
  -- and is refused as expired otherwise. The secret is set and not empty.
  pub authenticate-create_control_access_token :
      (identity : ControlIdentity) (lifetime now later c : ℕ) (secret token : Text)
      → (length identity.user_id == 0) ≡ false
      → create_control_access_token node identity lifetime now (some (c ∷ secret)) ≡ ok token
      → authenticate_control_request node
          (some (c ∷ secret))
          later
          (some (codes "Bearer " ++ token))
        ≡ (if not (now + lifetime == 0) && ltb (now + lifetime) later
            then auth_error 401 (codes "auth_expired")
            else ok identity)
  unfolding create_control_access_token
  authenticate-create_control_access_token identity lifetime now later c secret token named made =
      let h = base64url header_json in
      let p = base64url (payload_json (claims_of identity (now + lifetime))) in
      let same : dotted (dotted h p) (hmac (dotted h p) (c ∷ secret)) ≡ token = cc in
      rw (← same) (authenticate-signed identity (now + lifetime) later c secret named)

  -- With a secret, a token is made.
  pub create_control_access_token-ok :
      (identity : ControlIdentity) (lifetime now c : ℕ) (secret : Text)
      → (token : Text) × (create_control_access_token node identity lifetime now (some (c ∷ secret))
          ≡ ok token)
  unfolding create_control_access_token
  create_control_access_token-ok identity lifetime now c secret = (_, refl)
