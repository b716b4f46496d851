-- ===== src/Control/Auth/Failures.antt =====
-- The errors of control-auth.ts: a rule for each step, and the errors that the two checks can end in.
use wind_solar_ess_agent.Base.{
  ℕ, Bool, true, false, Option, none, some, List, [], ◌∷◌, ◌≡◌, arith, length, ◌==◌, drop, not,
}
use wind_solar_ess_agent.Js.Text.{Text, codes, text_eq, split_on, trim, starts_with}
use wind_solar_ess_agent.Control.Auth.{
  ControlIdentity, JwtPayload, Parsed, null_value, object, Node, AuthResult, ok, auth_error, thrown,
  ◌>>=◌, jwt_secret, require, check, part, rest, or_else, bearer, dotted, is_hs256, is_expired,
  strip_session, subject_part, timing_safe_equal, header_alg, identity_of_claims,
  authenticate_parts, authenticate_control_request, authorize_parts, authorize_control_session,
}

module _ (P : ℕ → Text → Type 0) where
  -- The error, if it is one with a status, has the property.
  abbrev pub Fails : {A : Type 0} → AuthResult A → Type 0
  Fails r = (status : ℕ) (code : Text) → r ≡ auth_error status code → P status code

  pub bind-Fails :
      {A B : Type 0} (r : AuthResult A) (f : A → AuthResult B)
      → Fails r
      → ((a : A) → Fails (f a))
      → Fails (r >>= f)
  bind-Fails (ok a) f h k status code e = k a status code e
  bind-Fails (auth_error s c) f h k status code e = h status code (cc)
  bind-Fails (thrown x) f h k status code e = cc

  ok-Fails : {A : Type 0} (a : A) → Fails (ok a)
  ok-Fails a status code e = cc

  auth_error-Fails : {A : Type 0} (s : ℕ) (c : Text) → P s c → Fails {A = A} (auth_error s c)
  auth_error-Fails {A} s c h status code e =
      let same_status : s ≡ status = cc in
      let same_code : c ≡ code = cc in rw (← same_status, ← same_code) h

  require-Fails :
      {A : Type 0} (o : Option A) (status : ℕ) (code : Text)
      → P status code
      → Fails (require o status code)
  require-Fails none status code h = auth_error-Fails status code h
  require-Fails (some a) status code h = ok-Fails a

  check-Fails :
      {A : Type 0} (b : Bool) (status : ℕ) (code : Text) (next : AuthResult A)
      → P status code
      → Fails next
      → Fails (check b status code next)
  check-Fails true status code next h k = k
  check-Fails false status code next h k = auth_error-Fails status code h

  jwt_secret-Fails : (env : Option Text) → Fails (jwt_secret env)
  unfolding jwt_secret
  jwt_secret-Fails none status code e = cc
  jwt_secret-Fails (some []) status code e = cc
  jwt_secret-Fails (some (c ∷ secret)) status code e = cc

  timing_safe_equal-Fails : (a b : List ℕ) → Fails (timing_safe_equal a b)
  unfolding timing_safe_equal
  timing_safe_equal-Fails a b status code e = absurd (ground arith)

  header_alg-Fails : (h : Parsed (Option Text)) → Fails (header_alg h)
  unfolding header_alg
  header_alg-Fails null_value status code e = cc
  header_alg-Fails (object alg) status code e = cc

  module _ (invalid : P 401 (codes "auth_invalid")) (expired : P 401 (codes "auth_expired")) where
    identity_of_claims-Fails :
        (now : ℕ) (payload : Parsed JwtPayload) → Fails (identity_of_claims now payload)
    unfolding identity_of_claims
    identity_of_claims-Fails now null_value status code e = cc
    identity_of_claims-Fails now (object claims) status code e =
        bind-Fails (require (part (or_else claims.sub [] ∷ [])) 401 (codes "auth_expired")) _
          (require-Fails _ 401 _ expired)
          (λ subject. check-Fails (not (is_expired claims.exp now)) 401 _ _ expired (ok-Fails _))
          status code e

    signature-Fails :
        (received expected : List ℕ) (now : ℕ) (payload : Parsed JwtPayload)
        → Fails (
            check (length received == length expected) 401 (codes "auth_invalid") (
              timing_safe_equal received expected >>= λ same.
              check same 401 (codes "auth_invalid") (identity_of_claims now payload)))
    signature-Fails received expected now payload =
        check-Fails (length received == length expected) 401 _ _ invalid (
          bind-Fails (timing_safe_equal received expected) _
            (timing_safe_equal-Fails received expected)
            (λ same. check-Fails same 401 _ _ invalid (identity_of_claims-Fails now payload)))

    authenticate_parts-Fails :
        (node : Node) (env : Option Text) (now : ℕ) (h p q : Text)
        → Fails (authenticate_parts node env now h p q)
    unfolding authenticate_parts
    authenticate_parts-Fails node env now h p q =
        bind-Fails _ _ (require-Fails (node.parse_header (node.from_base64url h)) 401 _ invalid)
          (λ header.
            bind-Fails _ _
              (require-Fails (node.parse_payload (node.from_base64url p)) 401 _ invalid)
              (λ payload. bind-Fails (header_alg header) _ (header_alg-Fails header) (λ alg.
                check-Fails (is_hs256 alg) 401 _ _ invalid (
                  bind-Fails (jwt_secret env) _ (jwt_secret-Fails env) (λ secret.
                    signature-Fails (node.utf8 q) (node.utf8 (node.hmac (dotted h p) secret)) now
                      payload)))))

    pub authenticate-Fails :
        (node : Node) (env : Option Text) (now : ℕ) (header : Option Text)
        → P 401 (codes "auth_missing")
        → Fails (authenticate_control_request node env now header)
    unfolding authenticate_control_request
    authenticate-Fails node env now header missing =
        let parts = split_on b'.' (trim (drop 7 (or_else header []))) in
        check-Fails (starts_with bearer (or_else header [])) 401 _ _ missing (
          bind-Fails _ _ (require-Fails (part parts) 401 _ invalid) (λ h.
            bind-Fails _ _ (require-Fails (part (rest parts)) 401 _ invalid) (λ p.
              bind-Fails _ _ (require-Fails (part (rest (rest parts))) 401 _ invalid)
                (λ q. authenticate_parts-Fails node env now h p q))))

  pub authorize-Fails :
      (node : Node) (env : Option Text) (identity : ControlIdentity) (session_id : Text)
      → P 404 (codes "session_not_found")
      → P 403 (codes "session_forbidden")
      → Fails (authorize_control_session node env identity session_id)
  unfolding authorize_control_session authorize_parts
  authorize-Fails node env identity session_id missing forbidden =
      let parts = split_on b'.' (strip_session session_id) in
      bind-Fails _ _ (require-Fails (part parts) 404 _ missing) (λ p.
        bind-Fails _ _ (require-Fails (part (rest parts)) 404 _ missing) (λ q.
          bind-Fails (jwt_secret env) _ (jwt_secret-Fails env) (λ secret.
            check-Fails (length q == length (node.hmac p secret)) 404 _ _ missing (
              bind-Fails (timing_safe_equal (node.utf8 q) (node.utf8 (node.hmac p secret))) _
                (timing_safe_equal-Fails _ _)
                (λ same. check-Fails same 404 _ _ missing (
                  check-Fails (text_eq (node.from_base64url (subject_part p)) identity.user_id) 403
                    _ _ forbidden (ok-Fails _)))))))
