-- ===== src/Control/Routes/Login.antt =====
-- The login (auth/login/route.ts, local-control-auth.ts) and what its token opens (users/me/route.ts).
use wind_solar_ess_agent.Base.{
  ℕ, ◌+◌, ◌≤◌, ◌≡◌, ◌∙◌, ap, true, false, not, ◌&&◌, Option, some, ◌∷◌, ◌++◌, ◌==◌, ltb, length,
  arith,
}
use wind_solar_ess_agent.Js.Text.{Text, codes, text_eq_refl, trim}
use wind_solar_ess_agent.Control.Auth.{
  ControlIdentity, Node, ok, authenticate_control_request, create_control_access_token,
}
use wind_solar_ess_agent.Control.Auth.Token.{
  authenticate-create_control_access_token, create_control_access_token-ok,
}
use wind_solar_ess_agent.Control.Routes.{
  shaped, token_lifetime, safe_equal, or_admin, me_response, token_response, login_response,
  authenticate_local_control_credentials, login, users_me,
}

module _ (node : Node) where
  safe_equal_refl : (t : Text) → safe_equal node t t ≡ true
  unfolding safe_equal
  safe_equal_refl t = rw (text_eq_refl (node.utf8 t)) (ground arith)

  -- The identity of the one local user.
  abbrev admin_identity : Text → ControlIdentity
  admin_identity username = record {
    user_id = username;
    role = codes "admin";
    tenant_id = codes "tenant_lab";
  }

  credentials-accepted :
      (env_username : Option Text) (c : ℕ) (password username : Text)
      → trim username ≡ or_admin env_username
      → authenticate_local_control_credentials node env_username
          (some (c ∷ password))
          username
          (c ∷ password)
        ≡ some (some (admin_identity (or_admin env_username)))
  unfolding authenticate_local_control_credentials
  credentials-accepted env_username c password username h =
      rw (h, safe_equal_refl (or_admin env_username), safe_equal_refl (c ∷ password))

  users_me-ok :
      (env : Option Text) (now : ℕ) (authorization : Option Text) (identity : ControlIdentity)
      → authenticate_control_request node env now authorization ≡ ok identity
      → users_me node env now authorization
        ≡ some (record {
          status = 200;
          code = 0;
          message = codes "ok";
          result = some (record { id = identity.user_id; role = identity.role });
        })
  unfolding users_me
  users_me-ok env now authorization identity h = ap me_response h

  -- Whoever logs in with the name and the password of the environment (white space around the name
  -- is dropped) gets a token, and for eight hours the token shows users/me this user and the role
  -- admin. The name, the password and the secret are not empty.
  pub users_me-login :
      (env_username : Option Text) (s p now later : ℕ) (secret password username : Text)
      → trim username ≡ or_admin env_username
      → (length (or_admin env_username) == 0) ≡ false
      → later ≤ now + token_lifetime
      → (token : Text) × (login node
            (some (s ∷ secret))
            now
            env_username
            (some (p ∷ password))
            (shaped (record { username = username; password = p ∷ password }))
          ≡ some (record { status = 200; code = 0; message = codes "ok"; result = some token }))
        × (users_me node (some (s ∷ secret)) later (some (codes "Bearer " ++ token))
            ≡ some (record {
              status = 200;
              code = 0;
              message = codes "ok";
              result = some (record { id = or_admin env_username; role = codes "admin" });
            }))
  unfolding login
  users_me-login env_username s p now later secret password username named filled early =
      let identity = admin_identity (or_admin env_username) in
      let (token, made) =
        create_control_access_token-ok node identity token_lifetime now s secret in
      let current : (not (now + token_lifetime == 0) && ltb (now + token_lifetime) later) ≡ false =
        ground arith in
      let accepted : authenticate_control_request node (some (s ∷ secret)) later
            (some (codes "Bearer " ++ token))
          ≡ ok identity =
        authenticate-create_control_access_token node identity token_lifetime now later s secret
          token filled made
        ∙ rw current in
      (
        token,
        ap
              (λ (r : Option (Option ControlIdentity)).
                login_response r
                  (λ i. create_control_access_token node i token_lifetime now (some (s ∷ secret))))
              (credentials-accepted env_username p password username named)
            ∙ ap token_response made,
        users_me-ok (some (s ∷ secret)) later (some (codes "Bearer " ++ token)) identity accepted,
      )
