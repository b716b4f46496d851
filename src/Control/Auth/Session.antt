-- ===== src/Control/Auth/Session.antt =====
-- Session ids (control-auth.ts): who may use an id that the server has made.
use wind_solar_ess_agent.Base.{
  ℕ, ◌≡◌, refl, ◌∙◌, ap, Bool, true, false, Option, some, List, [], ◌∷◌, ◌++◌, arith, ◌==◌,
  All-append, if◌then◌else◌,
}
use wind_solar_ess_agent.Js.Text.{Text, codes, text_eq, text_eq→eq, split_on, starts_with}
use wind_solar_ess_agent.Control.Auth.{
  ControlIdentity, Node, IsBase64Url, ok, auth_error, part, rest, check, timing_safe_equal, dotted,
  create_control_session_id, strip_session, first_piece, subject_part, authorize_parts,
  authorize_control_session,
}
use wind_solar_ess_agent.Control.Auth.Signed.{
  Lacks, split_on-append, split_on_whole, IsBase64Url-Lacks_dot, IsBase64Url-Lacks_tilde, part_pos,
  timing_safe_equal_refl, length_refl, require-ok,
}

module _ (node : Node) where
  open node use {base64url, from_base64url, hmac, utf8}

  -- The part of a session id that is signed.
  abbrev session_payload : Text → Text → Text
  session_payload user uuid = base64url user ++ b'~' ∷ uuid

  strip_session-prefix : (t : Text) → strip_session (codes "session_" ++ t) ≡ t
  unfolding strip_session starts_with
  strip_session-prefix t = refl

  subject_part-payload :
      (user uuid : Text) → subject_part (session_payload user uuid) ≡ base64url user
  unfolding subject_part
  subject_part-payload user uuid = ap first_piece (
      split_on-append b'~' (base64url user) uuid
        (IsBase64Url-Lacks_tilde _ (node.base64url-IsBase64Url user)))

  session_payload-Lacks_dot :
      (user uuid : Text) → IsBase64Url uuid → Lacks b'.' (session_payload user uuid)
  session_payload-Lacks_dot user uuid h =
      All-append (λ c. (c == b'.') ≡ false) (base64url user) (b'~' ∷ uuid)
        (IsBase64Url-Lacks_dot _ (node.base64url-IsBase64Url user))
        (refl, IsBase64Url-Lacks_dot uuid h)

  -- The two parts of a signed id.
  split_signed :
      (a b : Text) → Lacks b'.' a → Lacks b'.' b → split_on b'.' (dotted a b) ≡ a ∷ b ∷ []
  unfolding dotted
  split_signed a b h k = split_on-append b'.' a b h ∙ ap (a ∷◌) (split_on_whole b'.' b k)

  part-append :
      (a : Text) (c : ℕ) (b : Text) (parts : List Text)
      → part ((a ++ c ∷ b) ∷ parts) ≡ some (a ++ c ∷ b)
  part-append [] c b parts = refl
  part-append (d ∷ a) c b parts = refl

  -- A payload with its own signature passes up to the test of the subject.
  authorize_parts-signed :
      (c : ℕ) (secret : Text) (identity : ControlIdentity) (payload : Text)
      → authorize_parts node (some (c ∷ secret)) identity payload (hmac payload (c ∷ secret))
        ≡ check
            (text_eq (from_base64url (subject_part payload)) identity.user_id)
            403
            (codes "session_forbidden")
            (ok tt)
  unfolding authorize_parts
  authorize_parts-signed c secret identity payload = rw (
    length_refl (hmac payload (c ∷ secret)),
    timing_safe_equal_refl (utf8 (hmac payload (c ∷ secret))),
  )

  -- An id whose text splits into two parts is judged by them.
  authorize-split :
      (env : Option Text) (identity : ControlIdentity) (id p q : Text)
      → split_on b'.' (strip_session id) ≡ p ∷ q ∷ []
      → part (p ∷ q ∷ []) ≡ some p
      → part (q ∷ []) ≡ some q
      → authorize_control_session node env identity id ≡ authorize_parts node env identity p q
  unfolding authorize_control_session
  authorize-split env identity id p q split h k = simp (split, h, k)

  authorize-signed :
      (owner visitor : ControlIdentity) (uuid : Text) (c : ℕ) (secret : Text)
      → IsBase64Url uuid
      → node.well_formed owner.user_id ≡ true
      → authorize_control_session node (some (c ∷ secret)) visitor (
          codes "session_"
          ++ dotted
              (session_payload owner.user_id uuid)
              (hmac (session_payload owner.user_id uuid) (c ∷ secret)))
        ≡ (if text_eq owner.user_id visitor.user_id
            then ok tt
            else auth_error 403 (codes "session_forbidden"))
  authorize-signed owner visitor uuid c secret h wf =
      let p = session_payload owner.user_id uuid in
      let q = hmac p (c ∷ secret) in
      let split : split_on b'.' (strip_session (codes "session_" ++ dotted p q)) ≡ p ∷ q ∷ [] =
        ap (split_on b'.') (strip_session-prefix (dotted p q))
        ∙ split_signed p q (session_payload-Lacks_dot owner.user_id uuid h)
            (IsBase64Url-Lacks_dot q (node.hmac-IsBase64Url p (c ∷ secret))) in
      let subject : from_base64url (subject_part p) ≡ owner.user_id =
        ap from_base64url (subject_part-payload owner.user_id uuid)
        ∙ node.from_base64url-base64url owner.user_id wf in
      authorize-split (some (c ∷ secret)) visitor (codes "session_" ++ dotted p q) p q split
        (part-append (base64url owner.user_id) b'~' uuid (q ∷ []))
        (part_pos q [] (node.hmac-pos p (c ∷ secret)))
      ∙ authorize_parts-signed c secret visitor p
      ∙ rw subject (check-if (text_eq owner.user_id visitor.user_id))
    where
      check-if :
          (b : Bool)
          → check b 403 (codes "session_forbidden") (ok tt)
            ≡ (if b then ok (tt {0}) else auth_error 403 (codes "session_forbidden"))
      check-if true = refl
      check-if false = refl

  -- A session id made for `owner` lets exactly the requests of the owner's user pass: all others
  -- are refused with 403. The secret is set and not empty, the uuid is base64url, and the owner's id
  -- has no unpaired surrogate.
  pub authorize-create_control_session_id :
      (owner visitor : ControlIdentity) (uuid : Text) (c : ℕ) (secret id : Text)
      → IsBase64Url uuid
      → node.well_formed owner.user_id ≡ true
      → create_control_session_id node owner uuid (some (c ∷ secret)) ≡ ok id
      → authorize_control_session node (some (c ∷ secret)) visitor id ≡ (
          if text_eq owner.user_id visitor.user_id
          then ok tt
          else auth_error 403 (codes "session_forbidden"))
  unfolding create_control_session_id
  authorize-create_control_session_id owner visitor uuid c secret id h wf made =
      let p = session_payload owner.user_id uuid in
      let same : codes "session_" ++ dotted p (hmac p (c ∷ secret)) ≡ id = cc in
      rw (← same) (authorize-signed owner visitor uuid c secret h wf)

  -- What a session id must be to be accepted: its first part signed with the secret by its second,
  -- and the user's id encoded in front of the tilde.
  pub record IsOwned (secret user id : Text) : Type 0 where
    pub payload : Text
    pub signature : Text
    pub payload_part : part (split_on b'.' (strip_session id)) ≡ some payload
    pub signature_part : part (rest (split_on b'.' (strip_session id))) ≡ some signature
    pub signed : signature ≡ hmac payload secret
    pub subject : from_base64url (subject_part payload) ≡ user

  authorize_parts-tests :
      (c : ℕ) (secret : Text) (identity : ControlIdentity) (p q : Text)
      → authorize_parts node (some (c ∷ secret)) identity p q ≡ ok tt
      → (text_eq (utf8 q) (utf8 (hmac p (c ∷ secret))) ≡ true)
        × (text_eq (from_base64url (subject_part p)) identity.user_id ≡ true)
  unfolding authorize_parts timing_safe_equal
  authorize_parts-tests c secret identity p q h = ground arith

  authorize_parts-ok :
      (c : ℕ) (secret : Text) (identity : ControlIdentity) (p q : Text)
      → authorize_parts node (some (c ∷ secret)) identity p q ≡ ok tt
      → (q ≡ hmac p (c ∷ secret)) × (from_base64url (subject_part p) ≡ identity.user_id)
  authorize_parts-ok c secret identity p q h =
      let (bytes, subject) = authorize_parts-tests c secret identity p q h in
      (
        node.utf8-ascii q (hmac p (c ∷ secret)) (node.hmac-IsBase64Url p (c ∷ secret)) bytes,
        text_eq→eq _ _ subject,
      )

  -- Whoever passes the check of a session id holds an id that is signed with the secret, for the
  -- id of this very user. The secret is set and not empty.
  pub authorize_control_session-ok :
      (c : ℕ) (secret : Text) (visitor : ControlIdentity) (id : Text)
      → authorize_control_session node (some (c ∷ secret)) visitor id ≡ ok tt
      → IsOwned (c ∷ secret) visitor.user_id id
  unfolding authorize_control_session
  authorize_control_session-ok c secret visitor id h =
      let (p, at_p, h1) = require-ok (part (split_on b'.' (strip_session id))) 404 _ _ _ h in
      let (q, at_q, h2) =
        require-ok (part (rest (split_on b'.' (strip_session id)))) 404 _ _ _ h1 in
      let (signed, subject) = authorize_parts-ok c secret visitor p q h2 in
      record {
        payload = p;
        signature = q;
        payload_part = at_p;
        signature_part = at_q;
        signed = signed;
        subject = subject;
      }
