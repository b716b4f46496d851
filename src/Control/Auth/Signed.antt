-- ===== src/Control/Auth/Signed.antt =====
-- Texts of signed tokens: base64url parts with dots between them, how they split, and that `trim`
-- leaves them alone; and what a result that is `ok` says of the steps that made it.
use mathlib.Core.List.{reverse, reverse-cons, reverse-reverse}
use wind_solar_ess_agent.Base.{
  ℕ, ◌≡◌, refl, ◌∙◌, ap, Bool, true, false, List, [], ◌∷◌, ◌++◌, arith, ◌==◌, All, All-append,
  All-map, length, Option, none, some,
}
use wind_solar_ess_agent.Js.Text.{
  Text, is_space, trim, trim_start, trim_end, split_on, onto_first, text_eq_refl,
}
use wind_solar_ess_agent.Control.Auth.{
  is_base64url, IsBase64Url, part, timing_safe_equal, AuthResult, ok, auth_error, thrown, require,
  check, ◌>>=◌,
}

-- The separator does not occur.
abbrev pub Lacks : ℕ → Text → Type 0
Lacks sep t = All (λ c. (c == sep) ≡ false) t

abbrev pub NoSpace : Text → Type 0
NoSpace t = All (λ c. is_space c ≡ false) t

pub split_on-append :
    (sep : ℕ) (a b : Text) → Lacks sep a → split_on sep (a ++ sep ∷ b) ≡ a ∷ split_on sep b
unfolding split_on
split_on-append sep [] b h = ground arith
split_on-append sep (c ∷ a) b (p, h) = rw p (ap (onto_first c) (split_on-append sep a b h))

pub split_on_whole : (sep : ℕ) (a : Text) → Lacks sep a → split_on sep a ≡ a ∷ []
unfolding split_on
split_on_whole sep [] h = refl
split_on_whole sep (c ∷ a) (p, h) = rw p (ap (onto_first c) (split_on_whole sep a h))

trim_start-NoSpace : (t : Text) → NoSpace t → trim_start t ≡ t
unfolding trim_start
trim_start-NoSpace [] h = refl
trim_start-NoSpace (c ∷ t) (p, h) = rw p

NoSpace-reverse : (t : Text) → NoSpace t → NoSpace (reverse t)
NoSpace-reverse [] h = tt
NoSpace-reverse (c ∷ t) (p, h) =
    rw (reverse-cons c t)
      (All-append (λ c. is_space c ≡ false) (reverse t) (c ∷ []) (NoSpace-reverse t h) (p, tt))

pub trim-NoSpace : (t : Text) → NoSpace t → trim t ≡ t
unfolding trim trim_end
trim-NoSpace t h =
    rw (trim_start-NoSpace t h)
      (ap reverse (trim_start-NoSpace (reverse t) (NoSpace-reverse t h)) ∙ reverse-reverse t)

base64url-NoSpace : (c : ℕ) → is_base64url c ≡ true → is_space c ≡ false
unfolding is_space
base64url-NoSpace c h = ground arith

pub IsBase64Url-NoSpace : (t : Text) → IsBase64Url t → NoSpace t
IsBase64Url-NoSpace t =
    All-map (λ (c : ℕ). is_base64url c ≡ true) (λ c. is_space c ≡ false) t base64url-NoSpace

pub IsBase64Url-Lacks_dot : (t : Text) → IsBase64Url t → Lacks b'.' t
IsBase64Url-Lacks_dot t =
    All-map (λ (c : ℕ). is_base64url c ≡ true) (λ c. (c == b'.') ≡ false) t (λ c h. ground arith)

pub IsBase64Url-Lacks_tilde : (t : Text) → IsBase64Url t → Lacks b'~' t
IsBase64Url-Lacks_tilde t =
    All-map (λ (c : ℕ). is_base64url c ≡ true) (λ c. (c == b'~') ≡ false) t (λ c h. ground arith)

-- A text with a character is a part.
pub part_pos : (t : Text) (parts : List Text) → (length t == 0) ≡ false → part (t ∷ parts) ≡ some t
part_pos [] parts h = cc
part_pos (c ∷ t) parts h = refl

pub timing_safe_equal_refl : (a : List ℕ) → timing_safe_equal a a ≡ ok true
unfolding timing_safe_equal
timing_safe_equal_refl a = rw (text_eq_refl a) (ground arith)

pub length_refl : (a : Text) → (length a == length a) ≡ true
length_refl a = ground arith

pub bind-ok :
    {A B : Type 0} (r : AuthResult A) (f : A → AuthResult B) (b : B)
    → (r >>= f) ≡ ok b
    → (a : A) × (r ≡ ok a) × (f a ≡ ok b)
bind-ok (ok a) f b h = (a, refl, h)
bind-ok (auth_error status code) f b h = cc
bind-ok (thrown e) f b h = cc

pub require-ok :
    {A B : Type 0} (o : Option A) (status : ℕ) (code : Text) (f : A → AuthResult B) (b : B)
    → (require o status code >>= f) ≡ ok b
    → (a : A) × (o ≡ some a) × (f a ≡ ok b)
require-ok none status code f b h = cc
require-ok (some a) status code f b h = (a, refl, h)

pub check-ok :
    {A : Type 0} (test : Bool) (status : ℕ) (code : Text) (next : AuthResult A) (a : A)
    → check test status code next ≡ ok a
    → (test ≡ true) × (next ≡ ok a)
check-ok true status code next a h = (refl, h)
check-ok false status code next a h = cc
