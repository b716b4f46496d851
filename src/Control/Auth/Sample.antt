-- ===== src/Control/Auth/Sample.antt =====
-- A small instance of `Node`, of which every law of the interface holds. A code unit is written in
-- unary, a signature is a constant, and claims are written with the lengths of their texts.
use wind_solar_ess_agent.Base.{
  ℕ, zero, suc, ◌+◌, ◌≡◌, refl, ◌∙◌, ap, true, false, Option, none, some, [], ◌∷◌, ◌++◌, arith,
  ◌==◌, if◌then◌else◌, length, take, drop,
}
use wind_solar_ess_agent.Js.Text.{Text, codes, text_eq, text_eq→eq}
use wind_solar_ess_agent.Control.Auth.{JwtPayload, Parsed, object, Node, IsBase64Url}

abbrev digits : ℕ → Text → Text
digits zero t = t
digits (suc n) t = b'A' ∷ digits n t

abbrev unary : Text → Text
unary [] = []
unary (c ∷ t) = digits c (b'B' ∷ unary t)

abbrev count : Text → ℕ → Text
count [] n = []
count (c ∷ t) n = elim (c == b'A') [ true ↦ count t (suc n) | false ↦ n ∷ count t 0 ]

count-digits : (n k : ℕ) (t : Text) → count (digits n t) k ≡ count t (n + k)
count-digits zero k t = ap (count t) (omega arith)
count-digits (suc n) k t = count-digits n (suc k) t ∙ ap (count t) (omega arith)

count-unary : (t : Text) → count (unary t) 0 ≡ t
count-unary [] = refl
count-unary (c ∷ t) =
    count-digits c 0 (b'B' ∷ unary t)
    ∙ ap (λ n. n ∷ count (unary t) 0) (omega arith)
    ∙ ap (c ∷◌) (count-unary t)

digits-IsBase64Url : (n : ℕ) (t : Text) → IsBase64Url t → IsBase64Url (digits n t)
digits-IsBase64Url zero t h = h
digits-IsBase64Url (suc n) t h = (refl, digits-IsBase64Url n t h)

unary-IsBase64Url : (t : Text) → IsBase64Url (unary t)
unary-IsBase64Url [] = tt
unary-IsBase64Url (c ∷ t) = digits-IsBase64Url c (b'B' ∷ unary t) (refl, unary-IsBase64Url t)

digits_pos : (n : ℕ) (t : Text) → (length (digits n (b'B' ∷ t)) == 0) ≡ false
digits_pos zero t = ground arith
digits_pos (suc n) t = ground arith

-- Optional texts, with their length in front, and optional numbers.
abbrev write_text : Option Text → Text → Text
write_text none t = 0 ∷ t
write_text (some a) t = suc (length a) ∷ a ++ t

abbrev write_number : Option ℕ → Text → Text
write_number none t = 0 ∷ t
write_number (some n) t = suc n ∷ t

abbrev read_text : Text → Option Text × Text
read_text [] = (none, [])
read_text (zero ∷ t) = (none, t)
read_text (suc n ∷ t) = (some (take n t), drop n t)

abbrev read_number : Text → Option ℕ × Text
read_number [] = (none, [])
read_number (zero ∷ t) = (none, t)
read_number (suc n ∷ t) = (some n, t)

take-length : (a t : Text) → take (length a) (a ++ t) ≡ a
take-length [] t = refl
take-length (c ∷ a) t = ap (c ∷◌) (take-length a t)

drop-length : (a t : Text) → drop (length a) (a ++ t) ≡ t
drop-length [] t = refl
drop-length (c ∷ a) t = drop-length a t

read_text-write_text : (o : Option Text) (t : Text) → read_text (write_text o t) ≡ (o, t)
read_text-write_text none t = refl
read_text-write_text (some a) t = rw (take-length a t, drop-length a t)

read_number-write_number : (o : Option ℕ) (t : Text) → read_number (write_number o t) ≡ (o, t)
read_number-write_number none t = refl
read_number-write_number (some n) t = refl

abbrev write : JwtPayload → Text
write p = write_text p.sub (write_number p.exp (write_text p.role (write_text p.tenant_id [])))

abbrev read : Text → JwtPayload
read t0 =
    let (sub, t1) = read_text t0 in
    let (exp, t2) = read_number t1 in
    let (role, t3) = read_text t2 in
    record { sub = sub; exp = exp; role = role; tenant_id = (read_text t3).0 }

read-write : (p : JwtPayload) → read (write p) ≡ p
read-write p = simp (
  read_text-write_text p.sub (write_number p.exp (write_text p.role (write_text p.tenant_id []))),
  read_number-write_number p.exp (write_text p.role (write_text p.tenant_id [])),
  read_text-write_text p.role (write_text p.tenant_id []),
  read_text-write_text p.tenant_id [],
)

write_pos : (p : JwtPayload) → (length (write p) == 0) ≡ false
write_pos p = elim p.sub [ none ↦ ground arith | some a ↦ ground arith ]

-- The header is the text "h".
abbrev read_header : Text → Option (Parsed (Option Text))
read_header t = if text_eq t (codes "h") then some (object (some (codes "HS256"))) else none

read_header-h : read_header (codes "h") ≡ some (object (some (codes "HS256")))
unfolding text_eq
read_header-h = refl

unfoldable pub sample_node : Node
unfolding count-unary unary-IsBase64Url digits_pos write_pos read-write read_header-h count-digits
    digits-IsBase64Url read_text-write_text read_number-write_number take-length drop-length
sample_node = record {
  base64url = unary;
  from_base64url = λ t. count t 0;
  hmac = λ t secret. codes "sig";
  utf8 = λ t. t;
  well_formed = λ t. true;
  header_json = codes "h";
  parse_header = read_header;
  payload_json = write;
  parse_payload = λ t. some (object (read t));
  from_base64url-base64url = λ t _. count-unary t;
  base64url-IsBase64Url = unary-IsBase64Url;
  base64url-pos = λ c t. digits_pos c (unary t);
  hmac-IsBase64Url = λ t secret. (refl, (refl, (refl, tt)));
  hmac-pos = λ t secret. refl;
  header_json-pos = refl;
  payload_json-pos = write_pos;
  header_json_well_formed = refl;
  payload_json_well_formed = λ p. refl;
  utf8-ascii = λ a b _ h. text_eq→eq a b h;
  parse_header-header_json = read_header-h;
  parse_payload-payload_json = λ p. ap (λ q. some (object q)) (read-write p);
}
