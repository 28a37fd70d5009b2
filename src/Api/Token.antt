-- ===== src/Api/Token.antt =====
-- internal/api/jwt.go: the login tokens. Base64, JSON and HMAC-SHA256 are the fields of `Codec`.
pub mod Signed
use Prim.Native.Char.{Char, code}
use secrets_dispatcher.Prelude.{
  ℕ, ◌+◌, String, ◌≡◌, refl, Bool, true, false, not, ◌&&◌, ◌||◌, Option, none, some, List, [], ◌∷◌,
  ◌==◌, eqb, ltb, any, if◌then◌else◌,
}
use secrets_dispatcher.Text.{codes, concat}

pub record JwtHeader : Type 0 where
  pub alg : String
  pub typ : String

-- Times are seconds.
pub record Claims : Type 0 where
  pub exp : ℕ
  pub iat : ℕ
  pub jti : String

-- `base64.RawURLEncoding` after and before `json.Marshal` and `json.Unmarshal`, and the HMAC of a text
-- under a key, in base64.
pub record Codec : Type 0 where
  pub encode_header : JwtHeader → String
  pub encode_claims : Claims → String
  pub decode_header : String → Option JwtHeader
  pub decode_claims : String → Option Claims
  pub hmac : String → String → String

abbrev pub has_dot : String → Bool
has_dot s = any (λ c. eqb c b'.') (codes s)

abbrev pub put_char : Char → List String → List String
put_char c [] = String.◌∷◌ c "" ∷ []
put_char c (s ∷ ss) = String.◌∷◌ c s ∷ ss

-- `strings.Split(s, ".")`.
unfoldable pub split_dots : String → List String
split_dots String.[] = "" ∷ []
split_dots (String.◌∷◌ c s) =
    if eqb (code c) b'.' then "" ∷ split_dots s else put_char c (split_dots s)

abbrev pub jwt_expiry : ℕ
jwt_expiry = 300

-- The errors of `ValidateJWT`.
pub data JwtError : Type 0 where
  invalid_format invalid_signature bad_header unsupported_type bad_claims : JwtError
  token_expired missing_jti : JwtError

pub data Validated : Type 0 where
  valid : Claims → Validated
  invalid : JwtError → Validated

abbrev pub signing_input : String → String → String
signing_input header claims = concat (header ∷ "." ∷ claims ∷ [])

-- The header of every token.
abbrev pub jwt_header : JwtHeader
jwt_header = record { alg = "HS256"; typ = "JWT" }

abbrev pub claims_at : ℕ → String → Claims
claims_at now nonce = record { exp = now + jwt_expiry; iat = now; jti = nonce }

-- `GenerateJWT`, with the random nonce: none is the error of the random source.
unfoldable pub generate_jwt : Codec → String → Option String → ℕ → Option String
generate_jwt k key none now = none
generate_jwt k key (some nonce) now =
    let header = k.encode_header jwt_header in
    let claims = k.encode_claims (claims_at now nonce) in
    let input = signing_input header claims in some (concat (input ∷ "." ∷ k.hmac key input ∷ []))

abbrev pub checked_claims : Option Claims → ℕ → Validated
checked_claims none now = invalid bad_claims
checked_claims (some c) now =
    if ltb c.exp now
    then invalid token_expired
    else if c.jti == ""
    then invalid missing_jti
    else valid c

abbrev pub checked_header : Option JwtHeader → Codec → String → ℕ → Validated
checked_header none k claims now = invalid bad_header
checked_header (some h) k claims now =
    if not (h.alg == "HS256") || not (h.typ == "JWT")
    then invalid unsupported_type
    else checked_claims (k.decode_claims claims) now

abbrev pub checked_parts : List String → Codec → String → ℕ → Validated
checked_parts (header ∷ claims ∷ signature ∷ []) k key now =
    if not (signature == k.hmac key (signing_input header claims))
    then invalid invalid_signature
    else checked_header (k.decode_header header) k claims now
checked_parts _ k key now = invalid invalid_format

unfoldable pub validate_jwt : Codec → String → String → ℕ → Validated
unfolding split_dots
validate_jwt k key token now = checked_parts (split_dots token) k key now

-- What the code relies on for the claims it signs: decoding undoes encoding, and base64 has no dot.
pub record CodecLaws (k : Codec) (key : String) (c : Claims) : Type 0 where
  pub header_back : k.decode_header (k.encode_header jwt_header) ≡ some jwt_header
  pub claims_back : k.decode_claims (k.encode_claims c) ≡ some c
  pub header_plain : has_dot (k.encode_header jwt_header) ≡ false
  pub claims_plain : has_dot (k.encode_claims c) ≡ false
  pub hmac_plain :
      has_dot (k.hmac key (signing_input (k.encode_header jwt_header) (k.encode_claims c))) ≡ false
