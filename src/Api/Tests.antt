-- ===== src/Api/Tests.antt =====
-- Examples of the login tokens, the sessions and the signatures of internal/api.
pub mod Signing
use secrets_dispatcher.Prelude.{
  ◌⊎◌, ℕ, String, ◌≡◌, ◌↔◌, refl, Bool, true, false, Option, none, some, List, [], ◌∷◌, All, arith,
  length, if◌then◌else◌, eqb,
}
use secrets_dispatcher.Prelude.Dict.{get, insert}
use secrets_dispatcher.Api.Token.{
  Codec, CodecLaws, Claims, jwt_header, claims_at, valid, invalid, token_expired, split_dots,
  validate_jwt, generate_jwt,
}
use secrets_dispatcher.Api.Token.Signed.{validate_jwt-generate_jwt}
use secrets_dispatcher.Api.Auth.{
  Auth, HttpRequest, new_auth, served, middleware, validate_request, validate_session, split_space,
  handle_auth, consume_jti, prune, set_session_cookie,
}
use secrets_dispatcher.Api.Auth.Once.{
  Attempt, attempt, after_attempts, redeemed_once, replay_at_expiry, redeem,
}
use secrets_dispatcher.Api.Auth.Bearer.{HasSession, bearer, admitted_iff}

abbrev claims : Claims
claims = claims_at 1000 "n"

-- A codec that reads one token, "h.c.s".
abbrev codec : Codec
codec = record {
  encode_header = λ h. "h";
  encode_claims = λ c. "c";
  decode_header = λ s. some jwt_header;
  decode_claims = λ s. some claims;
  hmac = λ key text. "s";
}

codec-Laws : CodecLaws codec "key" claims
codec-Laws = record {
  header_back = refl;
  claims_back = refl;
  header_plain = refl;
  claims_plain = refl;
  hmac_plain = refl;
}

signed_token : generate_jwt codec "key" (some "n") 1000 ≡ some "h.c.s"
unfolding generate_jwt
signed_token = refl

validate_jwt-generate_jwt_example : validate_jwt codec "key" "h.c.s" 1300 ≡ valid claims
validate_jwt-generate_jwt_example =
    validate_jwt-generate_jwt codec "key" "n" "h.c.s" 1000 1300 codec-Laws refl signed_token

abbrev fresh_auth : Auth
fresh_auth = new_auth "key"

valid_then : validate_jwt codec "key" "h.c.s" 1001 ≡ valid claims
unfolding validate_jwt split_dots
valid_then = refl

abbrev first_attempt : Attempt
first_attempt = record {
  is_post = true;
  body = some "h.c.s";
  session = some "s1";
  now = 1001;
  later = 1001;
}

abbrev second_attempt : Attempt
second_attempt = record {
  is_post = true;
  body = some "h.c.s";
  session = some "s2";
  now = 1200;
  later = 1200;
}

opened_first : (attempt codec fresh_auth first_attempt).1.status ≡ 200
unfolding handle_auth validate_jwt split_dots consume_jti prune get insert set_session_cookie
opened_first = refl

redeemed_once_example :
    (attempt codec
      (after_attempts codec (attempt codec fresh_auth first_attempt).0 (second_attempt ∷ []))
      second_attempt).1.set_cookie
    ≡ none
redeemed_once_example =
    redeemed_once codec fresh_auth "h.c.s" claims first_attempt second_attempt (second_attempt ∷ [])
      refl refl refl valid_then opened_first (omega arith, tt) (omega arith)

valid_at_expiry : validate_jwt codec "key" "h.c.s" 1300 ≡ valid claims
unfolding validate_jwt split_dots
valid_at_expiry = refl

unused : get "n" (prune 1300 fresh_auth.used_jtis) ≡ none
unfolding get prune
unused = refl

replay_at_expiry_example :
    ((redeem codec fresh_auth "h.c.s" "s1" 1300).1
      ≡ record { status = 200; set_cookie = some "s1" })
    × ((redeem codec (redeem codec fresh_auth "h.c.s" "s1" 1300).0 "h.c.s" "s2" 1300).1
        ≡ record { status = 200; set_cookie = some "s2" })
replay_at_expiry_example =
    replay_at_expiry codec fresh_auth "h.c.s" "s1" "s2" claims valid_at_expiry unused

abbrev with_bearer : HttpRequest
with_bearer = record { cookie = some "old"; authorization = "Bearer key" }

admitted_iff_example :
    ((middleware fresh_auth with_bearer ≡ served)
      ↔ (HasSession fresh_auth with_bearer ⊎ (with_bearer.authorization ≡ bearer "key")))
    × ((validate_request fresh_auth with_bearer ≡ true)
        ↔ (HasSession fresh_auth with_bearer ⊎ (with_bearer.authorization ≡ bearer "key")))
admitted_iff_example = admitted_iff fresh_auth with_bearer
