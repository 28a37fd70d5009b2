-- ===== src/Api/Token/Signed.antt =====
-- internal/api/jwt.go: the tokens that the server signs are accepted until they expire.
use Prim.Native.Char.{Char, code}
use Prim.Native.String.{String}
use Prim.Native.String
use text.Mathlib.TextLemmas.{nil-append, cons-append, append-nil, append_assoc}
use secrets_dispatcher.Prelude.{
  ℕ, ◌+◌, ◌≡◌, refl, sym, ap, ◌∙◌, false, some, [], ◌∷◌, ◌==◌, eqb, ltb, eq_refl, arith,
  if◌then◌else◌,
}
use secrets_dispatcher.Text.{concat}
use secrets_dispatcher.Api.Token.{
  Codec, CodecLaws, claims_at, jwt_header, valid, invalid, token_expired, jwt_expiry, has_dot,
  split_dots, signing_input, generate_jwt, validate_jwt, checked_parts,
}

cons_plain :
    (c : Char) (s : String)
    → has_dot (String.◌∷◌ c s) ≡ false
    → (eqb (code c) b'.' ≡ false) × (has_dot s ≡ false)
cons_plain c s h = ground arith

split-plain :
    (s rest : String)
    → has_dot s ≡ false
    → split_dots (String.◌++◌ s (String.◌++◌ "." rest)) ≡ s ∷ split_dots rest
unfolding split_dots
split-plain String.[] rest h =
    rw (nil-append (String.◌++◌ "." rest), cons-append "." "" rest, nil-append rest) refl
split-plain (String.◌∷◌ c s) rest h =
    let p = cons_plain c s h in
    rw (cons-append c s (String.◌++◌ "." rest), p.0, split-plain s rest p.1) refl

split_last : (s : String) → has_dot s ≡ false → split_dots s ≡ s ∷ []
unfolding split_dots
split_last String.[] h = refl
split_last (String.◌∷◌ c s) h = let p = cons_plain c s h in rw (p.0, split_last s p.1) refl

-- The parts of a signed token.
split_token :
    (h c s : String)
    → has_dot h ≡ false
    → has_dot c ≡ false
    → has_dot s ≡ false
    → split_dots (concat (signing_input h c ∷ "." ∷ s ∷ [])) ≡ h ∷ c ∷ s ∷ []
split_token h c s hh hc hs =
    rw
      (
        append-nil s,
        append-nil c,
        append_assoc h (String.◌++◌ "." c) (String.◌++◌ "." s),
        append_assoc "." c (String.◌++◌ "." s),
        split-plain h (String.◌++◌ c (String.◌++◌ "." s)) hh,
        split-plain c s hc,
        split_last s hs,
      )
      refl

-- A token that the server signs with a nonce is accepted by the same key with the claims that were
-- signed, up to and in the second of its expiry, and is refused as expired from the next second on.
pub validate_jwt-generate_jwt :
    (k : Codec) (key nonce token : String) (now later : ℕ)
    → CodecLaws k key (claims_at now nonce)
    → (nonce == "") ≡ false
    → generate_jwt k key (some nonce) now ≡ some token
    → validate_jwt k key token later ≡ (
        if ltb (now + jwt_expiry) later then invalid token_expired else valid (claims_at now nonce))
unfolding generate_jwt validate_jwt
validate_jwt-generate_jwt k key nonce token now later laws given made =
    let claims = claims_at now nonce in
    let h = k.encode_header jwt_header in
    let c = k.encode_claims claims in
    let s = k.hmac key (signing_input h c) in
    let split = split_token h c s laws.header_plain laws.claims_plain laws.hmac_plain in
    let is_token : concat (signing_input h c ∷ "." ∷ s ∷ []) ≡ token = cc made in
    ap (λ t. checked_parts (split_dots t) k key later) (sym is_token)
    ∙ rw (split, eq_refl s, laws.header_back, laws.claims_back, given) refl
