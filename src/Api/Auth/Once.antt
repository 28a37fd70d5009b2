-- ===== src/Api/Auth/Once.antt =====
-- internal/api/auth.go: a login token opens one session, up to the second of its expiry.
use secrets_dispatcher.Prelude.{
  ℕ, ◌≤◌, ◌<◌, String, ◌≡◌, refl, sym, ap, subst, ◌∙◌, Bool, true, false, not, Option, none, some,
  List, [], ◌∷◌, ◌==◌, eq_iff, eq_refl, All, Bool-cases, Option-cases, if_elim, inl, inr, arith,
}
use secrets_dispatcher.Prelude.Dict.{Dict, get, insert, get-insert}
use secrets_dispatcher.Api.Token.{
  Codec, Claims, JwtHeader, Validated, valid, invalid, validate_jwt, checked_parts, checked_header,
  checked_claims, split_dots,
}
use secrets_dispatcher.Api.Auth.{
  Auth, Response, prune, consume_jti, record_jti, set_session_cookie, redeemed, exchanged,
  token_exchanged, handle_auth, rejected,
}

-- An entry that has not expired is not pruned.
get-prune :
    (now : ℕ) (m : Dict ℕ) (id : String) (exp : ℕ)
    → get id m ≡ some exp
    → now < exp
    → get id (prune now m) ≡ some exp
unfolding get prune
get-prune now [] id exp e h = cc
get-prune now ((j, w) ∷ m) id exp e h = ground (arith, get-prune now m id exp)

-- An entry that has expired is, and it stands once in the map.
get-prune-insert :
    (now : ℕ) (m : Dict ℕ) (id : String) (exp : ℕ)
    → get id m ≡ none
    → exp ≤ now
    → get id (prune now (insert id exp m)) ≡ none
unfolding get prune insert
get-prune-insert now [] id exp e h = ground arith
get-prune-insert now ((j, w) ∷ m) id exp e h = ground (arith, get-prune-insert now m id exp)

-- One redemption: whether the method is POST, the token, the random session ID, and the readings of
-- the clock.
pub record Attempt : Type 0 where
  pub is_post : Bool
  pub body : Option String
  pub session : Option String
  pub now : ℕ
  pub later : ℕ

abbrev pub attempt : Codec → Auth → Attempt → Auth × Response
attempt k a t = handle_auth k a t.is_post t.body t.session t.now t.later

unfoldable pub after_attempts : Codec → Auth → List Attempt → Auth
after_attempts k a [] = a
after_attempts k a (t ∷ ts) = after_attempts k (attempt k a t).0 ts

-- The nonce is recorded as used, and the master token is as given.
record Spent (a : Auth) (id : String) (exp : ℕ) (token : String) : Type 0 where
  spent : get id a.used_jtis ≡ some exp
  master : a.token ≡ token

module _ (id : String) (exp : ℕ) (master : String) where
  consume-Spent :
      (a : Auth) (j : String) (e now : ℕ)
      → now < exp
      → Spent a id exp master
      → Spent (consume_jti a j e now).0 id exp master
  unfolding consume_jti
  consume-Spent a j e now h s = go (get j (prune now a.used_jtis)) refl
    where
      go :
          (o : Option ℕ)
          → get j (prune now a.used_jtis) ≡ o
          → Spent (record_jti o a (prune now a.used_jtis) j e).0 id exp master
      go (some seen) f = record {
        spent = get-prune now a.used_jtis id exp s.spent h;
        master = s.master;
      }
      go none f = record {
        spent = ground (
          arith,
          get-insert j id e (prune now a.used_jtis),
          eq_iff j id,
          get-prune now a.used_jtis id exp s.spent h,
        );
        master = s.master;
      }

  redeemed-Spent :
      (r : Auth × Bool) (session : Option String)
      → Spent r.0 id exp master
      → Spent (redeemed r session).0 id exp master
  unfolding set_session_cookie
  redeemed-Spent (a, false) session s = s
  redeemed-Spent (a, true) none s = s
  redeemed-Spent (a, true) (some i) s = record { spent = s.spent; master = s.master }

  exchanged-Spent :
      (v : Validated) (a : Auth) (session : Option String) (now : ℕ)
      → now < exp
      → Spent a id exp master
      → Spent (exchanged v a session now).0 id exp master
  exchanged-Spent (invalid e) a session now h s = s
  exchanged-Spent (valid c) a session now h s =
      redeemed-Spent (consume_jti a c.jti c.exp now) session (consume-Spent a c.jti c.exp now h s)

  token-Spent :
      (k : Codec) (body : Option String) (a : Auth) (session : Option String) (now later : ℕ)
      → later < exp
      → Spent a id exp master
      → Spent (token_exchanged body k a session now later).0 id exp master
  token-Spent k none a session now later h s = s
  token-Spent k (some token) a session now later h s =
      if_elim (λ (r : Auth × Response). Spent r.0 id exp master) (token == "") (a, rejected 400)
        (exchanged (validate_jwt k a.token token now) a session later) s
        (exchanged-Spent (validate_jwt k a.token token now) a session later h s)

  attempt-Spent :
      (k : Codec) (a : Auth) (t : Attempt)
      → t.later < exp
      → Spent a id exp master
      → Spent (attempt k a t).0 id exp master
  unfolding handle_auth
  attempt-Spent k a t h s =
      if_elim (λ (r : Auth × Response). Spent r.0 id exp master) (not t.is_post) (a, rejected 405)
        (token_exchanged t.body k a t.session t.now t.later) s
        (token-Spent k t.body a t.session t.now t.later h s)

  attempts-Spent :
      (k : Codec) (a : Auth) (ts : List Attempt)
      → All (λ t. t.later < exp) ts
      → Spent a id exp master
      → Spent (after_attempts k a ts) id exp master
  unfolding after_attempts
  attempts-Spent k a [] h s = s
  attempts-Spent k a (t ∷ ts) h s =
      attempts-Spent k (attempt k a t).0 ts h.1 (attempt-Spent k a t h.0 s)

claims_read :
    (o : Option Claims) (now : ℕ) (c : Claims) → checked_claims o now ≡ valid c → o ≡ some c
claims_read none now c h = cc
claims_read (some x) now c h = ground arith

header_read :
    (o : Option JwtHeader) (k : Codec) (claims : String) (now : ℕ) (c : Claims)
    → checked_header o k claims now ≡ valid c
    → k.decode_claims claims ≡ some c
header_read none k claims now c h = cc
header_read (some x) k claims now c h = ground (arith, claims_read (k.decode_claims claims) now c)

-- The second part of a token.
claims_part : List String → String
claims_part (header ∷ claims ∷ rest) = claims
claims_part _ = ""

parts_read :
    (parts : List String) (k : Codec) (key : String) (now : ℕ) (c : Claims)
    → checked_parts parts k key now ≡ valid c
    → k.decode_claims (claims_part parts) ≡ some c
unfolding claims_part
parts_read [] k key now c h = cc
parts_read (a ∷ []) k key now c h = cc
parts_read (a ∷ b ∷ []) k key now c h = cc
parts_read (a ∷ b ∷ s ∷ d ∷ r) k key now c h = cc
parts_read (a ∷ b ∷ s ∷ []) k key now c h =
    ground (arith, header_read (k.decode_header a) k b now c)

-- The claims that a token is accepted with do not depend on the time.
validate-same :
    (k : Codec) (key token : String) (now then_ : ℕ) (c d : Claims)
    → validate_jwt k key token now ≡ valid c
    → validate_jwt k key token then_ ≡ valid d
    → c ≡ d
unfolding validate_jwt
validate-same k key token now then_ c d h g =
    cc (parts_read (split_dots token) k key now c h, parts_read (split_dots token) k key then_ d g)

not_empty :
    (k : Codec) (key token : String) (now : ℕ) (c : Claims)
    → validate_jwt k key token now ≡ valid c
    → (token == "") ≡ false
unfolding validate_jwt split_dots
not_empty k key token now c h = elim (Bool-cases (token == "")) [
  | inr e ↦ e
  | inl e ↦
      absurd
        (cc (sym (ap (λ t. checked_parts (split_dots t) k key now) ((eq_iff token "").0 e)) ∙ h))
]

-- What an attempt with a token that validates comes to.
attempt-valid :
    (k : Codec) (a : Auth) (t : Attempt) (token : String) (c : Claims)
    → t.is_post ≡ true
    → t.body ≡ some token
    → validate_jwt k a.token token t.now ≡ valid c
    → attempt k a t ≡ redeemed (consume_jti a c.jti c.exp t.later) t.session
unfolding handle_auth
attempt-valid k a t token c p b v = rw (p, b, not_empty k a.token token t.now c v, v) refl

consumed :
    (a : Auth) (id : String) (exp now : ℕ)
    → get id (prune now a.used_jtis) ≡ none
    → consume_jti a id exp now
      ≡ (record a { used_jtis = insert id exp (prune now a.used_jtis) }, true)
unfolding consume_jti
consumed a id exp now e = rw e refl

seen_again :
    (a : Auth) (id : String) (exp now seen : ℕ)
    → get id (prune now a.used_jtis) ≡ some seen
    → consume_jti a id exp now ≡ (record a { used_jtis = prune now a.used_jtis }, false)
unfolding consume_jti
seen_again a id exp now seen e = rw e refl

first_spends :
    (a : Auth) (c : Claims) (now : ℕ) (session : Option String)
    → (redeemed (consume_jti a c.jti c.exp now) session).1.status ≡ 200
    → Spent (redeemed (consume_jti a c.jti c.exp now) session).0 c.jti c.exp a.token
first_spends a c now session h = elim (Option-cases (get c.jti (prune now a.used_jtis))) [
  | inr (seen, e) ↦
      let never : ◌≡◌ {A = ℕ} 401 200 =
        sym (
          ap (λ (r : Auth × Bool). (redeemed r session).1.status)
            (seen_again a c.jti c.exp now seen e))
        ∙ h in
      absurd (omega arith)
  | inl e ↦
      let used = insert c.jti c.exp (prune now a.used_jtis) in
      rw (consumed a c.jti c.exp now e) (
        redeemed-Spent c.jti c.exp a.token (record a { used_jtis = used }, true) session
          (record {
            spent = get-insert c.jti c.jti c.exp (prune now a.used_jtis) ∙ rw (eq_refl c.jti) refl;
            master = refl;
          }))
]

no_cookie_again :
    (a : Auth) (c : Claims) (master : String) (session : Option String) (later : ℕ) (v : Validated)
    → Spent a c.jti c.exp master
    → later < c.exp
    → ((d : Claims) → v ≡ valid d → c ≡ d)
    → (exchanged v a session later).1.set_cookie ≡ none
no_cookie_again a c master session later (invalid e) s early same = refl
no_cookie_again a c master session later (valid d) s early same =
    subst (λ (x : Claims). (exchanged (valid x) a session later).1.set_cookie ≡ none) (same d refl)
      (rw
        (seen_again a c.jti c.exp later c.exp
          (get-prune later a.used_jtis c.jti c.exp s.spent early))
        refl)

-- A login token that has opened a session opens no second one before the second of its expiry,
-- whatever other redemptions, of this token or of others, come between: the browser gets no cookie.
pub redeemed_once :
    (k : Codec) (a : Auth) (token : String) (c : Claims) (first again : Attempt)
    (others : List Attempt)
    → first.is_post ≡ true
    → first.body ≡ some token
    → again.body ≡ some token
    → validate_jwt k a.token token first.now ≡ valid c
    → (attempt k a first).1.status ≡ 200
    → All (λ t. t.later < c.exp) others
    → again.later < c.exp
    → (attempt k (after_attempts k (attempt k a first).0 others) again).1.set_cookie ≡ none
unfolding handle_auth
redeemed_once k a token c first again others p b b' v opened before early =
    let same = attempt-valid k a first token c p b v in
    let spent =
      subst (λ (r : Auth × Response). Spent r.0 c.jti c.exp a.token) (sym same)
        (first_spends a c first.later first.session
          (ap (λ (r : Auth × Response). r.1.status) (sym same) ∙ opened)) in
    let z = after_attempts k (attempt k a first).0 others in
    let s = attempts-Spent c.jti c.exp a.token k (attempt k a first).0 others before spent in
    let none_again =
      no_cookie_again z c a.token again.session again.later (validate_jwt k z.token token again.now)
        s early
        (λ d e.
          validate-same k a.token token first.now again.now c d v
            (ap (λ key. validate_jwt k key token again.now) (sym s.master) ∙ e)) in
    rw b' (
      if_elim (λ (r : Auth × Response). r.1.set_cookie ≡ none) (not again.is_post) (z, rejected 405)
        (token_exchanged (some token) k z again.session again.now again.later) refl
        (if_elim (λ (r : Auth × Response). r.1.set_cookie ≡ none) (token == "") (z, rejected 400)
          (exchanged (validate_jwt k z.token token again.now) z again.session again.later) refl
          none_again))

-- A redemption within one second.
abbrev pub redeem : Codec → Auth → String → String → ℕ → Auth × Response
redeem k a token session now = handle_auth k a true (some token) (some session) now now

redeem-unused :
    (k : Codec) (a : Auth) (token session : String) (c : Claims) (now : ℕ)
    → validate_jwt k a.token token now ≡ valid c
    → get c.jti (prune now a.used_jtis) ≡ none
    → redeem k a token session now ≡ (
      record a {
        sessions = session ∷ a.sessions;
        used_jtis = insert c.jti c.exp (prune now a.used_jtis);
      },
      record { status = 200; set_cookie = some session },
    )
unfolding set_session_cookie
redeem-unused k a token session c now v unused =
    attempt-valid k a
      (record { is_post = true; body = some token; session = some session; now = now; later = now })
      token c refl refl v
    ∙ rw (consumed a c.jti c.exp now unused) refl

-- In the second of its expiry a token is still accepted, and its nonce is pruned before it is looked up:
-- there it opens one session after the other, if the nonce was not in use before.
pub replay_at_expiry :
    (k : Codec) (a : Auth) (token session session' : String) (c : Claims)
    → validate_jwt k a.token token c.exp ≡ valid c
    → get c.jti (prune c.exp a.used_jtis) ≡ none
    → ((redeem k a token session c.exp).1 ≡ record { status = 200; set_cookie = some session })
      × ((redeem k (redeem k a token session c.exp).0 token session' c.exp).1
          ≡ record { status = 200; set_cookie = some session' })
replay_at_expiry k a token session session' c v fresh =
    let first = redeem-unused k a token session c c.exp v fresh in
    let left : Auth = record a {
      sessions = session ∷ a.sessions;
      used_jtis = insert c.jti c.exp (prune c.exp a.used_jtis);
    } in
    let second =
      redeem-unused k left token session' c c.exp v
        (get-prune-insert c.exp (prune c.exp a.used_jtis) c.jti c.exp fresh (omega arith)) in
    (
      ap (λ (r : Auth × Response). r.1) first,
      ap (λ (r : Auth × Response). (redeem k r.0 token session' c.exp).1) first
          ∙ ap (λ (r : Auth × Response). r.1) second,
    )
