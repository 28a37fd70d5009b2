-- ===== src/Api/Auth/Bearer.antt =====
-- internal/api/auth.go: which requests the middleware lets through.
use Prim.Native.Char.{code}
use Prim.Native.String.{String}
use Prim.Native.String
use text.Mathlib.TextLemmas.{nil-append, cons-append, append-nil}
use text.Mathlib.TextEquality.{Char-path}
use secrets_dispatcher.Prelude.{
  ◌⊎◌, ◌≢◌, if◌then◌else◌, Has, any, any_reads, arith, ◌≡◌, ◌↔◌, refl, sym, ap, ap₂, subst, ◌∙◌,
  Bool, true, false, ◌||◌, Option, none, some, [], ◌∷◌, ◌==◌, eqb, eqb_iff, eq_iff, eq_refl, inl,
  inr, Bool-cases, Option-cases, arith,
}
use secrets_dispatcher.Text.{concat}
use secrets_dispatcher.Api.Auth.{
  Auth, HttpRequest, served, validate_session, split_space, with_char, bearer_matches,
  bearer_verdict, validate_request, middleware,
}

split_space-bearer : (t : String) → split_space (String.◌++◌ "Bearer " t) ≡ some ("Bearer", t)
unfolding split_space
split_space-bearer t =
    rw
      (
        cons-append "B" "earer " t,
        cons-append "e" "arer " t,
        cons-append "a" "rer " t,
        cons-append "r" "er " t,
        cons-append "e" "r " t,
        cons-append "r" " " t,
        cons-append " " "" t,
        nil-append t,
      )
      refl

-- The two parts and the space between them are the text.
split_space-joined :
    (s a b : String) → split_space s ≡ some (a, b) → s ≡ String.◌++◌ a (String.◌∷◌ " " b)
unfolding split_space
split_space-joined String.[] a b h = absurd (cc h)
split_space-joined (String.◌∷◌ c s) a b h = elim (Bool-cases (eqb (code c) b' ')) [
  | inl e ↦
      let parts : some ("", s) ≡ some (a, b) = sym (rw e refl) ∙ h in
      let first : "" ≡ a = cc parts in
      let second : s ≡ b = cc parts in
      ap₂ String.◌∷◌ (Char-path c " " ((eqb_iff (code c) b' ').0 e)) second
      ∙ sym (nil-append (String.◌∷◌ " " b))
      ∙ ap (λ x. String.◌++◌ x (String.◌∷◌ " " b)) first
  | inr e ↦ elim (Option-cases (split_space s)) [
    | inl f ↦
        let left : with_char c (split_space s) ≡ some (a, b) = sym (rw e refl) ∙ h in
        absurd (cc (left, f))
    | inr ((u, v), f) ↦
        let whole : some (String.◌∷◌ c u, v) ≡ some (a, b) = sym (rw (e, f) refl) ∙ h in
        let first : String.◌∷◌ c u ≡ a = cc whole in
        let second : v ≡ b = cc whole in
        ap (String.◌∷◌ c) (split_space-joined s u v f)
        ∙ sym (cons-append c u (String.◌∷◌ " " v))
        ∙ ap₂ (λ x y. String.◌++◌ x (String.◌∷◌ " " y)) first second
  ]
]

same_test : (p q : Bool) → (p ≡ true → q ≡ true) → (q ≡ true → p ≡ true) → p ≡ q
same_test true q f g = sym (f refl)
same_test false true f g = g refl
same_test false false f g = refl

-- What the header must read.
pub bearer : String → String
bearer token = concat ("Bearer " ∷ token ∷ [])

matches_parts :
    (o : Option (String × String)) (token : String)
    → bearer_matches o token ≡ true
    → o ≡ some ("Bearer", token)
matches_parts none token h = absurd (cc h)
matches_parts (some (scheme, given)) token h = elim (Bool-cases (scheme == "Bearer")) [
  | inr e ↦ absurd (cc (h, e))
  | inl e ↦ ap some (
      ap₂ (λ x y. (x, y)) ((eq_iff scheme "Bearer").0 e)
        ((eq_iff given token).0 (sym (rw e refl) ∙ h)))
]

bearer-joined : (token : String) → String.◌++◌ "Bearer" (String.◌∷◌ " " token) ≡ bearer token
unfolding bearer
bearer-joined t =
    rw
      (
        cons-append "B" "earer" (String.◌∷◌ " " t),
        cons-append "e" "arer" (String.◌∷◌ " " t),
        cons-append "a" "rer" (String.◌∷◌ " " t),
        cons-append "r" "er" (String.◌∷◌ " " t),
        cons-append "e" "r" (String.◌∷◌ " " t),
        cons-append "r" "" (String.◌∷◌ " " t),
        nil-append (String.◌∷◌ " " t),
        append-nil t,
        cons-append "B" "earer " t,
        cons-append "e" "arer " t,
        cons-append "a" "rer " t,
        cons-append "r" "er " t,
        cons-append "e" "r " t,
        cons-append "r" " " t,
        cons-append " " "" t,
        nil-append t,
      )
      refl

header_matches :
    (header token : String) → bearer_matches (split_space header) token ≡ (header == bearer token)
unfolding bearer
header_matches header token =
    same_test (bearer_matches (split_space header) token) (header == bearer token)
      (λ h. (eq_iff header (bearer token)).1 (
        split_space-joined header "Bearer" token (matches_parts (split_space header) token h)
        ∙ bearer-joined token))
      (λ h.
        ap (λ x. bearer_matches (split_space x) token)
          ((eq_iff header (bearer token)).0 h ∙ ap (String.◌++◌ "Bearer ") (append-nil token))
        ∙ ap (λ o. bearer_matches o token) (split_space-bearer token)
        ∙ rw (eq_refl token) refl)

verdict_iff :
    (o : Option (String × String)) (token : String)
    → (bearer_verdict o token ≡ served) ↔ (bearer_matches o token ≡ true)
verdict_iff none token = (λ h. absurd (cc h), λ h. absurd (cc h))
verdict_iff (some (scheme, given)) token = (λ h. ground arith, λ h. ground arith)

-- The request has a live session, or the header that carries the token.
admitted : Auth → HttpRequest → Bool
unfolding bearer
admitted a r = validate_session a r || (r.authorization == bearer a.token)

validate_request-admitted : (a : Auth) (r : HttpRequest) → validate_request a r ≡ admitted a r
unfolding validate_request admitted
validate_request-admitted a r = elim (Bool-cases (validate_session a r)) [
  | inl e ↦ rw e refl
  | inr e ↦ rw e (header_matches r.authorization a.token)
]

served_iff :
    (a : Auth) (r : HttpRequest) → (middleware a r ≡ served) ↔ (validate_request a r ≡ true)
unfolding middleware validate_request split_space
served_iff a r = elim (Bool-cases (validate_session a r)) [
  | inl e ↦ rw e (λ h. refl, λ h. refl)
  | inr e ↦ elim (Bool-cases (r.authorization == "")) [
    | inl f ↦ rw (e, f, (eq_iff r.authorization "").0 f) (λ h. absurd (cc h), λ h. absurd (cc h))
    | inr f ↦ rw (e, f) (verdict_iff (split_space r.authorization) a.token)
  ]
]

-- The cookie names a session that is live, and is not empty.
abbrev pub HasSession : Auth → HttpRequest → Type 0
HasSession a r = (id : String) × (r.cookie ≡ some id) × (id ≢ "") × Has (λ s. id ≡ s) a.sessions

session_iff : (a : Auth) (r : HttpRequest) → (validate_session a r ≡ true) ↔ HasSession a r
unfolding validate_session
session_iff a r = go r.cookie
  where
    live : (id : String) → (any (◌==◌ id) a.sessions ≡ true) ↔ Has (λ s. id ≡ s) a.sessions
    live id = any_reads (◌==◌ id) (λ s. id ≡ s) (λ s. eq_iff id s) a.sessions

    go :
        (cookie : Option String)
        → ((elim cookie [
          | none ↦ false
          | some value ↦ if value == "" then false else any (◌==◌ value) a.sessions
        ])
            ≡ true)
          ↔ ((id : String) × (cookie ≡ some id) × (id ≢ "") × Has (λ s. id ≡ s) a.sessions)
    go none = (λ h. absurd (cc h), λ h. absurd (cc h.1))
    go (some value) = elim (Bool-cases (value == "")) [
      | inl e ↦ rw e (
        λ h. absurd (cc h),
        λ (id, same, named, there). absurd (named (cc same ∙ (eq_iff value "").0 e)),
      )
      | inr e ↦ rw e (
        λ h. (value, refl, λ n. cc (e, (eq_iff value "").1 n), (live value).0 h),
        λ (id, same, named, there).
            (live value).1 (subst (λ x. Has (λ s. x ≡ s) a.sessions) (cc same) there),
      )
    ]

admitted_by :
    (a : Auth) (r : HttpRequest)
    → (admitted a r ≡ true) ↔ (HasSession a r ⊎ (r.authorization ≡ bearer a.token))
unfolding admitted
admitted_by a r = (
  λ h. elim (Bool-cases (validate_session a r)) [
    | inl e ↦ inl ((session_iff a r).0 e)
    | inr e ↦ inr ((eq_iff r.authorization (bearer a.token)).0 (ground arith))
  ],
  λ h. elim h [
    | inl live ↦ ground (arith, (session_iff a r).1 live)
    | inr header ↦ ground (arith, (eq_iff r.authorization (bearer a.token)).1 header)
  ],
)

-- The middleware serves a request, and the check of the WebSocket passes it, exactly if its cookie names
-- a live session or its Authorization header reads "Bearer ", and then the token, and no more.
pub admitted_iff :
    (a : Auth) (r : HttpRequest)
    → ((middleware a r ≡ served) ↔ (HasSession a r ⊎ (r.authorization ≡ bearer a.token)))
      × ((validate_request a r ≡ true) ↔ (HasSession a r ⊎ (r.authorization ≡ bearer a.token)))
admitted_iff a r =
    let passes =
      subst (λ b. (b ≡ true) ↔ (HasSession a r ⊎ (r.authorization ≡ bearer a.token)))
        (sym (validate_request-admitted a r)) (admitted_by a r) in
    ((λ h. passes.0 ((served_iff a r).0 h), λ h. (served_iff a r).1 (passes.1 h)), passes)
