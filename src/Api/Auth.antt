-- ===== src/Api/Auth.antt =====
-- internal/api/auth.go and the exchange of a login token in handlers.go.
pub mod Once
pub mod Bearer
use Prim.Native.Char.{code}
use secrets_dispatcher.Prelude.{
  ℕ, String, Bool, true, false, not, Option, none, some, List, [], ◌∷◌, ◌==◌, eqb, leb, any,
  if◌then◌else◌,
}
use secrets_dispatcher.Prelude.Dict.{Dict, get, insert}
use secrets_dispatcher.Api.Token.{Codec, Claims, Validated, valid, invalid, validate_jwt}

-- `used_jtis` has the expiry of each nonce that was redeemed.
pub record Auth : Type 0 where
  pub token : String
  pub sessions : List String
  pub used_jtis : Dict ℕ

abbrev pub new_auth : String → Auth
new_auth token = record { token = token; sessions = []; used_jtis = [] }

-- What the checks read of a request: the session cookie, and the Authorization header, "" if absent.
pub record HttpRequest : Type 0 where
  pub cookie : Option String
  pub authorization : String

unfoldable pub validate_session : Auth → HttpRequest → Bool
validate_session a r = elim r.cookie [
  | none ↦ false
  | some value ↦ if value == "" then false else any (◌==◌ value) a.sessions
]

abbrev pub with_char : Prim.Native.Char.Char → Option (String × String) → Option (String × String)
with_char c none = none
with_char c (some (a, b)) = some (String.◌∷◌ c a, b)

-- `strings.SplitN(s, " ", 2)`: the two parts, if there are two.
unfoldable pub split_space : String → Option (String × String)
split_space String.[] = none
split_space (String.◌∷◌ c s) =
    if eqb (code c) b' ' then some ("", s) else with_char c (split_space s)

abbrev pub bearer_matches : Option (String × String) → String → Bool
bearer_matches none token = false
bearer_matches (some (scheme, given)) token = if scheme == "Bearer" then given == token else false

unfoldable pub validate_request : Auth → HttpRequest → Bool
unfolding validate_session split_space
validate_request a r =
    if validate_session a r then true else bearer_matches (split_space r.authorization) a.token

-- The errors that `Middleware` writes, all with the status 401.
pub data Verdict : Type 0 where
  served unauthorized invalid_format invalid_token : Verdict

abbrev pub bearer_verdict : Option (String × String) → String → Verdict
bearer_verdict none token = invalid_format
bearer_verdict (some (scheme, given)) token =
    if not (scheme == "Bearer")
    then invalid_format
    else if not (given == token)
    then invalid_token
    else served

unfoldable pub middleware : Auth → HttpRequest → Verdict
unfolding validate_session split_space
middleware a r =
    if validate_session a r
    then served
    else if r.authorization == ""
    then unauthorized
    else bearer_verdict (split_space r.authorization) a.token

unfoldable pub prune : ℕ → Dict ℕ → Dict ℕ
prune now [] = []
prune now ((id, exp) ∷ m) = let rest = prune now m in if leb exp now then rest else (id, exp) ∷ rest

abbrev pub record_jti : Option ℕ → Auth → Dict ℕ → String → ℕ → Auth × Bool
record_jti (some seen) a pruned id exp = (record a { used_jtis = pruned }, false)
record_jti none a pruned id exp = (record a { used_jtis = insert id exp pruned }, true)

unfoldable pub consume_jti : Auth → String → ℕ → ℕ → Auth × Bool
unfolding prune
consume_jti a id exp now =
    let pruned = prune now a.used_jtis in record_jti (get id pruned) a pruned id exp

-- The status and the cookie that is set.
pub record Response : Type 0 where
  pub status : ℕ
  pub set_cookie : Option String

abbrev pub rejected : ℕ → Response
rejected status = record { status = status; set_cookie = none }

-- `SetSessionCookie`: none is the error of the random source.
unfoldable pub set_session_cookie : Auth → Option String → Auth × Response
set_session_cookie a none = (a, rejected 500)
set_session_cookie a (some id) =
    (record a { sessions = id ∷ a.sessions }, record { status = 200; set_cookie = some id })

abbrev pub redeemed : Auth × Bool → Option String → Auth × Response
redeemed (a, false) session = (a, rejected 401)
redeemed (a, true) session = set_session_cookie a session

abbrev pub exchanged : Validated → Auth → Option String → ℕ → Auth × Response
exchanged (invalid e) a session now = (a, rejected 401)
exchanged (valid c) a session now = redeemed (consume_jti a c.jti c.exp now) session

abbrev pub token_exchanged : Option String → Codec → Auth → Option String → ℕ → ℕ → Auth × Response
token_exchanged none k a session now later = (a, rejected 400)
token_exchanged (some token) k a session now later =
    if token == ""
    then (a, rejected 400)
    else exchanged (validate_jwt k a.token token now) a session later

-- `HandleAuth`: the token of the body, if it can be read, the random session ID, and the two readings
-- of the clock.
unfoldable pub handle_auth :
    Codec → Auth → Bool → Option String → Option String → ℕ → ℕ → Auth × Response
unfolding validate_jwt consume_jti set_session_cookie
handle_auth k a is_post body session now later =
    if not is_post then (a, rejected 405) else token_exchanged body k a session now later
