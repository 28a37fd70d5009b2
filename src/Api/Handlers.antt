-- ===== src/Api/Handlers.antt =====
-- internal/api/handlers.go and the routes of server.go: the calls that resolve requests.
pub mod Routes
use Prim.Native.Char.{Char, code}
use secrets_dispatcher.Prelude.{
  ℕ, String, Bool, true, false, not, ◌||◌, ◌≡◌, refl, Option, none, some, ◌==◌, eqb, any,
  if◌then◌else◌,
}
use secrets_dispatcher.Text.{codes, cut_prefix, has_prefix}
use secrets_dispatcher.Approval.Types.{Error, err_not_found}
use secrets_dispatcher.Approval.Manager.{Manager}
use secrets_dispatcher.Approval.Manager.Rules.{remove_auto_approve_rule}
use secrets_dispatcher.Approval.Manager.Resolve.{deny, cancel, resolve}
use secrets_dispatcher.Api.Resolver.{
  GpgRunner, Outside, resolver_approve, resolver_approve_and_auto_approve, auto_approve,
}

abbrev pub put_before : Char → Option String → Option String
put_before c none = none
put_before c (some s) = some (String.◌∷◌ c s)

-- What stands before the suffix, if the text ends with it.
unfoldable pub cut_suffix : String → String → Option String
cut_suffix suffix String.[] = if "" == suffix then some "" else none
cut_suffix suffix (String.◌∷◌ c s) =
    let rest = cut_suffix suffix s in
    if String.◌∷◌ c s == suffix then some "" else put_before c rest

-- `strings.HasSuffix`.
unfoldable pub has_suffix : String → String → Bool
unfolding cut_suffix
has_suffix s suffix = elim (cut_suffix suffix s) [ none ↦ false | some _ ↦ true ]

-- A slice whose bounds are out of order panics.
pub data Extracted : Type 0 where
  panics : Extracted
  extracted : String → Extracted

-- `path[len(prefix):len(path)-len(suffix)]` where the path begins with the prefix and ends with the
-- suffix: what follows the prefix ends with the suffix, unless the two overlap in the path.
abbrev pub sliced : Option String → String → Option String
sliced none suffix = none
sliced (some rest) suffix = cut_suffix suffix rest

abbrev pub id_has_slash : String → Bool
id_has_slash id = any (λ c. eqb c b'/') (codes id)

abbrev pub checked_id : Option String → Extracted
checked_id none = panics
checked_id (some id) = if id == "" || id_has_slash id then extracted "" else extracted id

unfoldable pub extract_request_id : String → String → String → Extracted
unfolding has_prefix has_suffix cut_prefix cut_suffix
extract_request_id path prefix suffix =
    if not (has_prefix path prefix) || not (has_suffix path suffix)
    then extracted ""
    else checked_id (sliced (cut_prefix prefix path) suffix)

-- The status, or a panic, which the HTTP server recovers from.
pub data ActionReply : Type 0 where
  panicked : ActionReply
  status : ℕ → ActionReply

abbrev pub action_answered : Manager × Option Error → Manager × ActionReply
action_answered (m, none) = (m, status 200)
action_answered (m, some err_not_found) = (m, status 404)
action_answered (m, some e) = (m, status 500)

-- What the four calls share: the action gets the ID.
abbrev pub with_id : Extracted → (String → Manager × Option Error) → Manager → Manager × ActionReply
with_id panics act m = (m, panicked)
with_id (extracted id) act m = if id == "" then (m, status 400) else action_answered (act id)

abbrev pub pending_prefix : String
pending_prefix = "/api/v1/pending/"

abbrev pub with_action :
    String → Manager → Bool → String → (String → Manager × Option Error) → Manager × ActionReply
with_action suffix m is_post path act =
    if not is_post
    then (m, status 405)
    else with_id (extract_request_id path pending_prefix suffix) act m

unfoldable pub handle_approve :
    GpgRunner → Manager → Bool → String → Outside → Manager × ActionReply
unfolding extract_request_id resolver_approve
handle_approve g m is_post path o =
    with_action "/approve" m is_post path (λ id. resolver_approve g m id o)

unfoldable pub handle_approve_and_auto_approve :
    GpgRunner → Manager → Bool → String → Outside → Manager × ActionReply
unfolding extract_request_id resolver_approve_and_auto_approve
handle_approve_and_auto_approve g m is_post path o =
    with_action "/approve-and-auto-approve" m is_post path
      (λ id. resolver_approve_and_auto_approve g m id o)

unfoldable pub handle_deny : Manager → Bool → String → ℕ → Manager × ActionReply
unfolding extract_request_id
handle_deny m is_post path now = with_action "/deny" m is_post path (λ id. resolve deny m id now)

unfoldable pub handle_cancel : Manager → Bool → String → ℕ → Manager × ActionReply
unfolding extract_request_id
handle_cancel m is_post path now =
    with_action "/cancel" m is_post path (λ id. resolve cancel m id now)

-- The route of "/api/v1/pending/" in `NewServerWithHandlers`.
unfoldable pub pending_route : GpgRunner → Manager → Bool → String → Outside → Manager × ActionReply
unfolding handle_approve handle_approve_and_auto_approve handle_deny handle_cancel
pending_route g m is_post path o =
    if has_suffix path "/approve-and-auto-approve"
    then handle_approve_and_auto_approve g m is_post path o
    else if has_suffix path "/approve"
    then handle_approve g m is_post path o
    else if has_suffix path "/deny"
    then handle_deny m is_post path o.now
    else if has_suffix path "/cancel"
    then handle_cancel m is_post path o.now
    else (m, status 404)

-- `HandleAutoApproveCreate`, with the ID of the body, if it can be decoded.
abbrev pub rule_decoded : Option String → Manager → Outside → Manager × ActionReply
rule_decoded none m o = (m, status 400)
rule_decoded (some id) m o = action_answered (auto_approve m id o)

unfoldable pub handle_auto_approve_create :
    Manager → Bool → Option String → Outside → Manager × ActionReply
unfolding auto_approve
handle_auto_approve_create m is_post body o =
    if not is_post then (m, status 405) else rule_decoded body m o

-- `strings.TrimPrefix`.
abbrev pub trimmed : Option String → String → String
trimmed none s = s
trimmed (some rest) s = rest

unfoldable pub handle_auto_approve_delete : Manager → Bool → String → Manager × ActionReply
unfolding cut_prefix remove_auto_approve_rule
handle_auto_approve_delete m is_delete path =
    let id = trimmed (cut_prefix "/api/v1/auto-approve/" path) path in
    if not is_delete
    then (m, status 405)
    else if id == "" || id_has_slash id
    then (m, status 400)
    else action_answered (remove_auto_approve_rule m id)

-- The prefix and the suffix share their slash.
overlap : extract_request_id "/api/v1/pending/approve" pending_prefix "/approve" ≡ panics
unfolding extract_request_id
overlap = refl
