-- ===== src/Api/Tests/Signing.antt =====
-- Examples of the requests for a signature: a commit that a client describes falsely.
use secrets_dispatcher.Prelude.{pos, ◌+◌, ◌≡◌, refl, true, false, some, [], ◌∷◌}
use secrets_dispatcher.Approval.Types.{Request, GpgSignInfo}
use secrets_dispatcher.Approval.Manager.{Manager}
use secrets_dispatcher.Approval.Manager.Require.{create_gpg_sign_request, gpg_ask, request_of}
use secrets_dispatcher.Approval.Manager.Rules.{check_auto_approve_rules}
use secrets_dispatcher.Approval.Manager.Resolve.{deny, cancel, resolve}
use secrets_dispatcher.Approval.Match.{check_trusted_signer}
use secrets_dispatcher.Approval.Tests.{start, caller}
use secrets_dispatcher.Api.Resolver.{
  GpgRunner, GpgResult, Outside, resolver_approve, resolver_approve_and_auto_approve,
}
use secrets_dispatcher.Api.Handlers.{action_answered, pending_route}
use secrets_dispatcher.Api.Handlers.Routes.{path_of, route-path}
use secrets_dispatcher.Api.Sign.{
  Course, GpgSignRequest, created, handle_gpg_sign_request, bind_display_to_signed_payload,
  sign_bound,
}
use secrets_dispatcher.Api.Sign.Shown.{Bound, created-Bound}

abbrev info : GpgSignInfo
info = record {
  repo_name = "repo";
  kind = "commit";
  commit_msg = "harmless";
  author = "someone";
  committer = "someone";
  key_id = "K";
  fingerprint = "F";
  changed_files = [];
  parent_hash = "";
  tag_name = "";
  target = "";
  pushee = "";
  commit_object = "tree 1\nauthor a\n\nreal\n";
}

abbrev signed_by : GpgResult
signed_by = record { sig = 1 ∷ []; status = []; exit_code = pos 0; has_failed = false }

abbrev runner : GpgRunner
runner = record { find_gpg = some "/usr/bin/gpg"; run_gpg = λ path key text. signed_by }

abbrev course : Course
course = record { id = "g"; meanwhile = λ m. m; checked_at = 5; now = 6 }

abbrev body : GpgSignRequest
body = record { client = "git"; gpg_sign_info = some info }

created_g : (handle_gpg_sign_request runner start true (some body) caller course).1 ≡ created "g"
unfolding handle_gpg_sign_request sign_bound create_gpg_sign_request check_auto_approve_rules
    check_trusted_signer
created_g = refl

created-Bound_example :
    Bound runner info "g" (handle_gpg_sign_request runner start true (some body) caller course).0
created-Bound_example = created-Bound runner start true "git" "g" info caller course created_g

abbrev shown : GpgSignInfo
shown = bind_display_to_signed_payload info

abbrev waiting : Manager
waiting = (create_gpg_sign_request start "git" (some shown) caller "g" 6).0

abbrev request : Request
request = record (request_of (gpg_ask "git" caller) "g" 6 (6 + start.timeout)) {
  gpg_sign_info = some shown;
}

abbrev outside : Outside
outside = record { rule_id = "u"; meanwhile = λ m. m; now = 7 }

route-path_example :
    (pending_route runner waiting true (path_of "g" "/approve-and-auto-approve") outside
      ≡ action_answered (resolver_approve_and_auto_approve runner waiting "g" outside))
    × (pending_route runner waiting true (path_of "g" "/approve") outside
        ≡ action_answered (resolver_approve runner waiting "g" outside))
    × (pending_route runner waiting true (path_of "g" "/deny") outside
        ≡ action_answered (resolve deny waiting "g" 7))
    × (pending_route runner waiting true (path_of "g" "/cancel") outside
        ≡ action_answered (resolve cancel waiting "g" 7))
route-path_example = route-path runner waiting "g" outside refl refl
