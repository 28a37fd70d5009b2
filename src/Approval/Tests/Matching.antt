-- ===== src/Approval/Tests/Matching.antt =====
-- Examples of the matchers of internal/approval/manager.go.
use secrets_dispatcher.Prelude.{◌≡◌, refl, true, none, some, List, [], ◌∷◌, all, any, ◌↔◌, Has}
use secrets_dispatcher.Glob.{glob_match}
use secrets_dispatcher.Dbus.{extract_collection}
use secrets_dispatcher.Approval.Types.{get_secret, AutoApproveRule, TrustRule, TrustedSigner}
use secrets_dispatcher.Approval.Match.{
  match_secret, match_secret_item, match_trust_rule, check_trust_rules, check_trusted_signer,
}
use secrets_dispatcher.Approval.Match.Scope.{
  matches, matches_nothing, approve_rule_batch, deny_rule_batch,
}
use secrets_dispatcher.Approval.Match.Signer.{check_trusted_signer_iff, IsTrusted}
use secrets_dispatcher.Approval.Tests.{caller, item, other_item, login_rule}

approve_rule_batch_example :
    (matches (login_rule "approve") caller get_secret [] (item ∷ other_item ∷ [])
      ≡ all
          (λ i. matches (login_rule "approve") caller get_secret [] (i ∷ []))
          (item ∷ other_item ∷ []))
    × (matches (login_rule "approve") caller get_secret [] []
        ≡ matches_nothing (login_rule "approve") caller get_secret [])
approve_rule_batch_example =
    approve_rule_batch (login_rule "approve") caller get_secret [] item (other_item ∷ []) refl

deny_rule_batch_example :
    (matches (login_rule "deny") caller get_secret [] (other_item ∷ item ∷ [])
      ≡ any
          (λ i. matches (login_rule "deny") caller get_secret [] (i ∷ []))
          (other_item ∷ item ∷ []))
    × (matches (login_rule "deny") caller get_secret [] []
        ≡ matches_nothing (login_rule "deny") caller get_secret [])
deny_rule_batch_example =
    deny_rule_batch (login_rule "deny") caller get_secret [] other_item (item ∷ []) refl

abbrev git_rule : AutoApproveRule
git_rule = record {
  id = "a";
  invoker_name = "git";
  invoker_exe = "/usr/bin/git";
  request_type = get_secret;
  collection = "login";
  attributes = ("host", "a.org") ∷ [];
  expires_at = 9;
}

abbrev any_rule : TrustRule
any_rule = record (login_rule "approve") { secret = none }

abbrev two_rules : List TrustRule
two_rules = login_rule "deny" ∷ any_rule ∷ []

second_rule : check_trust_rules two_rules caller (other_item ∷ []) get_secret [] ≡ some any_rule
unfolding check_trust_rules match_trust_rule match_secret match_secret_item glob_match
    extract_collection
second_rule = refl

abbrev signers : List TrustedSigner
signers = record { exe_path = "/usr/bin/git"; repo_path = "repo"; file_prefix = "docs/" } ∷ []

check_trusted_signer_iff_example :
    (check_trusted_signer signers caller "repo" ("docs/a" ∷ []) ≡ true) ↔ (
      (caller.peer_trusted ≡ true)
      × Has (IsTrusted "repo" ("docs/a" ∷ []) signers) caller.process_chain)
check_trusted_signer_iff_example = check_trusted_signer_iff "repo" ("docs/a" ∷ []) signers caller
