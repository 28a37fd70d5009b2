-- ===== src/Approval/Tests/Reusing.antt =====
-- Examples of the approval cache and the auto-approve rules of internal/approval/manager.go.
use secrets_dispatcher.Dbus.{extract_collection}
use secrets_dispatcher.Prelude.{
  ◌==◌, ◌||◌, ◌&&◌, ℕ, arith, ◌≤◌, String, ◌≡◌, ◌≢◌, refl, Bool, true, false, not, none, some, [],
  ◌∷◌, ◌↔◌, any, eqb, differ, ◌==◌, if◌then◌else◌,
}
use secrets_dispatcher.Prelude.Dict.{get}
use secrets_dispatcher.Text.{codes}
use secrets_dispatcher.Glob.{is_glob}
use secrets_dispatcher.Glob.Laws.{is_literal}
use secrets_dispatcher.Approval.Types.{get_secret, ItemInfo, Request, AutoApproveRule}
use secrets_dispatcher.Approval.Match.{at, rule_applies, invoker_exe_path}
use secrets_dispatcher.Approval.Manager.{Manager}
use secrets_dispatcher.Approval.Manager.Cache.{check_approval_cache, cache_approval}
use secrets_dispatcher.Approval.Manager.Rules.{
  check_auto_approve_rules, add_auto_approve_rule, rule_for, rule_duration,
}
use secrets_dispatcher.Approval.Manager.CacheWindow.{cached_within_window}
use secrets_dispatcher.Approval.Manager.RuleScan.{check_auto_approve_rules-eq, active, find_first}
use secrets_dispatcher.Approval.Manager.RuleRetry.{IsPlain, retry_auto_approved}
use secrets_dispatcher.Approval.Manager.RuleWidth.{star_value_widens}
use secrets_dispatcher.Approval.Tests.{start, request, caller, item}

cached_within_window_example :
    ((check_approval_cache (cache_approval start request 6) ":1.5" (item ∷ []) 16).0 ≡ true)
    ↔ (16 ≤ 16)
cached_within_window_example = cached_within_window start request 6 (omega arith) 16 refl

abbrev rule_until : String → ℕ → AutoApproveRule
rule_until id end = record {
  id = id;
  invoker_name = "git";
  invoker_exe = "/usr/bin/git";
  request_type = get_secret;
  collection = "";
  attributes = [];
  expires_at = end;
}

-- One rule has expired, and two have not.
abbrev ruled : Manager
ruled = record start {
  auto_approve_rules = rule_until "a" 6 ∷ rule_until "b" 9 ∷ rule_until "c" 8 ∷ [];
}

check_auto_approve_rules-eq_example :
    ((check_auto_approve_rules ruled caller (item ∷ []) get_secret 7).0
      ≡ find_first
          (λ r. rule_applies r caller (item ∷ []) get_secret)
          (active 7 ruled.auto_approve_rules))
    × ((check_auto_approve_rules ruled caller (item ∷ []) get_secret 7).1.auto_approve_rules
        ≡ active 7 ruled.auto_approve_rules)
check_auto_approve_rules-eq_example =
    check_auto_approve_rules-eq ruled caller (item ∷ []) get_secret 7

one_literal :
    (b : Bool)
    → is_literal (codes (elim (if b then some "a.org" else none) [ none ↦ "" | some v ↦ v ])) ≡ true
one_literal true = refl
one_literal false = refl

item-IsPlain : IsPlain item.attributes
unfolding get
item-IsPlain = record { once = (refl, tt); literal = λ k. one_literal ("host" == k) }

resolved : invoker_exe_path caller ≢ ""
unfolding invoker_exe_path
resolved e = differ "/usr/bin/git" "/usr/bin/git" "" refl refl e

retry_auto_approved_example :
    (check_auto_approve_rules
      (add_auto_approve_rule start request "a" 6).0
      caller
      (item ∷ [])
      get_secret
      56).0
    ≢ none
unfolding rule_duration
retry_auto_approved_example =
    retry_auto_approved start request "a" 6 56 item refl item-IsPlain refl resolved (omega arith)

abbrev bracket_item : ItemInfo
bracket_item = record item { attributes = ("host", "a[") ∷ [] }

abbrev bracket_request : Request
bracket_request = record request { items = bracket_item ∷ [] }

bad_bracket : is_glob "a[" ≡ false
unfolding is_glob
bad_bracket = refl

abbrev star_item : ItemInfo
star_item = record item { attributes = ("host", "*") ∷ [] }

abbrev star_request : Request
star_request = record request { items = star_item ∷ [] }

star_value_widens_example :
    rule_applies (rule_for start star_request "a" 6) caller (item ∷ []) get_secret ≡ (
      (extract_collection star_item.path == ""
        || extract_collection star_item.path == extract_collection item.path)
      && not (any (eqb b'/') (codes (at "host" item.attributes))))
star_value_widens_example =
    star_value_widens start star_request "a" 6 star_item "host" "*" refl refl refl item refl
      resolved
