-- ===== src/Approval/Manager/Rules.antt =====
-- The auto-approve rules: `AddAutoApproveRule`, `checkAutoApproveRules`, the list and the removal.
use secrets_dispatcher.Prelude.{
  ℕ, ◌+◌, String, Bool, not, ◌&&◌, Option, none, some, List, [], ◌∷◌, ltb, eqb, keep, is_empty,
  ◌==◌, if◌then◌else◌,
}
use secrets_dispatcher.Prelude.Dict.{Dict}
use secrets_dispatcher.Dbus.{extract_collection}
use secrets_dispatcher.Approval.Types.{
  ItemInfo, Request, RequestType, search_items, SenderInfo, AutoApproveRule, rule_added,
  rule_removed, Error, err_not_found, is_type,
}
use secrets_dispatcher.Approval.Match.{invoker_exe_path, attributes_equal, rule_applies}
use secrets_dispatcher.Approval.Manager.{Manager, notify_rule}

-- Two minutes, in nanoseconds.
abbrev pub default_duration : ℕ
default_duration = 120_000_000_000

unfoldable pub rule_duration : Manager → ℕ
rule_duration m =
    if eqb m.auto_approve_duration 0 then default_duration else m.auto_approve_duration

abbrev pub first_collection : List ItemInfo → String
first_collection [] = ""
first_collection (it ∷ items) = extract_collection it.path

abbrev pub first_attributes : List ItemInfo → Dict String
first_attributes [] = []
first_attributes (it ∷ items) = it.attributes

-- The rule for a request: the scope of its first item, or what it searched for.
unfoldable pub rule_for : Manager → Request → String → ℕ → AutoApproveRule
unfolding rule_duration invoker_exe_path
rule_for m req id now = record {
  id = id;
  invoker_name = req.sender_info.invoker_name;
  invoker_exe = invoker_exe_path req.sender_info;
  request_type = req.type;
  collection = first_collection req.items;
  attributes =
      if is_type req.type search_items && not (is_empty req.search_attributes)
      then req.search_attributes
      else first_attributes req.items;
  expires_at = now + rule_duration m;
}

unfoldable pub same_scope : AutoApproveRule → AutoApproveRule → Bool
unfolding attributes_equal
same_scope existing rule =
    existing.invoker_exe == rule.invoker_exe
    && is_type existing.request_type rule.request_type
    && existing.collection == rule.collection
    && attributes_equal existing.attributes rule.attributes

-- A rule that the loop passes over stays in front of what it finds.
abbrev pub behind :
    AutoApproveRule
    → Option (AutoApproveRule × List AutoApproveRule)
    → Option (AutoApproveRule × List AutoApproveRule)
behind r none = none
behind r (some (e, rest)) = some (e, r ∷ rest)

-- The first rule of the same scope, its expiry moved, and the list with it; `none` if there is none.
unfoldable pub refresh :
    AutoApproveRule → List AutoApproveRule → Option (AutoApproveRule × List AutoApproveRule)
refresh rule [] = none
refresh rule (r ∷ rs) =
    let moved = record r { expires_at = rule.expires_at } in
    if same_scope r rule then some (moved, moved ∷ rs) else behind r (refresh rule rs)

abbrev pub append_rule : AutoApproveRule → List AutoApproveRule → List AutoApproveRule
append_rule rule [] = rule ∷ []
append_rule rule (r ∷ rs) = r ∷ append_rule rule rs

-- The rest of the call, with what the search for an existing rule found.
unfoldable pub put_rule :
    AutoApproveRule → Option (AutoApproveRule × List AutoApproveRule) → Manager → Manager × String
put_rule rule (some (existing, rules)) m =
    (notify_rule (record m { auto_approve_rules = rules }) rule_added existing, existing.id)
put_rule rule none m = (
  notify_rule (record m { auto_approve_rules = append_rule rule m.auto_approve_rules }) rule_added
      rule,
  rule.id,
)

-- `id` is the fresh UUID; the result is the ID of the rule that stands for the request.
unfoldable pub add_auto_approve_rule : Manager → Request → String → ℕ → Manager × String
unfolding put_rule
add_auto_approve_rule m req id now =
    let rule = rule_for m req id now in put_rule rule (refresh rule m.auto_approve_rules) m

-- One pass: expired rules are dropped, and the first of the others that applies is copied out.
unfoldable pub scan_rules :
    (AutoApproveRule → Bool)
    → ℕ
    → Option AutoApproveRule
    → List AutoApproveRule
    → Option AutoApproveRule × List AutoApproveRule
scan_rules applies now found [] = (found, [])
scan_rules applies now found (r ∷ rs) =
    let skip = scan_rules applies now found rs in
    let next : Option AutoApproveRule = elim found [
      | some q ↦ some q
      | none ↦ if applies r then some r else none
    ] in
    let more = scan_rules applies now next rs in
    if ltb r.expires_at now then skip else (more.0, r ∷ more.1)

unfoldable pub check_auto_approve_rules :
    Manager → SenderInfo → List ItemInfo → RequestType → ℕ → Option AutoApproveRule × Manager
unfolding scan_rules
check_auto_approve_rules m s items req_type now =
    let r = scan_rules (λ rule. rule_applies rule s items req_type) now none m.auto_approve_rules in
    (r.0, record m { auto_approve_rules = r.1 })

unfoldable pub list_auto_approve_rules : Manager → ℕ → List AutoApproveRule
list_auto_approve_rules m now = keep (λ r. ltb now r.expires_at) m.auto_approve_rules

unfoldable pub remove_rule :
    String → List AutoApproveRule → Option (AutoApproveRule × List AutoApproveRule)
remove_rule id [] = none
remove_rule id (r ∷ rs) = if r.id == id then some (r, rs) else behind r (remove_rule id rs)

unfoldable pub remove_auto_approve_rule : Manager → String → Manager × Option Error
unfolding remove_rule
remove_auto_approve_rule m id = elim (remove_rule id m.auto_approve_rules) [
  | none ↦ (m, some err_not_found)
  | some (removed, rules) ↦
      (notify_rule (record m { auto_approve_rules = rules }) rule_removed removed, none)
]
