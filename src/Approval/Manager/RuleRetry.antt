-- ===== src/Approval/Manager/RuleRetry.antt =====
-- A request with an auto-approve rule of its own, made again: `AddAutoApproveRule` before
-- `checkAutoApproveRules` of internal/approval/manager.go.
use secrets_dispatcher.Prelude.{
  ◌∙◌, ap, all_reads, ℕ, ◌+◌, ◌≤◌, String, ◌≡◌, ◌≢◌, refl, sym, true, false, Option, none, some,
  List, [], ◌∷◌, arith, Has, All, inl, inr, Bool-cases, ◌==◌, eq_iff, subst,
}
use secrets_dispatcher.Prelude.Dict.{Dict}
use secrets_dispatcher.Text.{codes}
use secrets_dispatcher.Glob.Laws.{is_literal, glob_match-literal}
use secrets_dispatcher.Dbus.{extract_collection}
use secrets_dispatcher.Approval.Types.{
  AutoApproveRule, SenderInfo, ItemInfo, RequestType, Request, get_secret, search_items,
  delete_item, write_item, ssh_sign, unlock, gpg_sign, is_type,
}
use secrets_dispatcher.Approval.Match.{
  at, rule_applies, invoker_exe_path, auto_approve_covers_all, covers_item, attributes_match,
  attributes_equal,
}
use secrets_dispatcher.Approval.Manager.{Manager, notify_rule}
use secrets_dispatcher.Approval.Manager.Rules.{
  put_rule, first_attributes, first_collection, behind, check_auto_approve_rules,
  add_auto_approve_rule, rule_for, rule_duration, refresh, same_scope, append_rule,
}
use secrets_dispatcher.Approval.Manager.RuleScan.{check_auto_approve_rules-eq, find_first-Has}

pub is_type_refl : (t : RequestType) → is_type t t ≡ true
is_type_refl get_secret = refl
is_type_refl search_items = refl
is_type_refl delete_item = refl
is_type_refl write_item = refl
is_type_refl ssh_sign = refl
is_type_refl unlock = refl
is_type_refl gpg_sign = refl

append_rule-Has :
    (P : AutoApproveRule → Type 0) (rule : AutoApproveRule) (rs : List AutoApproveRule)
    → P rule
    → Has P (append_rule rule rs)
append_rule-Has P rule [] h = inl h
append_rule-Has P rule (r ∷ rs) h = inr (append_rule-Has P rule rs h)

-- A rule that is refreshed stands in the new list, with the scope and the expiry of the new rule.
abbrev Refreshed :
    (AutoApproveRule → Type 0) → Option (AutoApproveRule × List AutoApproveRule) → Type 0
Refreshed P none = Unit {0}
Refreshed P (some (e, rs)) = Has P rs

behind-Refreshed :
    (P : AutoApproveRule → Type 0) (r : AutoApproveRule)
    (o : Option (AutoApproveRule × List AutoApproveRule))
    → Refreshed P o
    → Refreshed P (behind r o)
behind-Refreshed P r none h = tt
behind-Refreshed P r (some (e, rs)) h = inr h

refresh-Refreshed :
    (P : AutoApproveRule → Type 0) (rule : AutoApproveRule)
    → ((r : AutoApproveRule)
        → same_scope r rule ≡ true
        → P (record r { expires_at = rule.expires_at }))
    → (rs : List AutoApproveRule) → Refreshed P (refresh rule rs)
unfolding refresh
refresh-Refreshed P rule fits [] = tt
refresh-Refreshed P rule fits (r ∷ rs) = elim (Bool-cases (same_scope r rule)) [
  | inl s ↦ rw (s, refresh) (inl (fits r s))
  | inr n ↦ rw (n, refresh) (behind-Refreshed P r _ (refresh-Refreshed P rule fits rs))
]

-- A map of literal values, each key once.
pub record IsPlain (attrs : Dict String) : Type 0 where
  pub once : All (λ kv. at kv.0 attrs ≡ kv.1) attrs
  pub literal : (k : String) → is_literal (codes (at k attrs)) ≡ true

matches-own :
    (attrs : Dict String) (v : IsPlain attrs) (rule : Dict String)
    → All (λ kv. at kv.0 attrs ≡ kv.1) rule
    → attributes_match rule attrs ≡ true
unfolding attributes_match
matches-own attrs v [] h = refl
matches-own attrs v ((k, w) ∷ rule) h = ground (
  arith,
  matches-own attrs v rule h.1,
  v.literal k,
  h.0,
  (glob_match-literal (at k attrs) (at k attrs) (v.literal k)).1 refl,
)

equal_entries : (a b : Dict String) → attributes_equal a b ≡ true → All (λ kv. at kv.0 b ≡ kv.1) a
unfolding attributes_equal
equal_entries a b h =
    (all_reads (λ kv. at kv.0 b == kv.1) (λ kv. at kv.0 b ≡ kv.1) (λ kv. eq_iff (at kv.0 b) kv.1)
        a).0
      (ground arith)

-- A rule that says who asked, and for what, whether it is new or an old one of the same scope.
pub record Describes (r : AutoApproveRule) (s : SenderInfo) (it : ItemInfo) (t : RequestType)
    : Type 0 where
  pub exe : r.invoker_exe ≡ invoker_exe_path s
  pub type : is_type r.request_type t ≡ true
  pub collection : r.collection ≡ extract_collection it.path
  pub attributes : All (λ kv. at kv.0 it.attributes ≡ kv.1) r.attributes

Describes-applies :
    (r : AutoApproveRule) (s : SenderInfo) (it : ItemInfo) (t : RequestType)
    → Describes r s it t
    → invoker_exe_path s ≢ ""
    → IsPlain it.attributes
    → rule_applies r s (it ∷ []) t ≡ true
unfolding rule_applies auto_approve_covers_all covers_item
Describes-applies r s it t d resolved plain = ground (
  arith,
  eq_iff (invoker_exe_path s) "",
  eq_iff r.invoker_exe (invoker_exe_path s),
  eq_iff r.collection (extract_collection it.path),
  matches-own it.attributes plain r.attributes d.attributes,
)

-- The rule for a request of one item describes it, and so does a rule of its scope.
module _ (m : Manager) (req : Request) (id : String) (now : ℕ) (it : ItemInfo)
    (single : req.items ≡ it ∷ []) (plain : IsPlain it.attributes)
    (search : is_type req.type search_items ≡ false) where
  own-attributes : (rule_for m req id now).attributes ≡ it.attributes
  unfolding rule_for
  own-attributes = rw search (ap first_attributes single)

  own_type : (rule_for m req id now).request_type ≡ req.type
  unfolding rule_for
  own_type = refl

  own-Describes : Describes (rule_for m req id now) req.sender_info it req.type
  unfolding rule_for
  own-Describes = record {
    exe = refl;
    type = is_type_refl req.type;
    collection = ap first_collection single;
    attributes =
        subst (λ a. All (λ kv. at kv.0 it.attributes ≡ kv.1) a) (sym own-attributes) plain.once;
  }

  same-Describes :
      (r : AutoApproveRule)
      → same_scope r (rule_for m req id now) ≡ true
      → Describes r req.sender_info it req.type
  unfolding same_scope
  same-Describes r h =
      let o = rule_for m req id now in
      let d = own-Describes in
      record {
        exe = ground (arith, eq_iff r.invoker_exe o.invoker_exe, d.exe);
        type = subst (λ t. is_type r.request_type t ≡ true) own_type (ground arith);
        collection = ground (arith, eq_iff r.collection o.collection, d.collection);
        attributes =
            subst (λ b. All (λ kv. at kv.0 b ≡ kv.1) r.attributes) own-attributes
              (equal_entries r.attributes o.attributes (ground arith));
      }

-- The rule list after the rule was put, whether it was refreshed or added.
put_rule-Has :
    (P : AutoApproveRule → Type 0) (rule : AutoApproveRule)
    (o : Option (AutoApproveRule × List AutoApproveRule)) (m : Manager)
    → P rule
    → Refreshed P o
    → Has P (put_rule rule o m).0.auto_approve_rules
unfolding put_rule notify_rule
put_rule-Has P rule none m own h = append_rule-Has P rule m.auto_approve_rules own
put_rule-Has P rule (some (e, rules)) m own h = h

module _ (m : Manager) (req : Request) (id : String) (now later : ℕ) (it : ItemInfo) where
  own_expiry : (rule_for m req id now).expires_at ≡ now + rule_duration m
  unfolding rule_for
  own_expiry = refl

  -- A request for one item, not a search, whose attributes are plain and whose invoker is resolved, is
  -- auto-approved when it is made again, from the making of its rule to the end of the rule's duration,
  -- that moment included, whether a rule was added or an existing one refreshed.
  pub retry_auto_approved :
      req.items ≡ it ∷ []
      → IsPlain it.attributes
      → is_type req.type search_items ≡ false
      → invoker_exe_path req.sender_info ≢ ""
      → later ≤ now + rule_duration m
      → (check_auto_approve_rules
          (add_auto_approve_rule m req id now).0
          req.sender_info
          req.items
          req.type
          later).0
        ≢ none
  unfolding add_auto_approve_rule
  retry_auto_approved single plain search resolved le e =
      find_first-Has (λ r. rule_applies r req.sender_info req.items req.type) later
        (put_rule own (refresh own m.auto_approve_rules) m).0.auto_approve_rules
        (put_rule-Has Serves own (refresh own m.auto_approve_rules) m
          (serves own (own-Describes m req id now it single plain search) in_time)
          (refresh-Refreshed Serves own
            (λ r h.
              serves _ (retimed r (same-Describes m req id now it single plain search r h)) in_time)
            m.auto_approve_rules))
        (sym (check_auto_approve_rules-eq _ req.sender_info req.items req.type later).0 ∙ e)
    where
      own : AutoApproveRule
      own = rule_for m req id now

      in_time : later ≤ own.expires_at
      in_time = rw own_expiry le

      Serves : AutoApproveRule → Type 0
      Serves r = (later ≤ r.expires_at) × (rule_applies r req.sender_info req.items req.type ≡ true)

      retimed :
          (r : AutoApproveRule)
          → Describes r req.sender_info it req.type
          → Describes (record r { expires_at = own.expires_at }) req.sender_info it req.type
      retimed r d = record {
        exe = d.exe;
        type = d.type;
        collection = d.collection;
        attributes = d.attributes;
      }

      serves :
          (r : AutoApproveRule)
          → Describes r req.sender_info it req.type
          → later ≤ r.expires_at
          → Serves r
      serves r d l =
          (l, rw single (Describes-applies r req.sender_info it req.type d resolved plain))
