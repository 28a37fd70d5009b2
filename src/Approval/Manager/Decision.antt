-- ===== src/Approval/Manager/Decision.antt =====
-- What `RequireApproval` of internal/approval/manager.go decides, and in which order.
use secrets_dispatcher.Prelude.{
  ℕ, ◌+◌, List, [], ◌∷◌, ap₂, not, ltb, eqb, is_empty, length, false, String, ◌≡◌, refl, ap, ◌∙◌,
  Bool, true, ◌&&◌, Option, none, some, arith, ◌==◌, if◌then◌else◌,
}
use secrets_dispatcher.Approval.Types.{
  RequestType, ItemInfo, get_secret, search_items, ssh_sign, unlock, gpg_sign, Request,
  AutoApproveRule, TrustRule, delete_item, write_item, is_type, err_ignored, err_denied_by_rule,
}
use secrets_dispatcher.Approval.Match.{rule_applies, check_trust_rules, match_trust_rule}
use secrets_dispatcher.Approval.Manager.{Manager, Config, get_pending}
use secrets_dispatcher.Approval.Manager.Cache.{check_approval_cache}
use secrets_dispatcher.Approval.Manager.Rules.{check_auto_approve_rules}
use secrets_dispatcher.Approval.Manager.Require.{
  Ask, Outcome, returned, waiting, require_approval, require_by_rules, require_by_trust,
  by_auto_rule, by_trust_rule, apply_trust_rule, open_request, may_use_cache,
}
use secrets_dispatcher.Approval.Manager.Effects.{
  check_approval_cache-Quiet, check_auto_approve_rules-Quiet,
}
use secrets_dispatcher.Approval.Manager.RuleScan.{active, find_first, check_auto_approve_rules-eq}

-- The verdict of a trust rule: any action but "ignore" and "deny" approves.
abbrev pub verdict : TrustRule → Outcome
verdict rule =
    if rule.action == "ignore"
    then returned true (some err_ignored)
    else if rule.action == "deny"
    then returned true (some err_denied_by_rule)
    else returned true none

-- The verdict of the rules: an auto-approve rule before a trust rule before the question.
abbrev pub by_rules : Option AutoApproveRule → Option TrustRule → String → Outcome
by_rules (some r) o id = returned true none
by_rules none (some rule) id = verdict rule
by_rules none none id = waiting id

-- What the code tests of the cache.
abbrev cache_found : Manager → Ask → ℕ → Bool
cache_found m a now =
    may_use_cache m a && (check_approval_cache m a.sender_info.sender a.items now).0

abbrev pub first_rule : Manager → Ask → ℕ → Option AutoApproveRule
first_rule m a now =
    find_first (λ r. rule_applies r a.sender_info a.items a.type) (active now m.auto_approve_rules)

-- The rule that the code finds.
abbrev pub trust_found : Manager → Ask → Option TrustRule
trust_found m a = check_trust_rules m.trust_rules a.sender_info a.items a.type a.search_attributes

by_auto_rule-by_rules :
    (o : Option AutoApproveRule) (m : Manager) (a : Ask) (id : String) (now : ℕ)
    → (by_auto_rule o m a id now).1 ≡ by_rules o (trust_found m a) id
unfolding by_auto_rule require_by_trust by_trust_rule apply_trust_rule open_request
by_auto_rule-by_rules (some r) m a id now = refl
by_auto_rule-by_rules none m a id now = ground arith

require_by_rules-by_rules :
    (m : Manager) (a : Ask) (id : String) (now : ℕ)
    → (require_by_rules m a id now).1 ≡ by_rules (first_rule m a now) (trust_found m a) id
unfolding require_by_rules
require_by_rules-by_rules m a id now =
    let r = check_auto_approve_rules m a.sender_info a.items a.type now in
    by_auto_rule-by_rules r.0 r.1 a id now
    ∙ ap (λ o. by_rules o (trust_found r.1 a) id)
        (check_auto_approve_rules-eq m a.sender_info a.items a.type now).0
    ∙ ap
        (λ (cfg : Config).
          by_rules (first_rule m a now)
            (check_trust_rules cfg.trust_rules a.sender_info a.items a.type a.search_attributes) id)
        (check_auto_approve_rules-Quiet m a.sender_info a.items a.type now).config

-- A check of the cache leaves the rules alone.
first_rule-check :
    (m : Manager) (a : Ask) (now : ℕ) (sender : String)
    → first_rule (check_approval_cache m sender a.items now).1 a now ≡ first_rule m a now
unfolding check_approval_cache
first_rule-check m a now sender = ground arith

checked_by_rules :
    (m : Manager) (a : Ask) (id : String) (now : ℕ)
    → (require_by_rules (check_approval_cache m a.sender_info.sender a.items now).1 a id now).1
      ≡ by_rules (first_rule m a now) (trust_found m a) id
checked_by_rules m a id now =
    let c = check_approval_cache m a.sender_info.sender a.items now in
    require_by_rules-by_rules c.1 a id now
    ∙ ap (λ o. by_rules o (trust_found c.1 a) id) (first_rule-check m a now a.sender_info.sender)
    ∙ ap
        (λ (cfg : Config).
          by_rules (first_rule m a now)
            (check_trust_rules cfg.trust_rules a.sender_info a.items a.type a.search_attributes) id)
        (check_approval_cache-Quiet m a.sender_info.sender a.items now).config

-- A deletion and a write are never answered from the cache.
abbrev pub always_asked : RequestType → Bool
always_asked delete_item = true
always_asked write_item = true
always_asked _ = false

-- The cache may answer: the request is no deletion and no write, there is a window, and there are items.
abbrev pub cache_allowed : Manager → Ask → Bool
cache_allowed m a = not (always_asked a.type) && ltb 0 m.approval_window && ltb 0 (length a.items)

tested_type :
    (t : RequestType)
    → (not (is_type t delete_item) && not (is_type t write_item)) ≡ not (always_asked t)
tested_type get_secret = refl
tested_type search_items = refl
tested_type delete_item = refl
tested_type write_item = refl
tested_type ssh_sign = refl
tested_type unlock = refl
tested_type gpg_sign = refl

tested_items : (items : List ItemInfo) → not (is_empty items) ≡ ltb 0 (length items)
tested_items [] = refl
tested_items (it ∷ items) = ground arith

tested_window : (window : ℕ) → not (eqb window 0) ≡ ltb 0 window
tested_window window = ground arith

allowed_for :
    (t : RequestType) (window : ℕ) (items : List ItemInfo)
    → (not (is_type t delete_item)
        && not (is_type t write_item)
        && not (eqb window 0)
        && not (is_empty items))
      ≡ (not (always_asked t) && ltb 0 window && ltb 0 (length items))
allowed_for t window items =
    ap (λ b. b && not (eqb window 0) && not (is_empty items)) (tested_type t)
    ∙ ap₂ (λ p q. not (always_asked t) && p && q) (tested_window window) (tested_items items)

-- The cache may answer, and does.
abbrev pub cache_hit : Manager → Ask → ℕ → Bool
cache_hit m a now = cache_allowed m a && (check_approval_cache m a.sender_info.sender a.items now).0

abbrev pub first_trust : Manager → Ask → Option TrustRule
first_trust m a =
    find_first (λ r. match_trust_rule r a.sender_info a.items a.type a.search_attributes)
      m.trust_rules

trust_rules-first :
    (rules : List TrustRule) (a : Ask)
    → check_trust_rules rules a.sender_info a.items a.type a.search_attributes
      ≡ find_first (λ r. match_trust_rule r a.sender_info a.items a.type a.search_attributes) rules
unfolding check_trust_rules
trust_rules-first [] a = refl
trust_rules-first (r ∷ rs) a = rw (trust_rules-first rs a) refl

decision_order :
    (m : Manager) (a : Ask) (id : String) (now : ℕ)
    → (require_approval m a id now).1 ≡ (
        if m.disabled
        then returned true none
        else if cache_found m a now
        then returned true none
        else by_rules (first_rule m a now) (trust_found m a) id)
unfolding require_approval
decision_order m a id now =
    ground (arith, require_by_rules-by_rules m a id now, checked_by_rules m a id now)

-- The call decides in this order: a disabled manager approves; a cache hit approves, if the request is
-- no deletion and no write, there is a window, and there are items; the first active auto-approve rule
-- that applies approves; the first trust rule that matches gives its verdict; otherwise the call waits
-- for the user.
pub require_approval_order :
    (m : Manager) (a : Ask) (id : String) (now : ℕ)
    → (require_approval m a id now).1 ≡ (
        if m.disabled
        then returned true none
        else if cache_hit m a now
        then returned true none
        else by_rules (first_rule m a now) (first_trust m a) id)
require_approval_order m a id now =
    decision_order m a id now
    ∙ ap
        (λ (b : Bool).
          if m.disabled
          then returned true none
          else if b && (check_approval_cache m a.sender_info.sender a.items now).0
          then returned true none
          else by_rules (first_rule m a now) (trust_found m a) id)
        (allowed_for a.type m.approval_window a.items)
    ∙ ap
        (λ o.
          if m.disabled
          then returned true none
          else if cache_hit m a now
          then returned true none
          else by_rules (first_rule m a now) o id)
        (trust_rules-first m.trust_rules a)

-- A pending request is what was asked: open and undecided, of this time, and for the configured time.
pub record Opened (m : Manager) (a : Ask) (id : String) (now : ℕ) (r : Request) : Type 0 where
  pub named : r.id ≡ id
  pub client : r.client ≡ a.client
  pub items : r.items ≡ a.items
  pub session : r.session ≡ a.session
  pub type : r.type ≡ a.type
  pub search : r.search_attributes ≡ a.search_attributes
  pub sender : r.sender_info ≡ a.sender_info
  pub created : r.created_at ≡ now
  pub expires : r.expires_at ≡ now + m.timeout
  pub open_still : r.is_done ≡ false
  pub undecided : r.result ≡ false
  pub unsigned : (r.gpg_sign_info ≡ none) × (r.signature ≡ [])

module _ (m : Manager) (a : Ask) (id : String) (now : ℕ) where
  -- A call that returns leaves the pending requests as they were; one that waits has entered its own.
  abbrev pub Accounts : Manager × Outcome → Type 0
  Accounts (m', returned flag e) = m'.pending ≡ m.pending
  Accounts (m', waiting j) =
      (j ≡ id) × (r : Request) × (get_pending m' id ≡ some r) × Opened m a id now r
