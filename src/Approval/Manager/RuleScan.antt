-- ===== src/Approval/Manager/RuleScan.antt =====
-- Which auto-approve rule is found, and which rules stay: `checkAutoApproveRules` of
-- internal/approval/manager.go.
use secrets_dispatcher.Prelude.{
  ap, ℕ, ◌≤◌, ◌≡◌, ◌≢◌, refl, Bool, true, not, Option, none, some, List, [], ◌∷◌, arith, ltb, keep,
  Has, inl, inr, if◌then◌else◌,
}
use secrets_dispatcher.Approval.Types.{AutoApproveRule, SenderInfo, ItemInfo, RequestType}
use secrets_dispatcher.Approval.Match.{rule_applies}
use secrets_dispatcher.Approval.Manager.{Manager}
use secrets_dispatcher.Approval.Manager.Rules.{scan_rules, check_auto_approve_rules}

-- The rules that have not expired: the moment of expiry still counts.
abbrev pub active : ℕ → List AutoApproveRule → List AutoApproveRule
active now rules = keep (λ r. not (ltb r.expires_at now)) rules

abbrev pub find_first {ℓ} : {A : Type ℓ} → (A → Bool) → List A → Option A
find_first applies [] = none
find_first applies (r ∷ rs) = if applies r then some r else find_first applies rs

module _ (applies : AutoApproveRule → Bool) (now : ℕ) where
  scan_found :
      (q : AutoApproveRule) (rs : List AutoApproveRule)
      → scan_rules applies now (some q) rs ≡ (some q, active now rs)
  unfolding scan_rules
  scan_found q [] = refl
  scan_found q (r ∷ rs) = ground (arith, scan_found q rs)

  scan_rules-eq :
      (rs : List AutoApproveRule)
      → scan_rules applies now none rs ≡ (find_first applies (active now rs), active now rs)
  unfolding scan_rules
  scan_rules-eq [] = refl
  scan_rules-eq (r ∷ rs) = ground (arith, scan_rules-eq rs, scan_found r rs)

module _ (m : Manager) (s : SenderInfo) (items : List ItemInfo) (t : RequestType) (now : ℕ) where
  -- The one pass over the rules finds the first one that has not expired and applies, and leaves the
  -- rules that have not expired, in their order.
  pub check_auto_approve_rules-eq :
      ((check_auto_approve_rules m s items t now).0
        ≡ find_first (λ r. rule_applies r s items t) (active now m.auto_approve_rules))
      × ((check_auto_approve_rules m s items t now).1.auto_approve_rules
          ≡ active now m.auto_approve_rules)
  unfolding check_auto_approve_rules
  check_auto_approve_rules-eq =
      let e = scan_rules-eq (λ r. rule_applies r s items t) now m.auto_approve_rules in
      (ap (λ p. p.0) e, ap (λ p. p.1) e)

-- A rule that applies and has not expired is found, if not an earlier one is.
pub find_first-Has :
    (applies : AutoApproveRule → Bool) (now : ℕ) (rs : List AutoApproveRule)
    → Has (λ r. (now ≤ r.expires_at) × (applies r ≡ true)) rs
    → find_first applies (active now rs) ≢ none
find_first-Has applies now [] h = elim h [ ]
find_first-Has applies now (r ∷ rs) (inl (le, hit)) = ground arith
find_first-Has applies now (r ∷ rs) (inr h) = ground (arith, find_first-Has applies now rs h)
