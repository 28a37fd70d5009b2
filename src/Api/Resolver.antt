-- ===== src/Api/Resolver.antt =====
-- internal/api/resolver.go: approving a request, which runs gpg when it asks for a signature.
pub mod Signing
use secrets_dispatcher.Prelude.{
  ℕ, String, Bool, true, false, not, ◌||◌, Option, none, some, List, [], ◌∷◌, ℤ, pos, is_zero,
  if◌then◌else◌,
}
use secrets_dispatcher.Approval.Types.{
  Request, GpgSignInfo, HistoryEntry, Resolution, cancelled, Error, err_not_found, gpg_sign,
  is_type,
}
use secrets_dispatcher.Approval.Manager.{Manager, get_pending, get_history_entry}
use secrets_dispatcher.Approval.Manager.Rules.{add_auto_approve_rule}
use secrets_dispatcher.Approval.Manager.Resolve.{
  Call, approve, deny, approve_and_auto_approve, approve_with_signature, approve_gpg_failed,
  resolve,
}
use secrets_dispatcher.Prelude.Dict.{get}

-- `has_failed` is whether there was an error. The exit code is -1 where a signal ended gpg.
pub record GpgResult : Type 0 where
  pub sig : List ℕ
  pub status : List ℕ
  pub exit_code : ℤ
  pub has_failed : Bool

-- The real gpg: its path, if there is one, and what it gives for a path, a key and the bytes of its
-- input.
pub record GpgRunner : Type 0 where
  pub find_gpg : Option String
  pub run_gpg : String → String → String → GpgResult

-- What comes from outside while a call runs: the fresh UUID of a rule, the manager as the other
-- goroutines leave it while gpg runs, and the clock at the end.
pub record Outside : Type 0 where
  pub rule_id : String
  pub meanwhile : Manager → Manager
  pub now : ℕ

-- The signing context, if the request asks for a signature.
abbrev pub sign_info : Request → Option GpgSignInfo
sign_info req = if is_type req.type gpg_sign then req.gpg_sign_info else none

abbrev pub is_signed : GpgResult → Bool
is_signed res = not (res.has_failed || not (is_zero res.exit_code))

abbrev pub run_for : GpgRunner → String → GpgSignInfo → GpgResult
run_for g path info = g.run_gpg path info.key_id info.commit_object

-- What `approveGPGSign` does with the result.
abbrev pub after_gpg : Manager → String → GpgResult → ℕ → Manager × Option Error
after_gpg m id res now =
    if is_signed res
    then resolve (approve_with_signature res.sig res.status) m id now
    else resolve (approve_gpg_failed res.status res.exit_code) m id now

unfoldable pub approve_gpg_sign :
    GpgRunner → Option String → Manager → String → GpgSignInfo → Outside → Manager × Option Error
approve_gpg_sign g none m id info o = resolve (approve_gpg_failed [] (pos 2)) m id o.now
approve_gpg_sign g (some path) m id info o =
    after_gpg (o.meanwhile m) id (run_for g path info) o.now

abbrev pub approve_kind :
    Option GpgSignInfo → GpgRunner → Manager → String → Outside → Manager × Option Error
approve_kind none g m id o = resolve approve m id o.now
approve_kind (some info) g m id o = approve_gpg_sign g g.find_gpg m id info o

abbrev pub approve_pending :
    Option Request → GpgRunner → Manager → String → Outside → Manager × Option Error
approve_pending none g m id o = (m, some err_not_found)
approve_pending (some req) g m id o = approve_kind (sign_info req) g m id o

-- `Resolver.Approve`.
unfoldable pub resolver_approve : GpgRunner → Manager → String → Outside → Manager × Option Error
unfolding approve_gpg_sign
resolver_approve g m id o = approve_pending (get_pending m id) g m id o

-- `Resolver.Deny`.
unfoldable pub resolver_deny : Manager → String → ℕ → Manager × Option Error
resolver_deny m id now = resolve deny m id now

-- The rule is for the request that was found, which is the object of that ID in the heap by then.
abbrev pub with_rule : Request → Outside → Manager × Option Error → Manager × Option Error
with_rule req o (m, some e) = (m, some e)
with_rule req o (m, none) = ((add_auto_approve_rule m req o.rule_id o.now).0, none)

abbrev pub sign_with_rule :
    Option String
    → GpgRunner
    → Manager
    → String
    → Request
    → GpgSignInfo
    → Outside
    → Manager × Option Error
sign_with_rule none g m id req info o = resolve (approve_gpg_failed [] (pos 2)) m id o.now
sign_with_rule (some path) g m id req info o =
    let res = run_for g path info in
    let later = o.meanwhile m in
    if is_signed res
    then with_rule req o (resolve (approve_with_signature res.sig res.status) later id o.now)
    else resolve (approve_gpg_failed res.status res.exit_code) later id o.now

abbrev pub rule_kind :
    Option GpgSignInfo → GpgRunner → Manager → String → Request → Outside → Manager × Option Error
rule_kind none g m id req o = resolve (approve_and_auto_approve o.rule_id) m id o.now
rule_kind (some info) g m id req o = sign_with_rule g.find_gpg g m id req info o

abbrev pub rule_found :
    Option Request → GpgRunner → Manager → String → Outside → Manager × Option Error
rule_found none g m id o = (m, some err_not_found)
rule_found (some req) g m id o = rule_kind (sign_info req) g m id req o

-- `Resolver.ApproveAndAutoApprove`.
unfoldable pub resolver_approve_and_auto_approve :
    GpgRunner → Manager → String → Outside → Manager × Option Error
resolver_approve_and_auto_approve g m id o = rule_found (get_pending m id) g m id o

abbrev pub entry_cancelled : Resolution → Bool
entry_cancelled cancelled = true
entry_cancelled _ = false

abbrev pub rule_from : Option HistoryEntry → Manager → Outside → Manager × Option Error
rule_from none m o = (m, some err_not_found)
rule_from (some entry) m o =
    if not (entry_cancelled entry.resolution)
    then (m, some err_not_found)
    else elim (get entry.request m.heap) [
      | none ↦ (m, some err_not_found)
      | some req ↦ ((add_auto_approve_rule m req o.rule_id o.now).0, none)
    ]

-- `Resolver.AutoApprove`.
unfoldable pub auto_approve : Manager → String → Outside → Manager × Option Error
auto_approve m id o = rule_from (get_history_entry m id) m o
