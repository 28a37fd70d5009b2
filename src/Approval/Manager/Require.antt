-- ===== src/Approval/Manager/Require.antt =====
-- `RequireApproval` up to its wait and from it on, the records without a wait, and the gpg requests.
use secrets_dispatcher.Prelude.{
  ℕ, pos, ◌+◌, String, Bool, true, false, not, ◌&&◌, Option, none, some, List, [], eqb, is_empty,
  ◌==◌, ◌⊎◌, inl, inr, if◌then◌else◌,
}
use secrets_dispatcher.Prelude.Dict.{Dict, get}
use secrets_dispatcher.Approval.Types.{
  ItemInfo, Request, RequestType, delete_item, write_item, gpg_sign, SenderInfo, TrustRule,
  AutoApproveRule, GpgSignInfo, EventType, request_created, request_denied, request_expired,
  request_cancelled, request_auto_approved, request_ignored, Error, err_denied, err_timeout,
  err_ignored, err_denied_by_rule, err_context, err_no_sign_info, is_type,
}
use secrets_dispatcher.Approval.Match.{check_trust_rules}
use secrets_dispatcher.Approval.Manager.{Manager, allocate, enter_pending, drop_pending, notify}
use secrets_dispatcher.Approval.Manager.Cache.{check_approval_cache}
use secrets_dispatcher.Approval.Manager.Rules.{check_auto_approve_rules}

-- The arguments that every entry point takes.
pub record Ask : Type 0 where
  pub client : String
  pub items : List ItemInfo
  pub session : String
  pub type : RequestType
  pub search_attributes : Dict String
  pub sender_info : SenderInfo

-- A new request; `expires_at` and `is_done` differ between the callers.
abbrev pub request_of : Ask → String → ℕ → ℕ → Request
request_of a id now expires = record {
  id = id;
  client = a.client;
  items = a.items;
  session = a.session;
  created_at = now;
  expires_at = expires;
  type = a.type;
  search_attributes = a.search_attributes;
  sender_info = a.sender_info;
  gpg_sign_info = none;
  signature = [];
  gpg_status = [];
  gpg_exit_code = pos 0;
  is_done = false;
  result = false;
}

-- A request that is resolved at once: never pending, only in the history.
unfoldable pub record_resolved : Manager → Ask → EventType → String → ℕ → Manager
record_resolved m a e id now = notify (allocate m (request_of a id now now)) e id now

unfoldable pub record_passthrough : Manager → Ask → String → ℕ → Manager
unfolding record_resolved
record_passthrough m a id now = record_resolved m a request_auto_approved id now

-- Always a write, with no search attributes.
unfoldable pub record_ignored : Manager → Ask → String → ℕ → Manager
unfolding record_resolved
record_ignored m a id now =
    record_resolved m (record a { type = write_item; search_attributes = [] }) request_ignored id
      now

unfoldable pub record_denied : Manager → Ask → String → ℕ → Manager
unfolding record_resolved
record_denied m a id now = record_resolved m a request_denied id now

-- A call that has returned, with its flag and its error, or one that waits for its request.
pub data Outcome : Type 0 where
  returned : Bool → Option Error → Outcome
  waiting : String → Outcome

-- `action`, with "" read as "approve"; any other word approves too.
unfoldable pub apply_trust_rule : Manager → Ask → TrustRule → String → ℕ → Manager × Outcome
unfolding record_resolved
apply_trust_rule m a rule id now =
    if rule.action == "ignore"
    then (record_resolved m a request_ignored id now, returned true (some err_ignored))
    else if rule.action == "deny"
    then (record_resolved m a request_denied id now, returned true (some err_denied_by_rule))
    else (record_resolved m a request_auto_approved id now, returned true none)

unfoldable pub open_request : Manager → Ask → String → ℕ → Manager × Outcome
open_request m a id now =
    let req = request_of a id now (now + m.timeout) in
    (notify (enter_pending (allocate m req) id) request_created id now, waiting id)

abbrev pub may_use_cache : Manager → Ask → Bool
may_use_cache m a =
    not (is_type a.type delete_item)
    && not (is_type a.type write_item)
    && not (eqb m.approval_window 0)
    && not (is_empty a.items)

-- From the trust rules on, with the rule that matched.
unfoldable pub by_trust_rule : Option TrustRule → Manager → Ask → String → ℕ → Manager × Outcome
by_trust_rule (some rule) m a id now = apply_trust_rule m a rule id now
by_trust_rule none m a id now = open_request m a id now

unfoldable pub require_by_trust : Manager → Ask → String → ℕ → Manager × Outcome
unfolding by_trust_rule
require_by_trust m a id now =
    by_trust_rule (check_trust_rules m.trust_rules a.sender_info a.items a.type a.search_attributes)
      m a id now

-- From the auto-approve rules on, with the rule that matched.
unfoldable pub by_auto_rule :
    Option AutoApproveRule → Manager → Ask → String → ℕ → Manager × Outcome
unfolding record_resolved
by_auto_rule (some rule) m a id now =
    (record_resolved m a request_auto_approved id now, returned true none)
by_auto_rule none m a id now = require_by_trust m a id now

unfoldable pub require_by_rules : Manager → Ask → String → ℕ → Manager × Outcome
unfolding by_auto_rule
require_by_rules m a id now =
    let r = check_auto_approve_rules m a.sender_info a.items a.type now in
    by_auto_rule r.0 r.1 a id now

-- `id` is the fresh UUID that the call would use.
unfoldable pub require_approval : Manager → Ask → String → ℕ → Manager × Outcome
require_approval m a id now =
    let c = check_approval_cache m a.sender_info.sender a.items now in
    if m.disabled
    then (m, returned true none)
    else if may_use_cache m a
    then (if c.0 then (c.1, returned true none) else require_by_rules c.1 a id now)
    else require_by_rules m a id now

-- The branch of the `select` that fired, with the deferred `delete(m.pending, req.ID)`.
pub data Wake : Type 0 where
  by_done by_timer by_context : Wake

unfoldable pub wake : Wake → Manager → String → ℕ → Manager × Outcome
wake by_done m id now = (
  drop_pending m id,
  elim (get id m.heap) [
    | none ↦ returned false (some err_denied)
    | some req ↦ if req.result then returned false none else returned false (some err_denied)
  ],
)
wake by_timer m id now =
    (drop_pending (notify m request_expired id now) id, returned false (some err_timeout))
wake by_context m id now =
    (drop_pending (notify m request_cancelled id now) id, returned false (some err_context))

abbrev pub gpg_ask : String → SenderInfo → Ask
gpg_ask client sender_info = record {
  client = client;
  items = [];
  session = "";
  type = gpg_sign;
  search_attributes = [];
  sender_info = sender_info;
}

-- The ID, or the error on a missing context.
unfoldable pub create_gpg_sign_request :
    Manager → String → Option GpgSignInfo → SenderInfo → String → ℕ → Manager × (String ⊎ Error)
create_gpg_sign_request m client none sender_info id now = (m, inr err_no_sign_info)
create_gpg_sign_request m client (some info) sender_info id now =
    let req = record (request_of (gpg_ask client sender_info) id now (now + m.timeout)) {
      gpg_sign_info = some info;
    } in
    (notify (enter_pending (allocate m req) id) request_created id now, inl id)

-- The goroutine's timer: it drops the request before it notifies.
unfoldable pub expire_gpg_sign_request : Manager → String → ℕ → Manager
expire_gpg_sign_request m id now = notify (drop_pending m id) request_expired id now

unfoldable pub record_auto_approved_gpg_sign :
    Manager
    → String
    → Option GpgSignInfo
    → SenderInfo
    → List ℕ
    → List ℕ
    → String
    → ℕ
    → Manager × (String ⊎ Error)
record_auto_approved_gpg_sign m client none sender_info sig status id now =
    (m, inr err_no_sign_info)
record_auto_approved_gpg_sign m client (some info) sender_info sig status id now =
    let req = record (request_of (gpg_ask client sender_info) id now now) {
      gpg_sign_info = some info;
      signature = sig;
      gpg_status = status;
      is_done = true;
    } in
    (notify (allocate m req) request_auto_approved id now, inl id)
