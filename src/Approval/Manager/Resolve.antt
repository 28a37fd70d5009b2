-- ===== src/Approval/Manager/Resolve.antt =====
-- How a pending request is resolved: `Approve`, `ApproveAndAutoApprove`, `Deny`, `Cancel`,
-- `ApproveWithSignature` and `ApproveGPGFailed`.
use secrets_dispatcher.Prelude.{ℕ, ℤ, String, true, false, Option, none, some, List}
use secrets_dispatcher.Approval.Types.{
  Request, EventType, request_approved, request_denied, request_cancelled, Error, err_not_found,
}
use secrets_dispatcher.Approval.Manager.{Manager, get_pending, allocate, drop_pending, notify}
use secrets_dispatcher.Approval.Manager.Cache.{cache_approval}
use secrets_dispatcher.Approval.Manager.Rules.{add_auto_approve_rule}

-- What each call writes into the request under the lock, `result` included.
pub data Call : Type 0 where
  approve deny cancel : Call
  -- with the UUID of the rule
  approve_and_auto_approve : String → Call
  approve_with_signature : List ℕ → List ℕ → Call
  approve_gpg_failed : List ℕ → ℤ → Call

abbrev pub written : Call → Request → Request
written approve req = record req { result = true }
written deny req = record req { result = false }
written cancel req = record req { result = false }
written (approve_and_auto_approve id) req = record req { result = true }
written (approve_with_signature sig status) req = record req {
  signature = sig;
  gpg_status = status;
  result = true;
}
written (approve_gpg_failed status code) req = record req {
  gpg_status = status;
  gpg_exit_code = code;
  result = true;
}

-- The locked section: the writes, `delete(m.pending, id)` and `close(req.done)`.
unfoldable pub close_request : Manager → Request → Manager
close_request m req = drop_pending (allocate m (record req { is_done = true })) req.id

abbrev pub event_of : Call → EventType
event_of deny = request_denied
event_of cancel = request_cancelled
event_of _ = request_approved

-- What follows the notification.
abbrev pub afterwards : Call → Manager → Request → ℕ → Manager
afterwards approve m req now = cache_approval m req now
afterwards (approve_and_auto_approve id) m req now =
    (add_auto_approve_rule (cache_approval m req now) req id now).0
afterwards (approve_with_signature sig status) m req now = cache_approval m req now
afterwards _ m req now = m

unfoldable pub resolve_found : Call → Option Request → Manager → ℕ → Manager × Option Error
unfolding close_request
resolve_found call none m now = (m, some err_not_found)
resolve_found call (some req) m now =
    let req' = written call req in
    (afterwards call (notify (close_request m req') (event_of call) req.id now) req' now, none)

unfoldable pub resolve : Call → Manager → String → ℕ → Manager × Option Error
unfolding resolve_found
resolve call m id now = resolve_found call (get_pending m id) m now
