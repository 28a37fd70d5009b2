-- ===== src/Approval/Tests/Deciding.antt =====
-- Examples of the decisions and the resolutions of internal/approval/manager.go.
use secrets_dispatcher.Prelude.{
  String, arith, ◌≤◌, ◌≡◌, refl, true, false, none, some, [], ◌∷◌, length, if◌then◌else◌,
}
use secrets_dispatcher.Prelude.Dict.{get, insert}
use secrets_dispatcher.Approval.Types.{delete_item, err_timeout, approved, Request, HistoryEntry}
use secrets_dispatcher.Approval.Match.{check_trust_rules}
use secrets_dispatcher.Approval.Manager.{Manager, get_pending, get_history_entry, notify}
use secrets_dispatcher.Approval.Manager.Cache.{check_approval_cache}
use secrets_dispatcher.Approval.Manager.Rules.{check_auto_approve_rules}
use secrets_dispatcher.Approval.Manager.Resolve.{approve, resolve}
use secrets_dispatcher.Approval.Manager.Require.{
  Ask, returned, by_timer, require_approval, require_by_rules, require_by_trust, open_request,
}
use secrets_dispatcher.Approval.Manager.Steps.{step, Reach, here, next, require, subscribes}
use secrets_dispatcher.Approval.Manager.Safe.{history_bounded, pending_open}
use secrets_dispatcher.Approval.Manager.Race.{fire, late_approval}
use secrets_dispatcher.Approval.Manager.History.{add_entries, history_newest}
use secrets_dispatcher.Approval.Manager.Decision.{
  require_approval_order, by_rules, first_rule, first_trust, cache_hit,
}
use secrets_dispatcher.Approval.Tests.{settings, start, ask, request, asked}

fresh : get {V = Request} "r" [] ≡ none
unfolding get
fresh = refl

asked_pending : get_pending asked "r" ≡ some request
unfolding get_pending require_approval check_approval_cache get require_by_rules
    check_auto_approve_rules require_by_trust check_trust_rules open_request notify insert
asked_pending = refl

asked-Reach : Reach start asked
unfolding step
asked-Reach = next here (require ask "r" 5) fresh

history_bounded_example : length asked.history ≤ settings.history_max
history_bounded_example = history_bounded settings asked asked-Reach

pending_open_example : (request.id ≡ "r") × (request.is_done ≡ false)
pending_open_example = pending_open settings asked "r" request asked-Reach asked_pending

-- Approved, then a second request comes in.
abbrev approved_manager : Manager
approved_manager = (resolve approve asked "r" 6).0

abbrev later_manager : Manager
later_manager = step approved_manager (subscribes 3)

require_approval_order_example : (require_approval start ask "r" 5).1 ≡ (
    if start.disabled
    then returned true none
    else if cache_hit start ask 5
    then returned true none
    else by_rules (first_rule start ask 5) (first_trust start ask) "r")
require_approval_order_example = require_approval_order start ask "r" 5

abbrev delete_ask : Ask
delete_ask = record ask { type = delete_item }

late_approval_example :
    ((fire by_timer asked "r" 105).1 ≡ returned false (some err_timeout))
    × ((resolve approve (fire by_timer asked "r" 105).0 "r" 106).1 ≡ none)
    × (get_history_entry (resolve approve (fire by_timer asked "r" 105).0 "r" 106).0 "r"
        ≡ some (record { request = "r"; resolution = approved; resolved_at = 106 }))
unfolding require_approval check_approval_cache get require_by_rules check_auto_approve_rules
    require_by_trust check_trust_rules open_request notify
late_approval_example = late_approval asked request 105 106 asked_pending (omega arith)

abbrev entry : String → HistoryEntry
entry id = record { request = id; resolution = approved; resolved_at = 1 }

-- Three entries, one more than the limit.
history_newest_example :
    (add_entries start (entry "a" ∷ entry "b" ∷ entry "c" ∷ [])).history
    ≡ entry "c" ∷ entry "b" ∷ []
history_newest_example = history_newest start [] (entry "a" ∷ entry "b" ∷ entry "c" ∷ []) refl
