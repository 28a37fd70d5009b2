-- ===== src/Approval/Manager/Steps.antt =====
-- Histories of calls: every method of the manager that changes it, as one step, and what holds after any
-- sequence of them.
use secrets_dispatcher.Prelude.{ℕ, String, ◌≡◌, none, List, Option}
use secrets_dispatcher.Prelude.Dict.{get}
use secrets_dispatcher.Approval.Types.{
  HistoryEntry, Request, GpgSignInfo, SenderInfo, ItemInfo, RequestType,
}
use secrets_dispatcher.Approval.Manager.{Manager, add_history_entry, subscribe, unsubscribe}
use secrets_dispatcher.Approval.Manager.Cache.{cache_item_for_sender}
use secrets_dispatcher.Approval.Manager.Rules.{
  add_auto_approve_rule, check_auto_approve_rules, remove_auto_approve_rule,
}
use secrets_dispatcher.Approval.Manager.Resolve.{Call, resolve}
use secrets_dispatcher.Approval.Manager.Require.{
  Ask, Wake, wake, require_approval, record_passthrough, record_ignored, record_denied,
  create_gpg_sign_request, expire_gpg_sign_request, record_auto_approved_gpg_sign,
}

pub data Op : Type 0 where
  require : Ask → String → ℕ → Op
  wakes : Wake → String → ℕ → Op
  resolves : Call → String → ℕ → Op
  create_gpg : String → Option GpgSignInfo → SenderInfo → String → ℕ → Op
  expire_gpg : String → ℕ → Op
  auto_gpg : String → Option GpgSignInfo → SenderInfo → List ℕ → List ℕ → String → ℕ → Op
  passthrough record_ignore record_deny : Ask → String → ℕ → Op
  cache_item : String → String → ℕ → Op
  add_entry : HistoryEntry → Op
  check_rules : SenderInfo → List ItemInfo → RequestType → ℕ → Op
  add_rule : Request → String → ℕ → Op
  remove_rule : String → Op
  subscribes unsubscribes : ℕ → Op

unfoldable pub step : Manager → Op → Manager
step m (require a id now) = (require_approval m a id now).0
step m (wakes w id now) = (wake w m id now).0
step m (resolves call id now) = (resolve call m id now).0
step m (create_gpg client info s id now) = (create_gpg_sign_request m client info s id now).0
step m (expire_gpg id now) = expire_gpg_sign_request m id now
step m (auto_gpg client info s sig status id now) =
    (record_auto_approved_gpg_sign m client info s sig status id now).0
step m (passthrough a id now) = record_passthrough m a id now
step m (record_ignore a id now) = record_ignored m a id now
step m (record_deny a id now) = record_denied m a id now
step m (cache_item sender path now) = cache_item_for_sender m sender path now
step m (add_entry entry) = add_history_entry m entry
step m (check_rules s items t now) = (check_auto_approve_rules m s items t now).1
step m (add_rule req id now) = (add_auto_approve_rule m req id now).0
step m (remove_rule id) = (remove_auto_approve_rule m id).0
step m (subscribes o) = subscribe m o
step m (unsubscribes o) = unsubscribe m o

-- The UUIDs that a call draws for a new request are fresh.
abbrev pub IsFresh : Manager → Op → Type 0
IsFresh m (require a id now) = get id m.heap ≡ none
IsFresh m (create_gpg client info s id now) = get id m.heap ≡ none
IsFresh m (auto_gpg client info s sig status id now) = get id m.heap ≡ none
IsFresh m (passthrough a id now) = get id m.heap ≡ none
IsFresh m (record_ignore a id now) = get id m.heap ≡ none
IsFresh m (record_deny a id now) = get id m.heap ≡ none
IsFresh m _ = Unit {0}

-- The managers that a sequence of calls leads to.
pub data Reach (m : Manager) : Manager → Type 0 where
  here : Reach m m
  next : {t : Manager} → Reach m t → (op : Op) → IsFresh t op → Reach m (step t op)
