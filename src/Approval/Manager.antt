-- ===== src/Approval/Manager.antt =====
-- internal/approval/manager.go: the manager's state, its observers and its history. The parts that
-- work on it are the modules below. A call is one step.
pub mod Cache
pub mod Rules
pub mod Resolve
pub mod Require
pub mod Effects
pub mod Invariant
pub mod Steps
pub mod Closed
pub mod Safe
pub mod Settled
pub mod CacheKeys
pub mod CacheWindow
pub mod RuleScan
pub mod RuleRetry
pub mod RuleWidth
pub mod Decision
pub mod Race
pub mod History
use secrets_dispatcher.Prelude.{
  ℕ, String, Bool, true, false, not, ◌&&◌, ◌||◌, Option, none, some, List, [], ◌∷◌, ◌++◌, eqb, ltb,
  any, keep, take, length, ◌==◌, if◌then◌else◌,
}
use secrets_dispatcher.Prelude.Dict.{Dict, get, insert}
use secrets_dispatcher.Approval.Types.{
  Request, HistoryEntry, Resolution, approved, denied, expired, cancelled, auto_approved, ignored,
  TrustedSigner, AutoApproveRule, TrustRule, Event, EventType, request_created, request_approved,
  request_denied, request_expired, request_cancelled, request_auto_approved, request_ignored,
  rule_added, rule_removed, ItemInfo, RequestType, write_item, is_type,
}
use secrets_dispatcher.Approval.Match.{at}

-- `ManagerConfig`, with the field `disabled`: what no call changes.
pub record Config : Type 0 where
  pub timeout : ℕ
  pub disabled : Bool
  pub history_max : ℕ
  pub approval_window : ℕ
  pub auto_approve_duration : ℕ
  pub trusted_signers : List TrustedSigner
  pub ignore_chrome_dummy : Bool
  pub trust_rules : List TrustRule

-- `heap` holds the request objects, which the map `pending`, the history and the waiting goroutines
-- share; `pending` is that map's set of keys. `deliveries` records the calls of `OnEvent`, latest
-- first: observers are numbers, and do not call back.
pub record Manager : Type 0 where
  pub config : Config
  pub open config use *
  pub heap : Dict Request
  pub pending : List String
  pub observers : List ℕ
  pub history : List HistoryEntry
  pub cache : Dict ℕ
  pub auto_approve_rules : List AutoApproveRule
  pub deliveries : List (ℕ × Event)

abbrev pub new_manager : Config → Manager
new_manager cfg = record {
  config = record cfg { disabled = false };
  heap = [];
  pending = [];
  observers = [];
  history = [];
  cache = [];
  auto_approve_rules = [];
  deliveries = [];
}

abbrev pub new_disabled_manager : Manager
new_disabled_manager = record {
  config = record {
    timeout = 0;
    disabled = true;
    history_max = 100;
    approval_window = 0;
    auto_approve_duration = 0;
    trusted_signers = [];
    ignore_chrome_dummy = false;
    trust_rules = [];
  };
  heap = [];
  pending = [];
  observers = [];
  history = [];
  cache = [];
  auto_approve_rules = [];
  deliveries = [];
}

unfoldable pub unsubscribe : Manager → ℕ → Manager
unsubscribe m o = record m { observers = keep (λ p. not (eqb p o)) m.observers }

-- The observers are the keys of a map: a second subscription changes nothing.
unfoldable pub subscribe : Manager → ℕ → Manager
subscribe m o = if any (eqb o) m.observers then m else record m { observers = o ∷ m.observers }

-- The resolution that an event leaves in the history, if it leaves one: the test of `notify` and the
-- switch of `addHistory`.
abbrev pub resolution_of : EventType → Option Resolution
resolution_of request_created = none
resolution_of request_approved = some approved
resolution_of request_denied = some denied
resolution_of request_expired = some expired
resolution_of request_cancelled = some cancelled
resolution_of request_auto_approved = some auto_approved
resolution_of request_ignored = some ignored
resolution_of rule_added = none
resolution_of rule_removed = none

-- Newest first, cut to `history_max`.
unfoldable pub add_history_entry : Manager → HistoryEntry → Manager
add_history_entry m entry =
    let entries = entry ∷ m.history in
    record m {
      history = if ltb m.history_max (length entries) then take m.history_max entries else entries;
    }

unfoldable pub add_resolution : Option Resolution → Manager → String → ℕ → Manager
unfolding add_history_entry
add_resolution none m id now = m
add_resolution (some r) m id now =
    add_history_entry m (record { request = id; resolution = r; resolved_at = now })

unfoldable pub add_history : Manager → EventType → String → ℕ → Manager
unfolding add_resolution
add_history m e id now = add_resolution (resolution_of e) m id now

unfoldable pub deliver : List ℕ → Event → List (ℕ × Event) → List (ℕ × Event)
deliver [] event log = log
deliver (o ∷ os) event log = deliver os event ((o, event) ∷ log)

-- `notify` of an event about a request.
unfoldable pub notify : Manager → EventType → String → ℕ → Manager
unfolding add_history deliver
notify m e id now =
    let event : Event = record { type = e; request = some id; rule = none } in
    add_history (record m { deliveries = deliver m.observers event m.deliveries }) e id now

-- `notify` of an event about a rule, which leaves no history.
unfoldable pub notify_rule : Manager → EventType → AutoApproveRule → Manager
unfolding deliver
notify_rule m e rule =
    let event : Event = record { type = e; request = none; rule = some rule } in
    record m { deliveries = deliver m.observers event m.deliveries }

unfoldable pub find_entry : String → List HistoryEntry → Option HistoryEntry
find_entry id [] = none
find_entry id (e ∷ es) = if e.request == id then some e else find_entry id es

unfoldable pub get_history_entry : Manager → String → Option HistoryEntry
unfolding find_entry
get_history_entry m id = find_entry id m.history

abbrev pub is_pending : Manager → String → Bool
is_pending m id = any (◌==◌ id) m.pending

-- `m.pending[id]`
unfoldable pub get_pending : Manager → String → Option Request
get_pending m id = if is_pending m id then get id m.heap else none

unfoldable pub pending_count : Manager → ℕ
pending_count m = length m.pending

abbrev pub drop_pending : Manager → String → Manager
drop_pending m id = record m { pending = keep (λ j. not (id == j)) m.pending }

-- A new object, and `m.pending[req.ID] = req`.
abbrev pub allocate : Manager → Request → Manager
allocate m req = record m { heap = insert req.id req m.heap }

abbrev pub enter_pending : Manager → String → Manager
enter_pending m id = if is_pending m id then m else record m { pending = id ∷ m.pending }

unfoldable pub not_expired : Dict Request → ℕ → String → Bool
not_expired heap now id = elim (get id heap) [ none ↦ false | some r ↦ ltb now r.expires_at ]

-- The IDs of the requests that `List` returns, in the order of the map.
unfoldable pub list_pending : Manager → ℕ → List String
unfolding not_expired
list_pending m now = keep (not_expired m.heap now) m.pending

abbrev pub chrome_dummy_schema : String
chrome_dummy_schema = "_chrome_dummy_schema_for_unlocking"

unfoldable pub should_ignore : Manager → List ItemInfo → RequestType → Bool
should_ignore m items req_type =
    if not m.ignore_chrome_dummy || not (is_type req_type write_item)
    then false
    else any (λ it. at "xdg:schema" it.attributes == chrome_dummy_schema) items
