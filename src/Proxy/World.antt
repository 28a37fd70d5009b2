-- ===== src/Proxy/World.antt =====
-- internal/proxy: what the D-Bus handlers share: the proxy's state, the caller, and the gate that a call
-- passes before it is forwarded.
use secrets_dispatcher.Prelude.{ℕ, String, Bool, Option, none, some, List, [], ◌∷◌, ◌++◌}
use secrets_dispatcher.Prelude.Dict.{Dict}
use secrets_dispatcher.Text.{concat}
use secrets_dispatcher.Dbus.{DbusError, item_interface, collection_interface}
use secrets_dispatcher.Approval.Types.{
  ItemInfo, SenderInfo, RequestType, Error, err_denied, err_timeout, err_not_found, err_ignored,
  err_denied_by_rule, err_context, err_no_sign_info,
}
use secrets_dispatcher.Approval.Manager.{Manager}
use secrets_dispatcher.Approval.Manager.Require.{
  Ask, Outcome, returned, waiting, require_approval, Wake, wake,
}
use secrets_dispatcher.Proxy.Tracker.{Tracker, context_for_sender, release}
use secrets_dispatcher.Proxy.Upstream.{
  Variant, text_value, attributes_value, Call, Reply, answered, with_property,
}
use secrets_dispatcher.Proxy.Session.{SessionManager}

-- What the handlers of one front connection share.
pub record World : Type 0 where
  pub manager : Manager
  pub sessions : SessionManager
  pub tracker : Tracker

-- The caller and its call: `connected` is whether the bus still knows the sender, `id` the UUID that
-- the call would use. `during` is all that happens while the call waits for a decision: the steps of
-- the other goroutines, the branch of the `select` that fires, and the time.
pub record Peer : Type 0 where
  pub client_name : String
  pub sender : String
  pub sender_info : SenderInfo
  pub connected : Bool
  pub id : String
  pub now : ℕ
  pub during : World → World × Wake × ℕ

-- The reply to the client; `panicked` is a write into the nil map of a closed tracker.
pub data Answer (A : Type 0) : Type 0 where
  replied : A → Answer A
  failed_with : DbusError → Answer A
  panicked : Answer A

-- What a handler leaves: the state, its own calls of the upstream in their order, and its reply.
pub record Served (A : Type 0) : Type 0 where
  pub world : World
  pub calls : List Call
  pub answer : Answer A

-- An error before anything was forwarded.
abbrev pub refuse : {A : Type 0} → World → DbusError → Served A
refuse w e = record { world = w; calls = []; answer = failed_with e }

-- The calls that precede the rest of a handler.
abbrev pub after_calls : {A : Type 0} → List Call → Served A → Served A
after_calls calls s = record s { calls = calls ++ s.calls }

-- `errors.Error`.
abbrev pub error_text : Error → String
error_text err_denied = "access denied by user"
error_text err_timeout = "approval request timed out"
error_text err_not_found = "request not found"
error_text err_ignored = "request ignored by trust rule"
error_text err_denied_by_rule = "access denied by trust rule"
error_text err_context = "context canceled"
error_text err_no_sign_info = "GPGSignInfo must not be nil"

abbrev pub ask_of : Peer → List ItemInfo → String → RequestType → Dict String → Ask
ask_of peer items session type search_attributes = record {
  client = peer.client_name;
  items = items;
  session = session;
  type = type;
  search_attributes = search_attributes;
  sender_info = peer.sender_info;
}

abbrev pub outcome_error : Outcome → Option Error
outcome_error (returned flag e) = e
outcome_error (waiting id) = none

-- The rest of `RequireApproval`: its own error, or that of the wait.
unfoldable pub await_outcome : Outcome → World → Peer → World × Option Error
await_outcome (returned flag e) w peer = (w, e)
await_outcome (waiting id) w peer =
    let (w', fired, now) = peer.during w in
    let r = wake fired w'.manager id now in (record w' { manager = r.0 }, outcome_error r.1)

-- `RequireApproval` from its call to its return.
unfoldable pub authorize : World → Ask → Peer → World × Option Error
unfolding await_outcome
authorize w ask peer =
    let r = require_approval w.manager ask peer.id peer.now in
    await_outcome r.1 (record w { manager = r.0 }) peer

abbrev pub release_after : {A : Type 0} → String → ℕ → Served A → Served A
release_after sender id s = record s {
  world = record s.world { tracker = release s.world.tracker sender id };
}

abbrev pub in_context :
    {A : Type 0} → Option (Tracker × ℕ) → World → String → (World → Served A) → Served A
in_context none w sender body = record { world = w; calls = []; answer = panicked }
in_context (some (t, id)) w sender body = release_after sender id (body (record w { tracker = t }))

-- `ctx, release := tracker.contextForSender(…)` with `defer release()` round the rest of a handler.
unfoldable pub with_context : {A : Type 0} → World → Peer → (World → Served A) → Served A
with_context w peer body =
    in_context (context_for_sender w.tracker peer.sender peer.connected) w peer.sender body

-- `v.Value().(string)` and `v.Value().(map[string]string)` of a property that was read.
abbrev pub read_text : Reply Variant → String
read_text (answered (text_value s)) = s
read_text _ = ""

abbrev pub read_attributes : Reply Variant → Dict String
read_attributes (answered (attributes_value attrs)) = attrs
read_attributes _ = []

-- `obj.GetProperty(name)`.
abbrev pub property_call : String → String → Call
property_call path name = record {
  path = path;
  member = "org.freedesktop.DBus.Properties.Get";
  arguments = with_property name;
}

abbrev pub item_reads : String → List Call
item_reads path =
    property_call path (concat (item_interface ∷ ".Label" ∷ []))
    ∷ property_call path (concat (item_interface ∷ ".Attributes" ∷ []))
    ∷ []

-- `getItemInfo`, with the replies to the two reads.
unfoldable pub get_item_info : String → Reply Variant → Reply Variant → ItemInfo
get_item_info path label attributes = record {
  path = path;
  label = read_text label;
  attributes = read_attributes attributes;
}

-- `getCollectionInfo`, and one round of the loop of `getUnlockInfo`.
unfoldable pub get_collection_info : String → Reply Variant → ItemInfo
get_collection_info path label = record { path = path; label = read_text label; attributes = [] }

abbrev pub collection_reads : String → List Call
collection_reads path = property_call path (concat (collection_interface ∷ ".Label" ∷ [])) ∷ []
