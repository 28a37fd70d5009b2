-- ===== src/Proxy/Collection.antt =====
-- internal/proxy/collection.go: the calls on a collection.
use secrets_dispatcher.Prelude.{
  ℕ, String, Bool, not, Option, none, some, List, [], ◌∷◌, ◌==◌, if◌then◌else◌,
}
use secrets_dispatcher.Prelude.Dict.{Dict, get}
use secrets_dispatcher.Text.{concat}
use secrets_dispatcher.Dbus.{
  Secret, collection_interface, item_interface, err_access_denied, err_failed, err_object_not_found,
  err_session_not_found,
}
use secrets_dispatcher.Approval.Types.{
  ItemInfo, Error, TrustRule, delete_item, write_item, search_items,
}
use secrets_dispatcher.Approval.Match.{check_trust_rules}
use secrets_dispatcher.Approval.Manager.{Manager, should_ignore}
use secrets_dispatcher.Approval.Manager.Cache.{cache_item_for_sender}
use secrets_dispatcher.Approval.Manager.Require.{
  Ask, record_denied, record_passthrough, record_ignored,
}
use secrets_dispatcher.Dhcrypto.{Ciphers}
use secrets_dispatcher.Proxy.Upstream.{
  Variant, Call, Reply, failed, answered, no_arguments, with_attributes, with_item,
}
use secrets_dispatcher.Proxy.Session.{for_upstream, Incoming, no_session, undecodable, forwarded}
use secrets_dispatcher.Proxy.World.{
  World, Peer, Served, replied, failed_with, refuse, after_calls, ask_of, authorize, with_context,
  collection_reads, get_collection_info, read_text, read_attributes,
}
use secrets_dispatcher.Proxy.Item.{delete_decided, passed_on, write_refused}
use secrets_dispatcher.Proxy.ObjectPath.{is_collection_path}
use Prim.Native.String.{compare}
use Prim.Native.Nat.{Ordering}

abbrev pub collection_call : String → String → Call
collection_call path method = record {
  path = path;
  member = concat (collection_interface ∷ "." ∷ method ∷ []);
  arguments = no_arguments;
}

unfoldable pub collection_delete :
    World → Peer → String → Reply Variant → Reply String → Served String
unfolding authorize with_context is_collection_path get_collection_info
collection_delete w peer path label reply =
    if not (is_collection_path path)
    then refuse w (err_object_not_found path)
    else after_calls (collection_reads path) (
        with_context w peer (λ w'.
          delete_decided
            (authorize w' (ask_of peer (get_collection_info path label ∷ []) "" delete_item [])
              peer)
            (collection_call path "Delete") reply))

-- `sort.Strings(keys)`, of the entries: the keys of a map differ.
unfoldable pub insert_sorted : String → String → Dict String → Dict String
insert_sorted k v [] = (k, v) ∷ []
insert_sorted k v ((j, w) ∷ m) = elim (compare k j) [
  | Ordering.gt ↦ (j, w) ∷ insert_sorted k v m
  | _ ↦ (k, v) ∷ (j, w) ∷ m
]

unfoldable pub sort_keys : Dict String → Dict String
unfolding insert_sorted
sort_keys [] = []
sort_keys ((k, v) ∷ m) = insert_sorted k v (sort_keys m)

unfoldable pub label_from : String → Dict String → String
label_from label [] = label
label_from label ((k, v) ∷ m) =
    label_from
      (concat ((if label == "" then "" else concat (label ∷ ", " ∷ [])) ∷ k ∷ "=" ∷ v ∷ [])) m

unfoldable pub search_attributes_to_item_info : Dict String → List ItemInfo
unfolding sort_keys label_from
search_attributes_to_item_info attributes =
    record { path = ""; label = label_from "" (sort_keys attributes); attributes = [] } ∷ []

abbrev denied_by : TrustRule → String
denied_by rule = concat ("denied by trust rule: " ∷ rule.name ∷ [])

-- `CheckTrustRules`, and its result if the action is "deny".
abbrev pub denying : Option TrustRule → Option TrustRule
denying none = none
denying (some rule) = if rule.action == "deny" then some rule else none

abbrev pub denying_rule : Manager → Ask → Option TrustRule
denying_rule m a =
    denying (check_trust_rules m.trust_rules a.sender_info a.items a.type a.search_attributes)

-- A search or an unlocking: denied by a rule, or recorded and forwarded.
abbrev pub passed_through :
    {A : Type 0} → Option TrustRule → World → Peer → Ask → Call → Reply A → Served A
passed_through (some rule) w peer ask call reply =
    refuse (record w { manager = record_denied w.manager ask peer.id peer.now })
      (err_access_denied (denied_by rule))
passed_through none w peer ask call reply = record {
  world = record w { manager = record_passthrough w.manager ask peer.id peer.now };
  calls = call ∷ [];
  answer = passed_on reply;
}

unfoldable pub collection_search_items :
    World → Peer → String → Dict String → Reply (List String) → Served (List String)
unfolding is_collection_path search_attributes_to_item_info
collection_search_items w peer path attributes reply =
    let ask = ask_of peer (search_attributes_to_item_info attributes) "" search_items attributes in
    if not (is_collection_path path)
    then refuse w (err_object_not_found path)
    else passed_through (denying_rule w.manager ask) w peer ask
        (record (collection_call path "SearchItems") { arguments = with_attributes attributes })
        reply

abbrev pub property_text : Option Variant → String
property_text none = ""
property_text (some v) = read_text (answered v)

abbrev pub property_attributes : Option Variant → Dict String
property_attributes none = []
property_attributes (some v) = read_attributes (answered v)

unfoldable pub extract_item_info : String → Dict Variant → ItemInfo
extract_item_info path properties = record {
  path = path;
  label = property_text (get (concat (item_interface ∷ ".Label" ∷ [])) properties);
  attributes = property_attributes (get (concat (item_interface ∷ ".Attributes" ∷ [])) properties);
}

-- Nothing was written: the paths of no item and of no prompt.
abbrev pub no_item : String × String
no_item = ("/", "/")

abbrev pub create_call : String → Dict Variant → Secret → Bool → Call
create_call path properties local replace = record (collection_call path "CreateItem") {
  arguments = with_item properties local replace;
}

-- The path of the new item is cached for its sender.
abbrev pub item_created :
    Reply (String × String) → World → Peer → Call → ℕ → Served (String × String)
item_created (failed text) w peer call created_at = record {
  world = w;
  calls = call ∷ [];
  answer = failed_with (err_failed text);
}
item_created (answered (item, prompt)) w peer call created_at = record {
  world = record w { manager = cache_item_for_sender w.manager peer.sender item created_at };
  calls = call ∷ [];
  answer = replied (item, prompt);
}

abbrev pub create_decoded :
    Incoming
    → World
    → Peer
    → String
    → Dict Variant
    → Secret
    → Bool
    → Reply (String × String)
    → ℕ
    → Served (String × String)
create_decoded no_session w peer path properties secret replace reply created_at =
    refuse w (err_session_not_found secret.session)
create_decoded undecodable w peer path properties secret replace reply created_at =
    refuse w (err_failed "dhcrypto: invalid secret")
create_decoded (forwarded local) w peer path properties secret replace reply created_at =
    item_created reply w peer (create_call path properties local replace) created_at

abbrev pub create_decided :
    World × Option Error
    → Ciphers
    → Peer
    → String
    → Dict Variant
    → Secret
    → Bool
    → Reply (String × String)
    → ℕ
    → Served (String × String)
create_decided (w, some e) c peer path properties secret replace reply created_at =
    write_refused e w no_item
create_decided (w, none) c peer path properties secret replace reply created_at =
    create_decoded (for_upstream c w.sessions secret) w peer path properties secret replace reply
      created_at

-- `created_at` is the time at which the item is cached.
unfoldable pub create_item :
    Ciphers
    → World
    → Peer
    → String
    → Dict Variant
    → Secret
    → Bool
    → Reply (String × String)
    → ℕ
    → Served (String × String)
unfolding authorize with_context is_collection_path extract_item_info for_upstream should_ignore
create_item c w peer path properties secret replace reply created_at =
    let items = extract_item_info path properties ∷ [] in
    let ask = ask_of peer items secret.session write_item [] in
    if not (is_collection_path path)
    then refuse w (err_object_not_found path)
    else with_context w peer (λ w'.
      if should_ignore w'.manager items write_item
      then record {
        world = record w' { manager = record_ignored w'.manager ask peer.id peer.now };
        calls = [];
        answer = replied no_item;
      }
      else create_decided (authorize w' ask peer) c peer path properties secret replace reply
          created_at)
