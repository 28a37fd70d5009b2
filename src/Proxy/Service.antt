-- ===== src/Proxy/Service.antt =====
-- internal/proxy/service.go: the calls on the service object. Its properties are in Properties.antt.
use secrets_dispatcher.Prelude.{ℕ, String, Option, none, some, List, [], ◌∷◌, ◌++◌}
use secrets_dispatcher.Prelude.Dict.{Dict}
use secrets_dispatcher.Text.{concat}
use secrets_dispatcher.Dbus.{
  Secret, service_interface, service_path, err_access_denied, err_failed, err_session_not_found,
}
use secrets_dispatcher.Approval.Types.{ItemInfo, Error, get_secret, search_items, unlock}
use secrets_dispatcher.Dhcrypto.{Ciphers}
use secrets_dispatcher.Proxy.Upstream.{
  Variant, Call, Reply, failed, answered, no_arguments, with_attributes, with_objects,
  with_objects_in, with_alias, with_alias_of, with_collection, Result, ok, err, dbus_error,
  other_error,
}
use secrets_dispatcher.Proxy.Session.{SessionManager, create_session, get_local_session, for_client}
use secrets_dispatcher.Proxy.World.{
  World, Peer, Served, Answer, replied, failed_with, refuse, after_calls, error_text, ask_of,
  authorize, with_context, item_reads, get_item_info, collection_reads, get_collection_info,
}
use secrets_dispatcher.Proxy.Collection.{
  search_attributes_to_item_info, denying_rule, passed_through,
}
use secrets_dispatcher.Proxy.Properties.{forward_call}

abbrev pub service_call : String → Call
service_call method = record {
  path = service_path;
  member = concat (service_interface ∷ "." ∷ method ∷ []);
  arguments = no_arguments;
}

-- A `*dbus.Error` is passed on, any other error is wrapped.
abbrev pub session_answer : Result (Variant × String) → Answer (Variant × String)
session_answer (ok r) = replied r
session_answer (err (dbus_error e)) = failed_with e
session_answer (err (other_error text)) = failed_with (err_failed text)

unfoldable pub open_session :
    Ciphers
    → Option ℕ
    → World
    → String
    → Variant
    → Reply (Variant × String)
    → Served (Variant × String)
unfolding create_session
open_session c random w algorithm input reply =
    let (sessions, calls, r) = create_session c random reply w.sessions algorithm input in
    record { world = record w { sessions = sessions }; calls = calls; answer = session_answer r }

unfoldable pub search_all :
    World
    → Peer
    → Dict String
    → Reply (List String × List String)
    → Served (List String × List String)
unfolding search_attributes_to_item_info
search_all w peer attributes reply =
    let ask = ask_of peer (search_attributes_to_item_info attributes) "" search_items attributes in
    passed_through (denying_rule w.manager ask) w peer ask
      (record (service_call "SearchItems") { arguments = with_attributes attributes }) reply

-- The items' information, with the replies to the reads of a path.
unfoldable pub item_infos :
    (String → Reply Variant) → (String → Reply Variant) → List String → List ItemInfo
unfolding get_item_info
item_infos label attributes [] = []
item_infos label attributes (path ∷ paths) =
    get_item_info path (label path) (attributes path) ∷ item_infos label attributes paths

unfoldable pub all_item_reads : List String → List Call
all_item_reads [] = []
all_item_reads (path ∷ paths) = item_reads path ++ all_item_reads paths

-- The loop over the secrets, which ends at the first that does not encrypt. `iv` is what the random
-- source gives for each.
unfoldable pub encode_all :
    Ciphers
    → (String → Option (List ℕ))
    → SessionManager
    → String
    → Dict Secret
    → Option (Dict Secret)
unfolding for_client
encode_all c iv m session [] = some []
encode_all c iv m session ((path, secret) ∷ secrets) =
    elim (for_client c (iv path) m session secret) [
      | none ↦ none
      | some encoded ↦ elim (encode_all c iv m session secrets) [
        | none ↦ none
        | some rest ↦ some ((path, encoded) ∷ rest)
      ]
    ]

abbrev pub encoded_secrets : Option (Dict Secret) → Answer (Dict Secret)
encoded_secrets none = failed_with (err_failed "dhcrypto: generate IV")
encoded_secrets (some secrets) = replied secrets

abbrev pub secrets_answer :
    Reply (Dict Secret)
    → Ciphers
    → (String → Option (List ℕ))
    → World
    → String
    → Answer (Dict Secret)
secrets_answer (failed text) c iv w session = failed_with (err_failed text)
secrets_answer (answered secrets) c iv w session =
    encoded_secrets (encode_all c iv w.sessions session secrets)

abbrev pub secrets_call : List String → String → Call
secrets_call items local = record (service_call "GetSecrets") {
  arguments = with_objects_in items local;
}

abbrev pub secrets_mapped :
    Option String
    → Ciphers
    → (String → Option (List ℕ))
    → World
    → List String
    → String
    → Reply (Dict Secret)
    → Served (Dict Secret)
secrets_mapped none c iv w items session reply = refuse w (err_session_not_found session)
secrets_mapped (some local) c iv w items session reply = record {
  world = w;
  calls = secrets_call items local ∷ [];
  answer = secrets_answer reply c iv w session;
}

abbrev pub secrets_decided :
    World × Option Error
    → Ciphers
    → (String → Option (List ℕ))
    → List String
    → String
    → Reply (Dict Secret)
    → Served (Dict Secret)
secrets_decided (w, some e) c iv items session reply = refuse w (err_access_denied (error_text e))
secrets_decided (w, none) c iv items session reply =
    secrets_mapped (get_local_session w.sessions session) c iv w items session reply

unfoldable pub get_secrets :
    Ciphers
    → (String → Option (List ℕ))
    → World
    → Peer
    → List String
    → String
    → (String → Reply Variant)
    → (String → Reply Variant)
    → Reply (Dict Secret)
    → Served (Dict Secret)
unfolding authorize with_context item_infos all_item_reads get_local_session encode_all
get_secrets c iv w peer items session label attributes reply = after_calls (all_item_reads items) (
    with_context w peer (λ w'.
      secrets_decided
        (authorize w' (ask_of peer (item_infos label attributes items) session get_secret []) peer)
        c iv items session reply))

unfoldable pub unlock_infos : (String → Reply Variant) → List String → List ItemInfo
unfolding get_collection_info
unlock_infos label [] = []
unlock_infos label (path ∷ paths) = get_collection_info path (label path) ∷ unlock_infos label paths

unfoldable pub all_collection_reads : List String → List Call
all_collection_reads [] = []
all_collection_reads (path ∷ paths) = collection_reads path ++ all_collection_reads paths

unfoldable pub unlock_objects :
    World
    → Peer
    → List String
    → (String → Reply Variant)
    → Reply (List String × String)
    → Served (List String × String)
unfolding unlock_infos all_collection_reads
unlock_objects w peer objects label reply =
    let ask = ask_of peer (unlock_infos label objects) "" unlock [] in
    after_calls (all_collection_reads objects) (
      passed_through (denying_rule w.manager ask) w peer ask
        (record (service_call "Unlock") { arguments = with_objects objects }) reply)

unfoldable pub lock_objects :
    World → List String → Reply (List String × String) → Served (List String × String)
lock_objects w objects reply =
    forward_call w (record (service_call "Lock") { arguments = with_objects objects }) reply

unfoldable pub read_alias : World → String → Reply String → Served String
read_alias w name reply =
    forward_call w (record (service_call "ReadAlias") { arguments = with_alias name }) reply

unfoldable pub set_alias : World → String → String → Reply (Unit {0}) → Served (Unit {0})
set_alias w name collection reply =
    forward_call w (record (service_call "SetAlias") { arguments = with_alias_of name collection })
      reply

unfoldable pub create_collection :
    World → Dict Variant → String → Reply (String × String) → Served (String × String)
create_collection w properties alias reply =
    forward_call w
      (record (service_call "CreateCollection") { arguments = with_collection properties alias })
      reply
