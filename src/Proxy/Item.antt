-- ===== src/Proxy/Item.antt =====
-- internal/proxy/item.go: the calls on an item.
use secrets_dispatcher.Prelude.{ℕ, String, not, Option, none, some, List, [], ◌∷◌, if◌then◌else◌}
use secrets_dispatcher.Text.{concat}
use secrets_dispatcher.Dbus.{
  Secret, item_interface, err_access_denied, err_failed, err_object_not_found,
  err_session_not_found,
}
use secrets_dispatcher.Approval.Types.{
  Error, err_denied, err_timeout, err_not_found, err_ignored, err_denied_by_rule, err_context,
  err_no_sign_info, get_secret, delete_item, write_item,
}
use secrets_dispatcher.Dhcrypto.{Ciphers}
use secrets_dispatcher.Proxy.Upstream.{
  Variant, Call, Reply, failed, answered, no_arguments, with_in_session, with_secret,
}
use secrets_dispatcher.Proxy.Session.{
  get_local_session, for_client, for_upstream, Incoming, no_session, undecodable, forwarded,
}
use secrets_dispatcher.Proxy.World.{
  World, Peer, Served, Answer, replied, failed_with, refuse, after_calls, error_text, ask_of,
  authorize, with_context, item_reads, get_item_info,
}
use secrets_dispatcher.Proxy.ObjectPath.{is_item_path}

abbrev pub item_call : String → String → Call
item_call path method = record {
  path = path;
  member = concat (item_interface ∷ "." ∷ method ∷ []);
  arguments = no_arguments;
}

-- What `Delete` replies, here and for a collection.
abbrev pub passed_on : {A : Type 0} → Reply A → Answer A
passed_on (failed text) = failed_with (err_failed text)
passed_on (answered a) = replied a

abbrev pub delete_decided : World × Option Error → Call → Reply String → Served String
delete_decided (w, some e) call reply = refuse w (err_access_denied (error_text e))
delete_decided (w, none) call reply = record {
  world = w;
  calls = call ∷ [];
  answer = passed_on reply;
}

unfoldable pub item_delete :
    World → Peer → String → Reply Variant → Reply Variant → Reply String → Served String
unfolding authorize with_context is_item_path get_item_info
item_delete w peer path label attributes reply =
    if not (is_item_path path)
    then refuse w (err_object_not_found path)
    else after_calls (item_reads path) (
        with_context w peer (λ w'.
          delete_decided
            (authorize w' (ask_of peer (get_item_info path label attributes ∷ []) "" delete_item [])
              peer)
            (item_call path "Delete") reply))

abbrev pub secret_call : String → String → Call
secret_call path local = record (item_call path "GetSecret") { arguments = with_in_session local }

abbrev pub encoded : Option Secret → Answer Secret
encoded none = failed_with (err_failed "dhcrypto: generate IV")
encoded (some secret) = replied secret

abbrev pub secret_answer : Reply Secret → Ciphers → Option (List ℕ) → World → String → Answer Secret
secret_answer (failed text) c iv w session = failed_with (err_failed text)
secret_answer (answered secret) c iv w session = encoded (for_client c iv w.sessions session secret)

abbrev pub secret_mapped :
    Option String
    → Ciphers
    → Option (List ℕ)
    → World
    → String
    → String
    → Reply Secret
    → Served Secret
secret_mapped none c iv w path session reply = refuse w (err_session_not_found session)
secret_mapped (some local) c iv w path session reply = record {
  world = w;
  calls = secret_call path local ∷ [];
  answer = secret_answer reply c iv w session;
}

abbrev pub secret_decided :
    World × Option Error
    → Ciphers
    → Option (List ℕ)
    → String
    → String
    → Reply Secret
    → Served Secret
secret_decided (w, some e) c iv path session reply = refuse w (err_access_denied (error_text e))
secret_decided (w, none) c iv path session reply =
    secret_mapped (get_local_session w.sessions session) c iv w path session reply

unfoldable pub item_get_secret :
    Ciphers
    → Option (List ℕ)
    → World
    → Peer
    → String
    → String
    → Reply Variant
    → Reply Variant
    → Reply Secret
    → Served Secret
unfolding authorize with_context is_item_path get_item_info get_local_session for_client
item_get_secret c iv w peer path session label attributes reply =
    if not (is_item_path path)
    then refuse w (err_object_not_found path)
    else after_calls (item_reads path) (
        with_context w peer (λ w'.
          secret_decided
            (authorize w'
              (ask_of peer (get_item_info path label attributes ∷ []) session get_secret []) peer)
            c iv path session reply))

-- A write whose decision is an error: a request that a rule ignores seems to succeed.
abbrev pub write_refused : {A : Type 0} → Error → World → A → Served A
write_refused err_ignored w nothing_written = record {
  world = w;
  calls = [];
  answer = replied nothing_written;
}
write_refused err_denied w nothing_written = refuse w (err_access_denied (error_text err_denied))
write_refused err_timeout w nothing_written = refuse w (err_access_denied (error_text err_timeout))
write_refused err_not_found w nothing_written =
    refuse w (err_access_denied (error_text err_not_found))
write_refused err_denied_by_rule w nothing_written =
    refuse w (err_access_denied (error_text err_denied_by_rule))
write_refused err_context w nothing_written = refuse w (err_access_denied (error_text err_context))
write_refused err_no_sign_info w nothing_written =
    refuse w (err_access_denied (error_text err_no_sign_info))

abbrev pub store_call : String → Secret → Call
store_call path local = record (item_call path "SetSecret") { arguments = with_secret local }

abbrev pub set_decoded : Incoming → World → String → Secret → Reply (Unit {0}) → Served (Unit {0})
set_decoded no_session w path secret reply = refuse w (err_session_not_found secret.session)
set_decoded undecodable w path secret reply = refuse w (err_failed "dhcrypto: invalid secret")
set_decoded (forwarded local) w path secret reply = record {
  world = w;
  calls = store_call path local ∷ [];
  answer = passed_on reply;
}

abbrev pub set_decided :
    World × Option Error → Ciphers → String → Secret → Reply (Unit {0}) → Served (Unit {0})
set_decided (w, some e) c path secret reply = write_refused e w tt
set_decided (w, none) c path secret reply =
    set_decoded (for_upstream c w.sessions secret) w path secret reply

unfoldable pub item_set_secret :
    Ciphers
    → World
    → Peer
    → String
    → Secret
    → Reply Variant
    → Reply Variant
    → Reply (Unit {0})
    → Served (Unit {0})
unfolding authorize with_context is_item_path get_item_info for_upstream
item_set_secret c w peer path secret label attributes reply =
    if not (is_item_path path)
    then refuse w (err_object_not_found path)
    else after_calls (item_reads path) (
        with_context w peer (λ w'.
          set_decided
            (authorize w'
              (ask_of peer (get_item_info path label attributes ∷ []) secret.session write_item [])
              peer)
            c path secret reply))
