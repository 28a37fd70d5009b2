-- ===== src/Proxy/Session.antt =====
-- internal/proxy/session.go: the sessions of the clients and the upstream sessions behind them. A call of
-- the upstream service is an entry of a list, and its reply an input.
pub mod Paths
pub mod Transcode
use secrets_dispatcher.Prelude.{
  ℕ, ◌+◌, ◌%◌, String, Bool, true, false, Option, none, some, List, [], ◌∷◌, ◌==◌, if◌then◌else◌,
}
use secrets_dispatcher.Prelude.Dict.{Dict, get, insert, erase}
use secrets_dispatcher.Text.{concat}
use secrets_dispatcher.Text.Decimal.{decimal}
use secrets_dispatcher.Dbus.{
  Secret, DbusError, new_dbus_error, err_session_not_found, err_unsupported_algorithm,
  algorithm_plain, algorithm_dh, service_path, service_interface, session_interface,
}
use secrets_dispatcher.Proxy.Upstream.{
  Variant, text_value, bytes_value, attributes_value, other_value, with_algorithm, no_arguments,
  Call, Reply, failed, answered, GoError, dbus_error, other_error, Result, ok, err,
}
use secrets_dispatcher.Dhcrypto.{
  Ciphers, Session, KeyPair, generate_key_pair, derive, encrypt, decrypt,
}

pub record SessionEntry : Type 0 where
  pub local : String
  pub cipher : Option Session

pub record SessionManager : Type 0 where
  pub sessions : Dict SessionEntry
  pub counter : ℕ

abbrev pub new_session_manager : SessionManager
new_session_manager = record { sessions = []; counter = 0 }

-- What the switch over the algorithm gives: the output for the client, and the cipher. `random` is for
-- the key pair.
unfoldable pub negotiate : Ciphers → Option ℕ → String → Variant → Result (Variant × Option Session)
negotiate c random algorithm input =
    if algorithm == algorithm_plain
    then ok (text_value "", none)
    else if algorithm == algorithm_dh
    then (elim input [
      | bytes_value client_pub ↦ elim (generate_key_pair random) [
        | none ↦ err (other_error "generate DH private key")
        | some kp ↦ elim (derive c kp client_pub) [
          | none ↦ err (
              dbus_error (
                new_dbus_error "org.freedesktop.DBus.Error.NotSupported"
                  "dhcrypto: peer public key out of range"))
          | some session ↦ ok (bytes_value kp.public, some session)
        ]
      ]
      | _ ↦ err (
          dbus_error (
            new_dbus_error "org.freedesktop.DBus.Error.InvalidSignature"
              "dh-ietf1024-sha256-aes128-cbc-pkcs7 OpenSession requires a byte-array public key"))
    ])
    else err (dbus_error (err_unsupported_algorithm algorithm))

abbrev pub open_session_call : Call
open_session_call = record {
  path = service_path;
  member = concat (service_interface ∷ ".OpenSession" ∷ []);
  arguments = with_algorithm algorithm_plain (text_value "");
}

abbrev pub session_path : ℕ → String
session_path id = concat ("/org/freedesktop/secrets/session/" ∷ decimal id ∷ [])

abbrev pub u64 : ℕ
u64 = 18446744073709551616

-- `m.counter.Add(1)`, and the entry under the path made from it.
unfoldable pub add_session : SessionManager → String → Option Session → SessionManager × String
add_session m local cipher =
    let id = (m.counter + 1) % u64 in
    (
      record {
        sessions = insert (session_path id) (record { local = local; cipher = cipher }) m.sessions;
        counter = id;
      },
      session_path id,
    )

-- From the upstream's reply on: its output and the path of the local session.
abbrev pub opened :
    Reply (Variant × String)
    → SessionManager
    → Variant
    → Option Session
    → SessionManager × Result (Variant × String)
opened (failed text) m output cipher = (m, err (other_error text))
opened (answered (_, local)) m output cipher =
    let r = add_session m local cipher in (r.0, ok (output, r.1))

-- With what was negotiated: the manager, the calls of the upstream and the result.
abbrev pub create_negotiated :
    Result (Variant × Option Session)
    → Reply (Variant × String)
    → SessionManager
    → SessionManager × List Call × Result (Variant × String)
create_negotiated (err e) reply m = (m, [], err e)
create_negotiated (ok (output, cipher)) reply m =
    let r = opened reply m output cipher in (r.0, open_session_call ∷ [], r.1)

unfoldable pub create_session :
    Ciphers
    → Option ℕ
    → Reply (Variant × String)
    → SessionManager
    → String
    → Variant
    → SessionManager × List Call × Result (Variant × String)
unfolding negotiate add_session
create_session c random reply m algorithm input =
    create_negotiated (negotiate c random algorithm input) reply m

unfoldable pub get_local_session : SessionManager → String → Option String
get_local_session m remote = elim (get remote m.sessions) [
  | none ↦ none
  | some entry ↦ some entry.local
]

-- The cipher of the entry, and none for a path without one.
abbrev pub cipher_at : Option SessionEntry → Option Session
cipher_at none = none
cipher_at (some entry) = entry.cipher

-- With the cipher and the IV that the random source gives: none is its error.
abbrev pub encode_with :
    Option Session → Ciphers → Option (List ℕ) → String → Secret → Option Secret
encode_with none c iv remote secret = some (record secret { session = remote })
encode_with (some s) c iv remote secret = elim (encrypt c s iv secret.value) [
  | none ↦ none
  | some sealed ↦ some (record secret { session = remote; value = sealed.0; parameters = sealed.1 })
]

unfoldable pub for_client :
    Ciphers → Option (List ℕ) → SessionManager → String → Secret → Option Secret
for_client c iv m remote secret = encode_with (cipher_at (get remote m.sessions)) c iv remote secret

-- A session that is not known, a value that does not decrypt, or the secret to forward.
pub data Incoming : Type 0 where
  no_session : Incoming
  undecodable : Incoming
  forwarded : Secret → Incoming

abbrev pub decode_with : Option Session → Ciphers → String → Secret → Incoming
decode_with none c local secret = forwarded (record secret { session = local })
decode_with (some s) c local secret = elim (decrypt c s secret.parameters secret.value) [
  | none ↦ undecodable
  | some plaintext ↦
      forwarded (record secret { session = local; parameters = []; value = plaintext })
]

abbrev pub decode_entry : Option SessionEntry → Ciphers → Secret → Incoming
decode_entry none c secret = no_session
decode_entry (some entry) c secret = decode_with entry.cipher c entry.local secret

unfoldable pub for_upstream : Ciphers → SessionManager → Secret → Incoming
for_upstream c m secret = decode_entry (get secret.session m.sessions) c secret

abbrev pub close_call : SessionEntry → Call
close_call entry = record {
  path = entry.local;
  member = concat (session_interface ∷ ".Close" ∷ []);
  arguments = no_arguments;
}

abbrev pub close_entry :
    Option SessionEntry
    → Reply (Unit {0})
    → SessionManager
    → String
    → SessionManager × List Call × Option GoError
close_entry none reply m remote = (m, [], some (dbus_error (err_session_not_found remote)))
close_entry (some entry) reply m remote = (
  record m { sessions = erase remote m.sessions },
  close_call entry ∷ [],
  elim reply [ failed text ↦ some (other_error text) | answered _ ↦ none ],
)

-- The entry goes before the upstream is asked, whatever it replies.
unfoldable pub close_session :
    Reply (Unit {0}) → SessionManager → String → SessionManager × List Call × Option GoError
close_session reply m remote = close_entry (get remote m.sessions) reply m remote

unfoldable pub close_calls : Dict SessionEntry → List Call
close_calls [] = []
close_calls ((path, entry) ∷ entries) = close_call entry ∷ close_calls entries

unfoldable pub close_all : SessionManager → SessionManager × List Call
unfolding close_calls
close_all m = (record m { sessions = [] }, close_calls m.sessions)
