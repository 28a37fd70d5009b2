-- ===== src/Dbus.antt =====
-- internal/dbus/types.go: the constants, the secrets and the errors of the Secret Service, and the
-- collection that an item path names.
use secrets_dispatcher.Prelude.{ℕ, String, ◌≡◌, refl, none, some, List, [], ◌∷◌}
use secrets_dispatcher.Text.{cut_prefix, before, concat}

abbrev pub service_interface : String
service_interface = "org.freedesktop.Secret.Service"

abbrev pub collection_interface : String
collection_interface = "org.freedesktop.Secret.Collection"

abbrev pub item_interface : String
item_interface = "org.freedesktop.Secret.Item"

abbrev pub session_interface : String
session_interface = "org.freedesktop.Secret.Session"

abbrev pub service_path : String
service_path = "/org/freedesktop/secrets"

abbrev pub algorithm_plain : String
algorithm_plain = "plain"

abbrev pub algorithm_dh : String
algorithm_dh = "dh-ietf1024-sha256-aes128-cbc-pkcs7"

pub record Secret : Type 0 where
  pub session : String
  pub parameters : List ℕ
  pub value : List ℕ
  pub content_type : String

-- `dbus.Error`, with the message that is its body.
pub record DbusError : Type 0 where
  pub name : String
  pub message : String

abbrev pub new_dbus_error : String → String → DbusError
new_dbus_error name message = record { name = name; message = message }

abbrev pub err_session_not_found : String → DbusError
err_session_not_found path =
    new_dbus_error "org.freedesktop.Secret.Error.NoSession"
      (concat ("Session " ∷ path ∷ " does not exist" ∷ []))

abbrev pub err_object_not_found : String → DbusError
err_object_not_found path =
    new_dbus_error "org.freedesktop.Secret.Error.NoSuchObject"
      (concat ("Object " ∷ path ∷ " does not exist" ∷ []))

abbrev pub err_unsupported_algorithm : String → DbusError
err_unsupported_algorithm algorithm =
    new_dbus_error "org.freedesktop.DBus.Error.NotSupported"
      (concat ("Algorithm " ∷ algorithm ∷ " is not supported" ∷ []))

abbrev pub err_access_denied : String → DbusError
err_access_denied message = new_dbus_error "org.freedesktop.DBus.Error.AccessDenied" message

-- Of the text of the error that it wraps.
abbrev pub err_failed : String → DbusError
err_failed text = new_dbus_error "org.freedesktop.DBus.Error.Failed" text

abbrev pub collection_prefix : String
collection_prefix = "/org/freedesktop/secrets/collection/"

abbrev pub aliases_prefix : String
aliases_prefix = "/org/freedesktop/secrets/aliases/"

-- The loop over the two prefixes, unrolled; `strings.HasPrefix` and the slice are `cut_prefix`.
unfoldable pub extract_collection : String → String
unfolding cut_prefix before
extract_collection item_path = elim (cut_prefix collection_prefix item_path) [
  | some rest ↦ before b'/' rest
  | none ↦ elim (cut_prefix aliases_prefix item_path) [ some rest ↦ before b'/' rest | none ↦ "" ]
]

extracts :
    (extract_collection "/org/freedesktop/secrets/collection/login/12" ≡ "login")
    × (extract_collection "/org/freedesktop/secrets/aliases/default" ≡ "default")
    × (extract_collection "/org/freedesktop/secrets/session/s1" ≡ "")
unfolding extract_collection
extracts = (refl, refl, refl)
