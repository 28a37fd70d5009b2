-- ===== src/Proxy/Upstream.antt =====
-- The values that the handlers of internal/proxy exchange with the D-Bus library, and the calls of the
-- upstream Secret Service.
use secrets_dispatcher.Prelude.{String, ℕ, List, Bool}
use secrets_dispatcher.Prelude.Dict.{Dict}
use secrets_dispatcher.Dbus.{Secret, DbusError}

-- A variant, by what the program asks of its value.
pub data Variant : Type 0 where
  text_value : String → Variant
  bytes_value : List ℕ → Variant
  attributes_value : Dict String → Variant
  other_value : Variant

-- The arguments of a call of the upstream service.
pub data Arguments : Type 0 where
  no_arguments : Arguments
  with_property : String → Arguments
  with_property_write : String → String → Variant → Arguments
  with_interface : String → Arguments
  with_algorithm : String → Variant → Arguments
  with_attributes : Dict String → Arguments
  with_objects : List String → Arguments
  with_objects_in : List String → String → Arguments
  with_in_session : String → Arguments
  with_secret : Secret → Arguments
  with_item : Dict Variant → Secret → Bool → Arguments
  with_alias : String → Arguments
  with_alias_of : String → String → Arguments
  with_collection : Dict Variant → String → Arguments

pub record Call : Type 0 where
  pub path : String
  pub member : String
  pub arguments : Arguments

-- The reply: `call.Err`, or the error of `call.Store`, by its text, or what `Store` reads.
pub data Reply (A : Type 0) : Type 0 where
  failed : String → Reply A
  answered : A → Reply A

-- An `error`: a `*dbus.Error`, or any other by its text.
pub data GoError : Type 0 where
  dbus_error : DbusError → GoError
  other_error : String → GoError

pub data Result (A : Type 0) : Type 0 where
  ok : A → Result A
  err : GoError → Result A
