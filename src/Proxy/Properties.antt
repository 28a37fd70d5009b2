-- ===== src/Proxy/Properties.antt =====
-- internal/proxy: the property calls on the service, on collections and on items, and the prompts. None
-- of them asks for an approval.
use secrets_dispatcher.Prelude.{
  String, Bool, not, ◌&&◌, ◌||◌, Option, none, some, [], ◌∷◌, ◌==◌, if◌then◌else◌,
}
use secrets_dispatcher.Prelude.Dict.{Dict}
use secrets_dispatcher.Text.{concat}
use secrets_dispatcher.Dbus.{
  DbusError, new_dbus_error, err_failed, err_object_not_found, service_interface, service_path,
}
use secrets_dispatcher.Proxy.Upstream.{
  Variant, Call, Reply, Arguments, with_interface, with_property_write, GoError, dbus_error,
  other_error,
}
use secrets_dispatcher.Proxy.World.{World, Served, replied, failed_with, refuse, property_call}
use secrets_dispatcher.Proxy.Item.{passed_on}
use secrets_dispatcher.Proxy.ObjectPath.{is_collection_path, is_item_path, is_prompt_path}

-- A call that is forwarded whatever the caller.
abbrev pub forward_call : {A : Type 0} → World → Call → Reply A → Served A
forward_call w call reply = record { world = w; calls = call ∷ []; answer = passed_on reply }

abbrev pub read_call : String → String → String → Call
read_call path iface name = property_call path (concat (iface ∷ "." ∷ name ∷ []))

abbrev pub read_all_call : String → String → Call
read_all_call path iface = record {
  path = path;
  member = "org.freedesktop.DBus.Properties.GetAll";
  arguments = with_interface iface;
}

abbrev pub write_call : String → String → String → Variant → Call
write_call path iface name value = record {
  path = path;
  member = "org.freedesktop.DBus.Properties.Set";
  arguments = with_property_write iface name value;
}

abbrev pub unknown_interface : String → DbusError
unknown_interface iface = new_dbus_error "org.freedesktop.DBus.Error.UnknownInterface" iface

unfoldable pub service_get : World → String → String → Reply Variant → Served Variant
service_get w iface name reply =
    if iface == service_interface
    then forward_call w (read_call service_path iface name) reply
    else refuse w (unknown_interface iface)

unfoldable pub service_get_all : World → String → Reply (Dict Variant) → Served (Dict Variant)
service_get_all w iface reply =
    if iface == service_interface
    then forward_call w (read_all_call service_path iface) reply
    else refuse w (unknown_interface iface)

unfoldable pub service_set :
    World → String → String → Variant → Reply (Unit {0}) → Served (Unit {0})
service_set w iface name value reply =
    if iface == service_interface
    then forward_call w (write_call service_path iface name value) reply
    else refuse w (unknown_interface iface)

-- `SubtreePropertiesHandler`, which serves collections and items.
abbrev pub has_properties : String → Bool
has_properties path = is_collection_path path || is_item_path path

unfoldable pub subtree_get : World → String → String → String → Reply Variant → Served Variant
unfolding is_collection_path is_item_path
subtree_get w path iface name reply =
    if not (is_collection_path path) && not (is_item_path path)
    then refuse w (err_object_not_found path)
    else forward_call w (read_call path iface name) reply

unfoldable pub subtree_get_all :
    World → String → String → Reply (Dict Variant) → Served (Dict Variant)
unfolding is_collection_path is_item_path
subtree_get_all w path iface reply =
    if not (is_collection_path path) && not (is_item_path path)
    then refuse w (err_object_not_found path)
    else forward_call w (read_all_call path iface) reply

unfoldable pub subtree_set :
    World → String → String → String → Variant → Reply (Unit {0}) → Served (Unit {0})
unfolding is_collection_path is_item_path
subtree_set w path iface name value reply =
    if not (is_collection_path path) && not (is_item_path path)
    then refuse w (err_object_not_found path)
    else forward_call w (write_call path iface name value) reply

-- The methods of the same names of `CollectionHandler` and `ItemHandler`, with the test of the path.
abbrev guarded : {A : Type 0} → Bool → World → String → Call → Reply A → Served A
guarded known w path call reply =
    if not known then refuse w (err_object_not_found path) else forward_call w call reply

unfoldable pub collection_get : World → String → String → String → Reply Variant → Served Variant
unfolding is_collection_path
collection_get w path iface name reply =
    guarded (is_collection_path path) w path (read_call path iface name) reply

unfoldable pub collection_get_all :
    World → String → String → Reply (Dict Variant) → Served (Dict Variant)
unfolding is_collection_path
collection_get_all w path iface reply =
    guarded (is_collection_path path) w path (read_all_call path iface) reply

unfoldable pub collection_set :
    World → String → String → String → Variant → Reply (Unit {0}) → Served (Unit {0})
unfolding is_collection_path
collection_set w path iface name value reply =
    guarded (is_collection_path path) w path (write_call path iface name value) reply

unfoldable pub item_get : World → String → String → String → Reply Variant → Served Variant
unfolding is_item_path
item_get w path iface name reply =
    guarded (is_item_path path) w path (read_call path iface name) reply

unfoldable pub item_get_all : World → String → String → Reply (Dict Variant) → Served (Dict Variant)
unfolding is_item_path
item_get_all w path iface reply =
    guarded (is_item_path path) w path (read_all_call path iface) reply

unfoldable pub item_set :
    World → String → String → String → Variant → Reply (Unit {0}) → Served (Unit {0})
unfolding is_item_path
item_set w path iface name value reply =
    guarded (is_item_path path) w path (write_call path iface name value) reply

-- A message as `callForwarder` reads it.
pub record Message : Type 0 where
  pub path : String
  pub interface : String
  pub member : String
  pub arguments : Arguments

-- `forwardVoid`: an error of the upstream is passed on as it is, any other is wrapped.
unfoldable pub forward_void : World → Message → Option GoError → Served (Unit {0})
forward_void w msg reply = record {
  world = w;
  calls =
      record {
        path = msg.path;
        member = concat (msg.interface ∷ "." ∷ msg.member ∷ []);
        arguments = msg.arguments;
      }
      ∷ [];
  answer = elim reply [
    | none ↦ replied tt
    | some e ↦ elim e [ dbus_error d ↦ failed_with d | other_error t ↦ failed_with (err_failed t) ]
  ];
}

-- `Prompt` and `Dismiss`, which differ in the member that the message names.
unfoldable pub prompt_call : World → Message → Option GoError → Served (Unit {0})
unfolding forward_void is_prompt_path
prompt_call w msg reply =
    if not (is_prompt_path msg.path)
    then refuse w (err_object_not_found msg.path)
    else forward_void w msg reply
