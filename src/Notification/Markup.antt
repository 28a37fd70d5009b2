-- ===== src/Notification/Markup.antt =====
-- internal/notification/desktop.go: what a notification shows of a request. The body is markup, and
-- every text that a client controls is escaped before it is written into it.
pub mod Escaped
pub mod Tags
use secrets_dispatcher.Prelude.{
  ℕ, ◌+◌, ◌*◌, ◌/◌, ◌%◌, String, Bool, true, false, ◌&&◌, Option, none, some, List, [], ◌∷◌, ◌==◌,
  eqb, ltb, length, if◌then◌else◌,
}
use secrets_dispatcher.Prelude.Dict.{Dict, get}
use secrets_dispatcher.Text.{before, concat, join_texts}
use secrets_dispatcher.Text.Decimal.{decimal}
use secrets_dispatcher.Approval.Types.{
  Request, RequestType, get_secret, search_items, delete_item, write_item, ssh_sign, unlock,
  gpg_sign, ProcessInfo, ItemInfo, GpgSignInfo,
}
use Prim.Native.Char.{Char, code}

-- What the replacer writes for one character.
unfoldable pub escape_char : Char → String
escape_char c =
    if eqb (code c) b'&'
    then "&amp;"
    else if eqb (code c) b'<'
    then "&lt;"
    else if eqb (code c) b'>'
    then "&gt;"
    else String.◌∷◌ c ""

unfoldable pub escape_markup : String → String
unfolding escape_char
escape_markup String.[] = ""
escape_markup (String.◌∷◌ c s) = concat (escape_char c ∷ escape_markup s ∷ [])

-- The first line of a commit message.
abbrev pub commit_subject : String → String
commit_subject msg = before b'\n' msg

abbrev second : ℕ
second = 1000000000

-- Durations are nanoseconds; one that is not positive is 0.
unfoldable pub format_duration_short : ℕ → String
format_duration_short d =
    let m = d / (60 * second) in
    let s = d / second % 60 in
    if eqb d 0
    then "0s"
    else if ltb 0 m && eqb s 0
    then concat (decimal m ∷ "m" ∷ [])
    else if ltb 0 m
    then concat (decimal m ∷ "m" ∷ decimal s ∷ "s" ∷ [])
    else concat (decimal s ∷ "s" ∷ [])

-- The title and the icon.
unfoldable pub notification_meta : RequestType → String × String
notification_meta gpg_sign = ("Sign commit", "emblem-important")
notification_meta search_items = ("Secrets searched", "dialog-password")
notification_meta delete_item = ("Deletion requested", "dialog-warning")
notification_meta write_item = ("Secret write requested", "dialog-warning")
notification_meta ssh_sign = ("SSH key requested", "dialog-password")
notification_meta get_secret = ("Secret requested", "dialog-password")
notification_meta unlock = ("Secret requested", "dialog-password")

abbrev pub pid_text : Bool → ℕ → String
pid_text show_pids pid = if show_pids then concat ("[" ∷ decimal pid ∷ "]" ∷ []) else ""

-- The loop of `writeChain`, with what it writes before the next name.
unfoldable pub chain_text : Bool → String → List ProcessInfo → String
chain_text show_pids lead [] = ""
chain_text show_pids lead (p ∷ ps) =
    concat
      (lead ∷ escape_markup p.name ∷ pid_text show_pids p.pid ∷ chain_text show_pids " ← " ps ∷ [])

abbrev pub write_chain : Bool → List ProcessInfo → String
write_chain show_pids chain = chain_text show_pids "\n" chain

unfoldable pub attribute_texts : Dict String → List String
attribute_texts [] = []
attribute_texts ((k, v) ∷ as_) =
    concat (escape_markup k ∷ "=" ∷ escape_markup v ∷ []) ∷ attribute_texts as_

-- The order is that of the map.
unfoldable pub escaped_search_attrs : Dict String → String
unfolding attribute_texts join_texts
escaped_search_attrs attrs = join_texts ", " (attribute_texts attrs)

-- One item by its label, any other number by its count, between the given tags.
unfoldable pub items_text : String → String → List ItemInfo → String
items_text start end (it ∷ []) = concat (start ∷ escape_markup it.label ∷ end ∷ [])
items_text start end items = concat (start ∷ decimal (length items) ∷ " items" ∷ end ∷ [])

unfoldable pub search_text : String → String → Dict String → String
unfolding escaped_search_attrs
search_text start end [] = concat (start ∷ "all" ∷ end ∷ [])
search_text start end (a ∷ attrs) = concat (start ∷ escaped_search_attrs (a ∷ attrs) ∷ end ∷ [])

-- The inner switch, which both formats make: nothing for the types that it does not name.
unfoldable pub detail_text : String → String → RequestType → Request → String
unfolding items_text search_text
detail_text start end get_secret req = items_text start end req.items
detail_text start end delete_item req = items_text start end req.items
detail_text start end write_item req = items_text start end req.items
detail_text start end search_items req = search_text start end req.search_attributes
detail_text start end ssh_sign req = ""
detail_text start end unlock req = ""
detail_text start end gpg_sign req = ""

-- Who asks, in the format for requests without a process chain.
unfoldable pub origin_text : Request → String
origin_text req =
    if req.sender_info.invoker_name == ""
    then (if eqb req.sender_info.pid 0
        then concat ("<b>" ∷ escape_markup req.client ∷ "</b>: " ∷ [])
        else concat
            ("<b>" ∷ escape_markup req.client ∷ "</b>[" ∷ decimal req.sender_info.pid ∷ "]: " ∷ []))
    else concat (
        "<b>"
        ∷ escape_markup req.sender_info.invoker_name
        ∷ "</b>@"
        ∷ escape_markup req.client
        ∷ "["
        ∷ decimal req.sender_info.pid
        ∷ "]: "
        ∷ [])

unfoldable pub gpg_text : Bool → Request → Option GpgSignInfo → String
gpg_text show_pids req none = ""
gpg_text show_pids req (some info) = concat (
    "<b>"
    ∷ escape_markup info.repo_name
    ∷ "</b>: <i>"
    ∷ escape_markup (commit_subject info.commit_msg)
    ∷ "</i>"
    ∷ write_chain show_pids req.sender_info.process_chain
    ∷ [])

abbrev destination_text : Option String → String
destination_text none = ""
destination_text (some dest) = if dest == "" then "" else concat (" → " ∷ escape_markup dest ∷ [])

-- The key's label and the destination of the first item.
unfoldable pub ssh_text : List ItemInfo → String
ssh_text [] = ""
ssh_text (it ∷ items) = concat (
    "<b>"
    ∷ escape_markup it.label
    ∷ "</b>"
    ∷ destination_text (get "destination" it.attributes)
    ∷ [])

-- The outer switch's default, with and without a process chain.
unfoldable pub plain_text : Bool → Request → List ProcessInfo → String
unfolding detail_text origin_text
plain_text show_pids req [] = concat (origin_text req ∷ detail_text "<i>" "</i>" req.type req ∷ [])
plain_text show_pids req (p ∷ ps) =
    concat (detail_text "<b>" "</b>" req.type req ∷ write_chain show_pids (p ∷ ps) ∷ [])

unfoldable pub body_text : Bool → Request → RequestType → String
unfolding gpg_text ssh_text plain_text
body_text show_pids req gpg_sign = gpg_text show_pids req req.gpg_sign_info
body_text show_pids req ssh_sign =
    concat (ssh_text req.items ∷ write_chain show_pids req.sender_info.process_chain ∷ [])
body_text show_pids req _ = plain_text show_pids req req.sender_info.process_chain

unfoldable pub format_body : Bool → Request → String
unfolding body_text
format_body show_pids req = body_text show_pids req req.type
