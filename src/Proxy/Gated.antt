-- ===== src/Proxy/Gated.antt =====
-- internal/proxy: no call that reads, writes or deletes a secret is forwarded without an approval.
use secrets_dispatcher.Prelude.{
  ap₂, none, some, ℕ, String, ◌≡◌, ◌≢◌, refl, ap, ◌∙◌, Bool, Option, List, [], ◌∷◌, ◌++◌, ◌⊎◌, inl,
  inr, Bool-cases, arith,
}
use secrets_dispatcher.Prelude.Dict.{Dict, get}
use mathlib.Core.List.{append-nil, map}
use secrets_dispatcher.Dbus.{Secret}
use secrets_dispatcher.Approval.Types.{
  ItemInfo, RequestType, Error, get_secret, delete_item, write_item, err_ignored,
}
use secrets_dispatcher.Approval.Manager.{should_ignore}
use secrets_dispatcher.Dhcrypto.{Ciphers}
use secrets_dispatcher.Proxy.Upstream.{
  text_value, bytes_value, attributes_value, other_value, failed, answered, Variant, Call, Reply,
}
use secrets_dispatcher.Proxy.World.{
  read_text, read_attributes, World, Peer, Answer, replied, ask_of, authorize, item_reads,
  get_item_info, collection_reads, get_collection_info,
}
use secrets_dispatcher.Proxy.ObjectPath.{is_item_path, is_collection_path}
use secrets_dispatcher.Proxy.ObjectPath.Named.{
  IsItem, IsCollection, is_item_path-IsItem, is_collection_path-IsCollection,
}
use secrets_dispatcher.Approval.Manager.Require.{Ask}
use secrets_dispatcher.Proxy.Item.{
  item_get_secret, item_delete, item_set_secret, secret_decided, delete_decided, set_decided,
  item_call, write_refused,
}
use secrets_dispatcher.Proxy.Collection.{
  collection_delete, collection_call, create_item, create_decided, property_text,
  property_attributes, extract_item_info, no_item,
}
use secrets_dispatcher.Proxy.Service.{get_secrets, secrets_decided, item_infos, all_item_reads}
use secrets_dispatcher.Proxy.Gate.{
  Stopped, Refused, Authorized, property_or_Authorized, body_or_Authorized, refused_or_approved,
}

-- Nothing was called and nothing replied.
abbrev Silent : {A : Type 0} → List Call → Answer A → Type 0
Silent {A} calls answer = (calls ≡ []) × ((a : A) → answer ≢ replied a)

-- What the client gets to see of a property that was read, or that it gave.
abbrev pub shown_text : Reply Variant → String
shown_text (answered (text_value s)) = s
shown_text _ = ""

abbrev pub shown_attributes : Reply Variant → Dict String
shown_attributes (answered (attributes_value attrs)) = attrs
shown_attributes _ = []

-- The item of this path, with its label and attributes as they were read.
abbrev pub named_item : String → Reply Variant → Reply Variant → ItemInfo
named_item path label attributes = record {
  path = path;
  label = shown_text label;
  attributes = shown_attributes attributes;
}

read_text-shown : (r : Reply Variant) → read_text r ≡ shown_text r
read_text-shown (failed e) = refl
read_text-shown (answered (text_value s)) = refl
read_text-shown (answered (bytes_value s)) = refl
read_text-shown (answered (attributes_value s)) = refl
read_text-shown (answered other_value) = refl

read_attributes-shown : (r : Reply Variant) → read_attributes r ≡ shown_attributes r
read_attributes-shown (failed e) = refl
read_attributes-shown (answered (text_value s)) = refl
read_attributes-shown (answered (bytes_value s)) = refl
read_attributes-shown (answered (attributes_value s)) = refl
read_attributes-shown (answered other_value) = refl

get_item_info-named :
    (path : String) (label attributes : Reply Variant)
    → get_item_info path label attributes ≡ named_item path label attributes
unfolding get_item_info
get_item_info-named path label attributes =
    rw (read_text-shown label, read_attributes-shown attributes) refl

-- The request is of this caller, for these items, of this type.
pub record AsksFor (peer : Peer) (items : List ItemInfo) (session : String) (type : RequestType)
    (a : Ask) : Type 0 where
  pub for_items : a.items ≡ items
  pub for_session : a.session ≡ session
  pub for_type : a.type ≡ type
  pub for_caller : a.client ≡ peer.client_name
  pub for_sender : a.sender_info ≡ peer.sender_info
  pub no_search : a.search_attributes ≡ []

-- Such a request was authorized.
abbrev pub AuthorizedFor : World → Peer → List ItemInfo → String → RequestType → Type 0
AuthorizedFor w peer items session type =
    (a : Ask) × AsksFor peer items session type a × Authorized w a peer

asked_for :
    (w : World) (peer : Peer) (given items : List ItemInfo) (session : String) (type : RequestType)
    → given ≡ items
    → Authorized w (ask_of peer given session type []) peer
    → AuthorizedFor w peer items session type
asked_for w peer given items session type e g = (
  ask_of peer given session type [],
  record {
    for_items = e;
    for_session = refl;
    for_type = refl;
    for_caller = refl;
    for_sender = refl;
    no_search = refl;
  },
  g,
)

one_item :
    (path : String) (label attributes : Reply Variant)
    → ◌≡◌ {A = List ItemInfo}
        (get_item_info path label attributes ∷ [])
        (named_item path label attributes ∷ [])
one_item path label attributes = ap (λ i. i ∷ []) (get_item_info-named path label attributes)

-- `GetSecret` forwards the call, or replies with a secret, only for an item's path and an authorized
-- request to get this one item's secret, with its path, its label and its attributes; otherwise it has at
-- most read the label and the attributes.
pub item_get_secret_gated :
    (c : Ciphers) (iv : Option (List ℕ)) (w : World) (peer : Peer) (path session : String)
    (label attributes : Reply Variant) (reply : Reply Secret)
    → Refused (item_reads path) (item_get_secret c iv w peer path session label attributes reply)
      ⊎ (IsItem path
          × AuthorizedFor w peer (named_item path label attributes ∷ []) session get_secret)
unfolding item_get_secret
item_get_secret_gated c iv w peer path session label attributes reply =
    elim (Bool-cases (is_item_path path)) [
      | inr e ↦ rw e (inl (inl refl, λ a. ground arith))
      | inl e ↦
          rw e
            (elim (property_or_Authorized Silent (λ r. secret_decided r c iv path session reply)
              (λ v f. (refl, λ a. ground arith)) w
              (ask_of peer (get_item_info path label attributes ∷ []) session get_secret []) peer
              (refl, λ a. ground arith)) [
                | inl s ↦ inl (inr (ap (λ calls. item_reads path ++ calls) s.0), s.1)
                | inr g ↦ inr (
                  is_item_path-IsItem path e,
                  asked_for w peer _ _ session get_secret (one_item path label attributes) g,
                )
              ])
    ]

-- All the items that were named, in their order.
abbrev pub named_items :
    (String → Reply Variant) → (String → Reply Variant) → List String → List ItemInfo
named_items label attributes items =
    map (λ path. named_item path (label path) (attributes path)) items

item_infos-named :
    (label attributes : String → Reply Variant) (items : List String)
    → item_infos label attributes items ≡ named_items label attributes items
unfolding item_infos
item_infos-named label attributes [] = refl
item_infos-named label attributes (path ∷ items) =
    ap₂ ◌∷◌ (get_item_info-named path (label path) (attributes path))
      (item_infos-named label attributes items)

-- `GetSecrets` forwards the call, or replies with secrets, only for an authorized request to get all the
-- items that were named, as one, each with its path, its label and its attributes; otherwise it has at
-- most read their labels and attributes.
pub get_secrets_gated :
    (c : Ciphers) (iv : String → Option (List ℕ)) (w : World) (peer : Peer) (items : List String)
    (session : String) (label attributes : String → Reply Variant) (reply : Reply (Dict Secret))
    → Refused (all_item_reads items) (get_secrets c iv w peer items session label attributes reply)
      ⊎ AuthorizedFor w peer (named_items label attributes items) session get_secret
unfolding get_secrets
get_secrets_gated c iv w peer items session label attributes reply =
    elim (property_or_Authorized Silent (λ r. secrets_decided r c iv items session reply)
      (λ v f. (refl, λ a. ground arith)) w
      (ask_of peer (item_infos label attributes items) session get_secret []) peer
      (refl, λ a. ground arith)) [
        | inl s ↦ inl (
          inr (ap (λ calls. all_item_reads items ++ calls) s.0 ∙ append-nil (all_item_reads items)),
          s.1,
        )
        | inr g ↦
            inr
              (asked_for w peer _ _ session get_secret (item_infos-named label attributes items) g)
      ]

-- `Delete` of an item forwards the call only for an authorized request to delete this item.
pub item_delete_gated :
    (w : World) (peer : Peer) (path : String) (label attributes : Reply Variant)
    (reply : Reply String)
    → Refused (item_reads path) (item_delete w peer path label attributes reply)
      ⊎ Authorized w (ask_of peer (get_item_info path label attributes ∷ []) "" delete_item []) peer
unfolding item_delete
item_delete_gated w peer path label attributes reply = elim (Bool-cases (is_item_path path)) [
  | inr e ↦ rw e (inl (inl refl, λ a. ground arith))
  | inl e ↦
      rw e
        (elim (property_or_Authorized Silent (λ r. delete_decided r (item_call path "Delete") reply)
          (λ v f. (refl, λ a. ground arith)) w
          (ask_of peer (get_item_info path label attributes ∷ []) "" delete_item []) peer
          (refl, λ a. ground arith)) [
            | inl s ↦ inl (inr (ap (λ calls. item_reads path ++ calls) s.0), s.1)
            | inr g ↦ inr g
          ])
]

-- `Delete` of a collection forwards the call only for an authorized request to delete this collection.
pub collection_delete_gated :
    (w : World) (peer : Peer) (path : String) (label : Reply Variant) (reply : Reply String)
    → Refused (collection_reads path) (collection_delete w peer path label reply)
      ⊎ Authorized w (ask_of peer (get_collection_info path label ∷ []) "" delete_item []) peer
unfolding collection_delete
collection_delete_gated w peer path label reply = elim (Bool-cases (is_collection_path path)) [
  | inr e ↦ rw e (inl (inl refl, λ a. ground arith))
  | inl e ↦
      rw e
        (elim (property_or_Authorized Silent
          (λ r. delete_decided r (collection_call path "Delete") reply)
          (λ v f. (refl, λ a. ground arith)) w
          (ask_of peer (get_collection_info path label ∷ []) "" delete_item []) peer
          (refl, λ a. ground arith)) [
            | inl s ↦ inl (inr (ap (λ calls. collection_reads path ++ calls) s.0), s.1)
            | inr g ↦ inr g
          ])
]

-- Nothing was called; a reply, if any, is that nothing was written.
abbrev pub Unwritten : {A : Type 0} → A → List Call → Answer A → Type 0
Unwritten nothing calls answer = (calls ≡ []) × ((a : _) → answer ≡ replied a → a ≡ nothing)

refused-Unwritten :
    {A : Type 0} (nothing : A) (w : World) (e : Error)
    → Unwritten nothing (write_refused e w nothing).calls (write_refused e w nothing).answer
refused-Unwritten nothing w err_ignored = (refl, λ a h. cc)
refused-Unwritten nothing w _ = (refl, λ a h. cc)

-- `SetSecret` forwards the secret only for an authorized request to write this item; otherwise it has at
-- most read the label and the attributes.
pub item_set_secret_gated :
    (c : Ciphers) (w : World) (peer : Peer) (path : String) (secret : Secret)
    (label attributes : Reply Variant) (reply : Reply (Unit {0}))
    → Stopped (item_reads path) (item_set_secret c w peer path secret label attributes reply)
      ⊎ Authorized w
          (ask_of peer (get_item_info path label attributes ∷ []) secret.session write_item [])
          peer
unfolding item_set_secret
item_set_secret_gated c w peer path secret label attributes reply =
    elim (Bool-cases (is_item_path path)) [
      | inr e ↦ rw e (inl (inl refl))
      | inl e ↦
          rw e
            (elim (property_or_Authorized (Unwritten tt) (λ r. set_decided r c path secret reply)
              (λ v f. refused-Unwritten tt v f) w
              (ask_of peer (get_item_info path label attributes ∷ []) secret.session write_item [])
              peer (refl, λ a h. refl)) [
                | inl s ↦ inl (inr (ap (λ calls. item_reads path ++ calls) s.0))
                | inr g ↦ inr g
              ])
    ]

-- The label and the attributes that the client gives a new item.
abbrev pub given_text : Option Variant → String
given_text (some (text_value s)) = s
given_text _ = ""

abbrev pub given_attributes : Option Variant → Dict String
given_attributes (some (attributes_value attrs)) = attrs
given_attributes _ = []

property_text-given : (o : Option Variant) → property_text o ≡ given_text o
property_text-given none = refl
property_text-given (some (text_value s)) = refl
property_text-given (some (bytes_value s)) = refl
property_text-given (some (attributes_value s)) = refl
property_text-given (some other_value) = refl

property_attributes-given : (o : Option Variant) → property_attributes o ≡ given_attributes o
property_attributes-given none = refl
property_attributes-given (some (text_value s)) = refl
property_attributes-given (some (bytes_value s)) = refl
property_attributes-given (some (attributes_value s)) = refl
property_attributes-given (some other_value) = refl

-- The new item in this collection, with the label and the attributes among its properties.
abbrev pub new_item : String → Dict Variant → ItemInfo
new_item path properties = record {
  path = path;
  label = given_text (get "org.freedesktop.Secret.Item.Label" properties);
  attributes = given_attributes (get "org.freedesktop.Secret.Item.Attributes" properties);
}

extract_item_info-new :
    (path : String) (properties : Dict Variant)
    → extract_item_info path properties ≡ new_item path properties
unfolding extract_item_info
extract_item_info-new path properties =
    rw
      (
        property_text-given (get "org.freedesktop.Secret.Item.Label" properties),
        property_attributes-given (get "org.freedesktop.Secret.Item.Attributes" properties),
      )
      refl

-- `CreateItem` forwards the secret only for the path of a collection and an authorized request to write an
-- item into this collection, with the label and the attributes among these properties; otherwise it calls
-- nothing, and what it may reply is that there is no item.
pub create_item_gated :
    (c : Ciphers) (w : World) (peer : Peer) (path : String) (properties : Dict Variant)
    (secret : Secret) (replace : Bool) (reply : Reply (String × String)) (created_at : ℕ)
    → Unwritten no_item
        (create_item c w peer path properties secret replace reply created_at).calls
        (create_item c w peer path properties secret replace reply created_at).answer
      ⊎ (IsCollection path
          × AuthorizedFor w peer (new_item path properties ∷ []) secret.session write_item)
unfolding create_item
create_item_gated c w peer path properties secret replace reply created_at =
    let items = extract_item_info path properties ∷ [] in
    let ask = ask_of peer items secret.session write_item [] in
    elim (Bool-cases (is_collection_path path)) [
      | inr e ↦ rw e (inl (refl, λ a. ground arith))
      | inl e ↦
          rw e
            (elim (body_or_Authorized (Unwritten no_item) w ask peer _ (refl, λ a. ground arith)
              (λ v. elim (Bool-cases (should_ignore v.manager items write_item)) [
                | inl f ↦ rw f (inl (refl, λ a h. cc))
                | inr f ↦ rw f (
                    refused_or_approved (Unwritten no_item)
                      (λ r. create_decided r c peer path properties secret replace reply created_at)
                      (λ u g. refused-Unwritten no_item u g) (authorize v ask peer))
              ])) [
                | inl s ↦ inl s
                | inr g ↦ inr (
                  is_collection_path-IsCollection path e,
                  asked_for w peer _ _ secret.session write_item
                      (ap (λ i. i ∷ []) (extract_item_info-new path properties)) g,
                )
              ])
    ]
