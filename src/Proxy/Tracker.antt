-- ===== src/Proxy/Tracker.antt =====
-- internal/proxy/tracker.go: the requests in flight of each D-Bus sender, and their cancellation. A context
-- is the ID of its request; `cancelled` holds those whose cancel function was called. The parent context
-- and the channels of the signal loop are not modelled.
pub mod Live
pub mod Sound
use secrets_dispatcher.Prelude.{
  ℕ, suc, String, Bool, true, false, not, ◌&&◌, ◌||◌, Option, none, some, List, [], ◌∷◌, ◌++◌, eqb,
  any, keep, is_empty, ◌==◌, if◌then◌else◌,
}
use secrets_dispatcher.Prelude.Dict.{Dict, get, insert, erase}
use secrets_dispatcher.Text.{has_prefix}

-- `clients` is `none` after `close`, which sets the map to nil.
pub record Tracker : Type 0 where
  pub clients : Option (Dict (List ℕ))
  pub next_id : ℕ
  pub cancelled : List ℕ

abbrev pub new_tracker : Tracker
new_tracker = record { clients = some []; next_id = 0; cancelled = [] }

abbrev pub ids_at : String → Option (Dict (List ℕ)) → List ℕ
ids_at sender none = []
ids_at sender (some m) = elim (get sender m) [ none ↦ [] | some ids ↦ ids ]

-- The locked section of `contextForSender`; `none` is the panic of a write into the nil map.
unfoldable pub register : Tracker → String → Option (Tracker × ℕ)
register t sender = elim t.clients [
  | none ↦ none
  | some m ↦ some (
    record t {
      clients = some (insert sender (t.next_id ∷ ids_at sender (some m)) m);
      next_id = suc t.next_id;
    },
    t.next_id,
  )
]

abbrev pub without : ℕ → List ℕ → List ℕ
without id ids = keep (λ j. not (eqb id j)) ids

-- The sender's entry goes with its last request.
abbrev pub put_back : String → List ℕ → Dict (List ℕ) → Dict (List ℕ)
put_back sender ids m = if is_empty ids then erase sender m else insert sender ids m

unfoldable pub release_in : Option (Dict (List ℕ)) → Tracker → String → ℕ → Tracker
release_in none t sender id = t
release_in (some m) t sender id =
    if any (eqb id) (ids_at sender (some m))
    then record t {
      clients = some (put_back sender (without id (ids_at sender (some m))) m);
      cancelled = id ∷ t.cancelled;
    }
    else t

-- The function that `contextForSender` returns.
unfoldable pub release : Tracker → String → ℕ → Tracker
unfolding release_in
release t sender id = release_in t.clients t sender id

-- The whole call: `connected` is whether the bus still knows the sender.
unfoldable pub context_for_sender : Tracker → String → Bool → Option (Tracker × ℕ)
unfolding register release
context_for_sender t sender connected = elim (register t sender) [
  | none ↦ none
  | some (t', id) ↦ some ((if connected then t' else release t' sender id), id)
]

abbrev pub drop_sender : String → Option (Dict (List ℕ)) → Option (Dict (List ℕ))
drop_sender sender none = none
drop_sender sender (some m) = some (erase sender m)

unfoldable pub client_disconnected : Tracker → String → Tracker
client_disconnected t sender = record t {
  clients = drop_sender sender t.clients;
  cancelled = ids_at sender t.clients ++ t.cancelled;
}

abbrev pub all_ids : Dict (List ℕ) → List ℕ
all_ids [] = []
all_ids ((sender, ids) ∷ m) = ids ++ all_ids m

unfoldable pub close : Tracker → Tracker
close t = elim t.clients [
  | none ↦ t
  | some m ↦ record t { clients = none; cancelled = all_ids m ++ t.cancelled }
]

-- A value of a signal's body: a text, or anything else.
pub data Value : Type 0 where
  text : String → Value
  other : Value

pub record Signal : Type 0 where
  pub name : String
  pub body : List Value

unfoldable pub owner_changed : Tracker → List Value → Tracker
unfolding client_disconnected
owner_changed t (text name ∷ text old_owner ∷ text new_owner ∷ []) =
    if not (name == "") && has_prefix name ":" && not (old_owner == "") && new_owner == ""
    then client_disconnected t old_owner
    else t
owner_changed t _ = t

-- One round of `processSignals`.
unfoldable pub process_signal : Tracker → Signal → Tracker
unfolding owner_changed
process_signal t s =
    if s.name == "org.freedesktop.DBus.NameOwnerChanged" then owner_changed t s.body else t
