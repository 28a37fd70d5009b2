-- ===== src/Proxy/Tests.antt =====
-- Examples of internal/proxy.
pub mod Forwarding
pub mod Prompting
use secrets_dispatcher.Prelude.{
  ◌++◌, ◌≡◌, refl, not, ◌&&◌, ◌||◌, ◌==◌, some, [], ◌∷◌, arith, true, false, ◌↔◌, eqb,
}
use secrets_dispatcher.Text.{codes}
use secrets_dispatcher.Proxy.UnitPath.{
  decode_unit_path, unit_prefix, bus_label_escape, decode_unit_path-escape,
}
use secrets_dispatcher.Proxy.Tracker.{
  Tracker, new_tracker, context_for_sender, register, release_in, release, client_disconnected,
}
use secrets_dispatcher.Proxy.Tracker.Sound.{Reach, start, calls, releases, InFlight, cancelled_iff}
use secrets_dispatcher.Prelude.Dict.{insert, get}
use secrets_dispatcher.Proxy.Tracker.Live.{tracked, is_cancelled, release_only, disconnected_only}

decode_unit_path-escape_example :
    (decode_unit_path (unit_prefix ++ bus_label_escape (codes "1-b")) ≡ codes "1-b")
    × (decode_unit_path (unit_prefix ++ bus_label_escape []) ≡ codes "_")
decode_unit_path-escape_example =
    decode_unit_path-escape b'1' (codes "-b") (omega arith, (omega arith, (omega arith, tt)))

-- Two requests of one sender, and one of another.
abbrev busy : Tracker
busy = record {
  clients = some ((":1.5", 2 ∷ 0 ∷ []) ∷ (":1.6", 1 ∷ []) ∷ []);
  next_id = 3;
  cancelled = [];
}

-- A request that was released, and one that is in flight.
abbrev after_release : Tracker
after_release =
    release (record new_tracker { clients = some ((":1.5", 0 ∷ []) ∷ []); next_id = 1 }) ":1.5" 0

released-Reach : Reach after_release
unfolding context_for_sender register insert get
released-Reach = releases (calls start ":1.5" true 0 refl) ":1.5" 0

cancelled_iff_example : (is_cancelled after_release 0 ≡ false) ↔ InFlight after_release 0
unfolding release release_in get
cancelled_iff_example = cancelled_iff after_release 0 released-Reach (omega arith)
