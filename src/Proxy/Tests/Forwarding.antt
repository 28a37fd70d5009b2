-- ===== src/Proxy/Tests/Forwarding.antt =====
-- Examples of the D-Bus handlers of internal/proxy.
use secrets_dispatcher.Prelude.{
  String, ◌≡◌, ◌⊎◌, refl, true, none, some, [], ◌∷◌, replicate, arith, ◌≢◌,
}
use secrets_dispatcher.Prelude.Dict.{get, insert}
use secrets_dispatcher.Text.Decimal.{decimal}
use secrets_dispatcher.Dbus.{Secret, algorithm_plain, algorithm_dh}
use secrets_dispatcher.Approval.Types.{get_secret, write_item, TrustRule}
use secrets_dispatcher.Approval.Manager.{new_manager}
use secrets_dispatcher.Approval.Manager.Require.{by_timer}
use secrets_dispatcher.Approval.Tests.{caller, settings}
use secrets_dispatcher.Dhcrypto.{Session, new_key_pair, derive, decrypt}
use secrets_dispatcher.Dhcrypto.Tests.{
  plain_ciphers, plain_ciphers-CipherLaws, zero_session, not_degenerate,
}
use secrets_dispatcher.Proxy.Tracker.{new_tracker, context_for_sender}
use secrets_dispatcher.Proxy.ObjectPath.{is_item_path}
use secrets_dispatcher.Approval.Match.{check_trust_rules, match_trust_rule}
use secrets_dispatcher.Proxy.Upstream.{text_value, bytes_value, failed, answered, ok}
use secrets_dispatcher.Proxy.Session.{
  SessionManager, new_session_manager, create_session, for_client, session_path,
}
use secrets_dispatcher.Proxy.Session.Paths.{session_paths_distinct, after_all, close}
use secrets_dispatcher.Proxy.Session.Transcode.{negotiated_readable}
use secrets_dispatcher.Proxy.World.{World, Peer, item_reads, replied}
use secrets_dispatcher.Proxy.Item.{item_get_secret, item_set_secret}
use secrets_dispatcher.Proxy.Collection.{create_item, no_item}
use secrets_dispatcher.Proxy.Service.{get_secrets, all_item_reads}
use secrets_dispatcher.Proxy.Gate.{Refused}
use secrets_dispatcher.Proxy.ObjectPath.Named.{IsItem, IsCollection}
use secrets_dispatcher.Proxy.Gated.{
  item_get_secret_gated, get_secrets_gated, create_item_gated, Unwritten, AuthorizedFor, named_item,
  named_items, new_item,
}
use secrets_dispatcher.Proxy.Denied.{ignored_write_succeeds}

abbrev item_path : String
item_path = "/org/freedesktop/secrets/collection/login/1"

-- One plain session and one encrypted.
abbrev sessions : SessionManager
sessions = record {
  sessions =
      ("/org/freedesktop/secrets/session/1", record { local = "/s/a"; cipher = none })
      ∷ (
        "/org/freedesktop/secrets/session/2",
        record { local = "/s/b"; cipher = some zero_session },
      )
      ∷ [];
  counter = 2;
}

abbrev pub world : World
world = record { manager = new_manager settings; sessions = sessions; tracker = new_tracker }

-- A caller whose request nobody answers.
abbrev pub peer : Peer
peer = record {
  client_name = "laptop";
  sender = ":1.5";
  sender_info = caller;
  connected = true;
  id = "r1";
  now = 10;
  during = λ w. (w, by_timer, 400);
}

abbrev ignoring : TrustRule
ignoring = record {
  name = "quiet";
  action = "ignore";
  request_types = [];
  process = none;
  secret = none;
  search_attributes = [];
}

abbrev ignoring_world : World
ignoring_world = record world {
  manager = new_manager (record settings { trust_rules = ignoring ∷ [] });
}

abbrev secret : Secret
secret = record {
  session = "/org/freedesktop/secrets/session/1";
  parameters = [];
  value = 1 ∷ 2 ∷ 3 ∷ [];
  content_type = "text/plain";
}

item_get_secret_gated_example :
    Refused (item_reads item_path) (
      item_get_secret plain_ciphers
        (some (replicate 16 5))
        world
        peer
        item_path
        "/org/freedesktop/secrets/session/1"
        (answered (text_value "token"))
        (failed "none")
        (answered secret))
    ⊎ (IsItem item_path
        × AuthorizedFor world peer
            (named_item item_path (answered (text_value "token")) (failed "none") ∷ [])
            "/org/freedesktop/secrets/session/1"
            get_secret)
item_get_secret_gated_example =
    item_get_secret_gated plain_ciphers (some (replicate 16 5)) world peer item_path
      "/org/freedesktop/secrets/session/1" (answered (text_value "token")) (failed "none")
      (answered secret)

get_secrets_gated_example :
    Refused (all_item_reads (item_path ∷ [])) (
      get_secrets plain_ciphers
        (λ path. none)
        world
        peer
        (item_path ∷ [])
        "/org/freedesktop/secrets/session/1"
        (λ path. failed "none")
        (λ path. failed "none")
        (answered []))
    ⊎ AuthorizedFor world peer
        (named_items (λ path. failed "none") (λ path. failed "none") (item_path ∷ []))
        "/org/freedesktop/secrets/session/1"
        get_secret
get_secrets_gated_example =
    get_secrets_gated plain_ciphers (λ path. none) world peer (item_path ∷ [])
      "/org/freedesktop/secrets/session/1" (λ path. failed "none") (λ path. failed "none")
      (answered [])

create_item_gated_example :
    Unwritten no_item
      (create_item plain_ciphers world peer "/org/freedesktop/secrets/collection/login" [] secret
        true
        (answered (item_path, "/"))
        20).calls
      (create_item plain_ciphers world peer "/org/freedesktop/secrets/collection/login" [] secret
        true
        (answered (item_path, "/"))
        20).answer
    ⊎ (IsCollection "/org/freedesktop/secrets/collection/login"
        × AuthorizedFor world peer
            (new_item "/org/freedesktop/secrets/collection/login" [] ∷ [])
            "/org/freedesktop/secrets/session/1"
            write_item)
create_item_gated_example =
    create_item_gated plain_ciphers world peer "/org/freedesktop/secrets/collection/login" [] secret
      true (answered (item_path, "/")) 20

ignored_write_succeeds_example :
    ((item_set_secret plain_ciphers ignoring_world peer item_path secret
        (answered (text_value "token"))
        (failed "none")
        (answered tt)).calls
      ≡ item_reads item_path)
    × ((item_set_secret plain_ciphers ignoring_world peer item_path secret
          (answered (text_value "token"))
          (failed "none")
          (answered tt)).answer
        ≡ replied tt)
unfolding is_item_path context_for_sender get insert check_trust_rules match_trust_rule
ignored_write_succeeds_example =
    ignored_write_succeeds plain_ciphers ignoring_world peer item_path secret
      (answered (text_value "token")) (failed "none") (answered tt)
      (record { clients = some ((":1.5", 0 ∷ []) ∷ []); next_id = 1; cancelled = [] }) 0 ignoring
      refl refl refl refl refl refl

negotiated_readable_example :
    (s : Session) × (sealed : Secret) × (derive plain_ciphers
        (new_key_pair 3)
        (new_key_pair 5).public
      ≡ some s)
    × ((create_session plain_ciphers
          (some 3)
          (answered (text_value "", "/s/c"))
          sessions
          algorithm_dh
          (bytes_value (new_key_pair 3).public)).2
        ≡ ok (bytes_value (new_key_pair 5).public, session_path 3))
    × (for_client plain_ciphers
          (some (replicate 16 5))
          (create_session plain_ciphers
            (some 3)
            (answered (text_value "", "/s/c"))
            sessions
            algorithm_dh
            (bytes_value (new_key_pair 3).public)).0
          (session_path 3)
          secret
        ≡ some sealed)
    × (decrypt plain_ciphers s sealed.parameters sealed.value ≡ some secret.value)
negotiated_readable_example =
    negotiated_readable plain_ciphers sessions 3 3 (text_value "") "/s/c" secret (replicate 16 5)
      plain_ciphers-CipherLaws not_degenerate.0 not_degenerate.1 refl

-- A plain session, closed, and another one.
session_paths_distinct_example :
    (session_path 1 ≢ session_path 2)
    × (get
          (session_path 2)
          (after_all
            (create_session plain_ciphers none
              (answered (text_value "", "/s/a"))
              (after_all new_session_manager [])
              algorithm_plain
              (text_value "")).0
            (close (answered tt) (session_path 1) ∷ [])).sessions
        ≡ none)
unfolding create_session after_all get insert decimal
session_paths_distinct_example =
    session_paths_distinct [] (close (answered tt) (session_path 1) ∷ []) plain_ciphers
      plain_ciphers none none (answered (text_value "", "/s/a")) (answered (text_value "", "/s/b"))
      algorithm_plain algorithm_plain (text_value "") (text_value "") (text_value "")
      (text_value "") (session_path 1) (session_path 2) (omega arith) refl refl
