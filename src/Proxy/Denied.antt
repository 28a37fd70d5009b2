-- ===== src/Proxy/Denied.antt =====
-- internal/proxy with internal/approval: what trust rules stop, and what a write that they ignore does.
use secrets_dispatcher.Prelude.{
  ℕ, String, ◌≡◌, ◌↔◌, refl, sym, ap, ◌∙◌, true, false, Option, none, some, List, [], ◌∷◌, ◌++◌,
  inl, inr, ◌==◌, eq_iff, eq_refl, Bool-cases, Option-cases,
}
use secrets_dispatcher.Prelude.Dict.{Dict}
use secrets_dispatcher.Dbus.{Secret}
use secrets_dispatcher.Approval.Types.{TrustRule, search_items, write_item, Error, err_ignored}
use secrets_dispatcher.Approval.Manager.Decision.{
  cache_allowed, trust_found, first_trust, first_rule, require_approval_order,
}
use secrets_dispatcher.Approval.Manager.Require.{Ask, returned, require_approval}
use secrets_dispatcher.Dhcrypto.{Ciphers}
use secrets_dispatcher.Proxy.Tracker.{Tracker, context_for_sender}
use secrets_dispatcher.Proxy.Upstream.{Variant, Reply}
use secrets_dispatcher.Proxy.World.{
  World, Peer, replied, ask_of, authorize, await_outcome, with_context, item_reads, get_item_info,
}
use secrets_dispatcher.Proxy.ObjectPath.{is_item_path}
use secrets_dispatcher.Proxy.Item.{item_set_secret, set_decided}
use secrets_dispatcher.Proxy.Collection.{search_attributes_to_item_info, denying, denying_rule}
use secrets_dispatcher.Proxy.Service.{search_all}

-- The request of a search.
abbrev pub search_ask : Peer → Dict String → Ask
search_ask peer attributes =
    ask_of peer (search_attributes_to_item_info attributes) "" search_items attributes

-- The request of a write to an item.
abbrev pub set_ask : Peer → String → Secret → Reply Variant → Reply Variant → Ask
set_ask peer path secret label attributes =
    ask_of peer (get_item_info path label attributes ∷ []) secret.session write_item []

action_of : Option TrustRule → String
action_of none = ""
action_of (some rule) = rule.action

denying_iff :
    (o : Option TrustRule) (rule : TrustRule)
    → (denying o ≡ some rule) ↔ ((o ≡ some rule) × (rule.action ≡ "deny"))
unfolding action_of
denying_iff none rule = ((λ h. cc), λ h. cc)
denying_iff (some r) rule = elim (Bool-cases (r.action == "deny")) [
  | inl e ↦ rw e ((λ h. (h, sym (ap action_of h) ∙ (eq_iff r.action "deny").0 e)), λ h. h.0)
  | inr e ↦ rw e ((λ h. cc), λ h. cc (e, (eq_iff r.action "deny").1 (ap action_of h.0 ∙ h.1)))
]

-- A search is not forwarded exactly when the first trust rule that matches it denies it; a denied search
-- gets no result, and any other is forwarded as it is.
pub search_denied_iff :
    (w : World) (peer : Peer) (attributes : Dict String) (reply : Reply (List String × List String))
    → ((search_all w peer attributes reply).calls ≡ []) ↔ (
        (rule : TrustRule) × (trust_found w.manager (search_ask peer attributes) ≡ some rule)
        × (rule.action ≡ "deny"))
unfolding search_all
search_denied_iff w peer attributes reply =
    elim (Option-cases (denying_rule w.manager (search_ask peer attributes))) [
      | inl e ↦ rw e (
        (λ h. cc),
        λ h. cc (
          e,
          (denying_iff (trust_found w.manager (search_ask peer attributes)) h.0).1 (h.1, h.2),
        ),
      )
      | inr (rule, e) ↦ rw e (
        (λ h.
            let d = (denying_iff (trust_found w.manager (search_ask peer attributes)) rule).0 e in
            (rule, d.0, d.1)),
        λ h. refl,
      )
    ]

module _ (w : World) (a : Ask) (peer : Peer) (rule : TrustRule)
    (enabled : w.manager.disabled ≡ false) (protected : cache_allowed w.manager a ≡ false)
    (no_rule : first_rule w.manager a peer.now ≡ none)
    (matched : first_trust w.manager a ≡ some rule) (ignores : rule.action ≡ "ignore") where
  ignored_outcome :
      (require_approval w.manager a peer.id peer.now).1 ≡ returned true (some err_ignored)
  ignored_outcome =
      require_approval_order w.manager a peer.id peer.now
      ∙ rw (enabled, protected, no_rule, matched, ignores) (rw (eq_refl "ignore") refl)

  ignored : (authorize w a peer).1 ≡ some err_ignored
  unfolding authorize await_outcome
  ignored = rw ignored_outcome refl

ignored_set :
    (c : Ciphers) (path : String) (secret : Secret) (reply : Reply (Unit {0}))
    (r : World × Option Error)
    → r.1 ≡ some err_ignored
    → ((set_decided r c path secret reply).calls ≡ [])
      × ((set_decided r c path secret reply).answer ≡ replied tt)
ignored_set c path secret reply (v, none) h = cc
ignored_set c path secret reply (v, some err_ignored) h = (refl, refl)
ignored_set c path secret reply (v, some _) h = cc

-- A write to an item that a trust rule ignores seems to succeed, and nothing is written: the client gets
-- the reply of a success, and only the label and the attributes are read. The path must be an item's,
-- the tracker open, the manager enabled, no auto-approve rule may apply, and the first trust rule that
-- matches must have the action "ignore".
pub ignored_write_succeeds :
    (c : Ciphers) (w : World) (peer : Peer) (path : String) (secret : Secret)
    (label attributes : Reply Variant) (reply : Reply (Unit {0})) (t : Tracker) (context : ℕ)
    (rule : TrustRule)
    → is_item_path path ≡ true
    → context_for_sender w.tracker peer.sender peer.connected ≡ some (t, context)
    → w.manager.disabled ≡ false
    → first_rule w.manager (set_ask peer path secret label attributes) peer.now ≡ none
    → first_trust w.manager (set_ask peer path secret label attributes) ≡ some rule
    → rule.action ≡ "ignore"
    → ((item_set_secret c w peer path secret label attributes reply).calls ≡ item_reads path)
      × ((item_set_secret c w peer path secret label attributes reply).answer ≡ replied tt)
unfolding item_set_secret with_context
ignored_write_succeeds c w peer path secret label attributes reply t context rule item open_ enabled
      no_rule matched ignores =
    let ask = set_ask peer path secret label attributes in
    let v : World = record w { tracker = t } in
    let done =
      ignored_set c path secret reply (authorize v ask peer)
        (ignored v ask peer rule enabled refl no_rule matched ignores) in
    rw (item, open_) (ap (λ calls. item_reads path ++ calls) done.0, done.1)
