-- ===== src/Config/Valid.antt =====
-- The configurations that `Validate` of internal/config/config.go lets through, and what their ignoring
-- rules can do.
use secrets_dispatcher.Prelude.{
  String, ◌≡◌, ◌≢◌, refl, true, ◌||◌, none, List, [], ◌∷◌, ◌↔◌, inl, inr, All, Has, any, is_empty,
  arith, eq_iff, ◌==◌, ◌≤◌, subst,
}
use secrets_dispatcher.Prelude.Dict.{Dict}
use secrets_dispatcher.Approval.Types.{
  TrustRule, SenderInfo, ItemInfo, RequestType, write_item, type_name,
}
use secrets_dispatcher.Approval.Match.{match_trust_rule}
use secrets_dispatcher.Config.Buses.{IsUpstream, IsDownstream, sessions, validate_buses_iff}
use secrets_dispatcher.Config.{Config, validate_rule, validate}
use secrets_dispatcher.Config.Rules.{IsRule, check_each_iff, both_iff, validate_rule_iff}

-- What the validation asks of a configuration.
pub record IsValid (cfg : Config) : Type 0 where
  pub upstream : IsUpstream cfg.serve.upstream
  pub downstream : All IsDownstream cfg.serve.downstream
  pub one_session_bus : sessions (cfg.serve.upstream ∷ cfg.serve.downstream) ≤ 1
  pub rules : All IsRule cfg.serve.rules

pub validate_iff : (cfg : Config) → (validate cfg ≡ none) ↔ IsValid cfg
unfolding validate
validate_iff cfg =
    let rules = check_each_iff validate_rule IsRule validate_rule_iff 0 cfg.serve.rules in
    let whole = both_iff (validate_buses_iff cfg.serve) rules in
    (
      (λ h.
          let ((u, d, n), r) = whole.0 h in
          record { upstream = u; downstream = d; one_session_bus = n; rules = r }),
      (λ h. whole.1 ((h.upstream, h.downstream, h.one_session_bus), h.rules)),
    )

only_write :
    (name : String) (types : List String)
    → All (λ t. t ≡ "write") types
    → any (◌==◌ name) types ≡ true
    → name ≡ "write"
only_write name [] w h = cc
only_write name (t ∷ ts) w h = ground (arith, eq_iff name t, only_write name ts w.1)

write_type : (t : RequestType) → type_name t ≡ "write" → t ≡ write_item
unfolding type_name
write_type RequestType.write_item h = refl
write_type RequestType.get_secret h = cc
write_type RequestType.search_items h = cc
write_type RequestType.delete_item h = cc
write_type RequestType.ssh_sign h = cc
write_type RequestType.unlock h = cc
write_type RequestType.gpg_sign h = cc

IsRule-in :
    (rule : TrustRule) (rules : List TrustRule)
    → All IsRule rules
    → Has (λ r. r ≡ rule) rules
    → IsRule rule
IsRule-in rule [] a h = absurd h
IsRule-in rule (r ∷ rs) a (inl e) = subst IsRule e a.0
IsRule-in rule (r ∷ rs) a (inr h) = IsRule-in rule rs a.1 h

ignored_type :
    (rule : TrustRule) (s : SenderInfo) (items : List ItemInfo) (t : RequestType)
    (attrs : Dict String)
    → (rule.request_types ≢ []) × All (λ n. n ≡ "write") rule.request_types
    → match_trust_rule rule s items t attrs ≡ true
    → type_name t ≡ "write"
unfolding match_trust_rule
ignored_type rule s items t attrs w h =
    only_write (type_name t) rule.request_types w.1 (named rule.request_types w.0 (ground arith))
  where
    named :
        (types : List String)
        → types ≢ []
        → ((is_empty types || any (◌==◌ (type_name t)) types) ≡ true)
        → any (◌==◌ (type_name t)) types ≡ true
    named [] n e = absurd (n refl)
    named (x ∷ xs) n e = e

-- In a configuration that passes, a trust rule that ignores matches requests to write only.
pub ignore_only_writes :
    (cfg : Config) (rule : TrustRule) (s : SenderInfo) (items : List ItemInfo) (t : RequestType)
    (attrs : Dict String)
    → validate cfg ≡ none
    → Has (λ r. r ≡ rule) cfg.serve.rules
    → rule.action ≡ "ignore"
    → match_trust_rule rule s items t attrs ≡ true
    → t ≡ write_item
ignore_only_writes cfg rule s items t attrs valid mem ignores hit =
    let is_rule = IsRule-in rule cfg.serve.rules (((validate_iff cfg).0 valid).rules) mem in
    write_type t (ignored_type rule s items t attrs (is_rule.ignores ignores) hit)
