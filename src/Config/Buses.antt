-- ===== src/Config/Buses.antt =====
-- The buses that `Validate` of internal/config/config.go lets through.
use secrets_dispatcher.Prelude.{
  ℕ, suc, ◌+◌, ◌≤◌, String, ◌≡◌, ◌≢◌, refl, Bool, true, false, none, List, [], ◌∷◌, ◌↔◌, ◌⊎◌, All,
  arith, eq_iff, ◌==◌, differ, if◌then◌else◌,
}
use secrets_dispatcher.Config.{
  BusConfig, ServeConfig, validate_upstream, validate_downstream, validate_buses,
}

-- A socket needs a path.
abbrev pub IsUpstream : BusConfig → Type 0
IsUpstream b = (b.type ≡ "session_bus") ⊎ ((b.type ≡ "socket") × (b.path ≢ ""))

abbrev pub IsDownstream : BusConfig → Type 0
IsDownstream b =
    (b.type ≡ "session_bus") ⊎ (((b.type ≡ "socket") ⊎ (b.type ≡ "sockets")) × (b.path ≢ ""))

-- How many ends are on the session bus.
abbrev pub count : Bool → ℕ
count b = if b then 1 else 0

abbrev pub sessions : List BusConfig → ℕ
sessions [] = 0
sessions (b ∷ bs) = count (b.type == "session_bus") + sessions bs

not_both : (t : String) → t ≡ "session_bus" → t ≡ "socket" → ⊥
not_both t e f = differ t "session_bus" "socket" refl e f

validate_upstream_iff : (b : BusConfig) → (validate_upstream b ≡ none) ↔ IsUpstream b
unfolding validate_upstream
validate_upstream_iff b = (
  (λ h. ground (
    arith,
    eq_iff b.type "session_bus",
    eq_iff b.type "socket",
    eq_iff b.path "",
    not_both b.type,
  )),
  (λ h. ground (
    arith,
    eq_iff b.type "session_bus",
    eq_iff b.type "socket",
    eq_iff b.path "",
    not_both b.type,
  )),
)

validate_downstream_iff :
    (i : ℕ) (has : Bool) (ds : List BusConfig)
    → ((validate_downstream i has ds).0 ≡ none)
      ↔ (All IsDownstream ds × (count has + sessions ds ≤ 1))
unfolding validate_downstream
validate_downstream_iff i true [] = ((λ h. (tt, omega arith)), (λ h. refl))
validate_downstream_iff i false [] = ((λ h. (tt, omega arith)), (λ h. refl))
validate_downstream_iff i has (d ∷ ds) = (
  (λ h. ground (
    arith,
    eq_iff d.type "session_bus",
    eq_iff d.type "socket",
    eq_iff d.type "sockets",
    eq_iff d.path "",
    validate_downstream_iff (suc i) true ds,
    validate_downstream_iff (suc i) has ds,
  )),
  (λ h. ground (
    arith,
    eq_iff d.type "session_bus",
    eq_iff d.type "socket",
    eq_iff d.type "sockets",
    eq_iff d.path "",
    validate_downstream_iff (suc i) true ds,
    validate_downstream_iff (suc i) has ds,
  )),
)

downstream_flag :
    (i : ℕ) (has : Bool) (ds : List BusConfig)
    → (validate_downstream i has ds).0 ≡ none
    → count (validate_downstream i has ds).1 ≡ count has + sessions ds
unfolding validate_downstream
downstream_flag i true [] h = refl
downstream_flag i false [] h = refl
downstream_flag i has (d ∷ ds) h = ground (
  arith,
  eq_iff d.type "session_bus",
  eq_iff d.type "socket",
  eq_iff d.type "sockets",
  downstream_flag (suc i) true ds,
  downstream_flag (suc i) has ds,
)

-- The buses pass exactly when each end has a type of its side, each socket has a path, and at most one
-- end, upstream or downstream, is on the session bus.
pub validate_buses_iff :
    (s : ServeConfig)
    → (validate_buses s ≡ none) ↔ (
        IsUpstream s.upstream
        × All IsDownstream s.downstream
        × (sessions (s.upstream ∷ s.downstream) ≤ 1))
unfolding validate_buses
validate_buses_iff s = (
  (λ h. ground (
    arith,
    validate_upstream_iff s.upstream,
    validate_downstream_iff 0 false s.downstream,
    downstream_flag 0 false s.downstream,
  )),
  (λ h. ground (
    arith,
    validate_upstream_iff s.upstream,
    validate_downstream_iff 0 false s.downstream,
    downstream_flag 0 false s.downstream,
  )),
)
