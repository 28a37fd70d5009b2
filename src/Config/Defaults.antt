-- ===== src/Config/Defaults.antt =====
-- What `WithDefaults` of internal/config/config.go fills in.
use secrets_dispatcher.Prelude.{
  ℕ, String, ◌≡◌, ◌≢◌, refl, Option, none, some, List, [], ◌∷◌, ◌↔◌, ap₂, All, ◌≤◌, inl, inr, arith,
  eq_iff,
}
use secrets_dispatcher.Config.Buses.{IsUpstream, IsDownstream, sessions, validate_buses_iff}
use secrets_dispatcher.Config.{
  BusConfig, ServeConfig, Config, text_or, number_or, set_or, upstream_or, downstream_or,
  serve_defaults, with_defaults, validate_buses,
}

text_or_idem : (d s : String) → text_or d (text_or d s) ≡ text_or d s
text_or_idem d s = ground arith

number_or_idem : (d n : ℕ) → number_or d (number_or d n) ≡ number_or d n
number_or_idem d n = ground arith

set_or_idem {ℓ} : {A : Type ℓ} (d : A) (o : Option A) → set_or d (set_or d o) ≡ set_or d o
set_or_idem d none = refl
set_or_idem d (some a) = refl

upstream_or_idem : (b : BusConfig) → upstream_or (upstream_or b) ≡ upstream_or b
upstream_or_idem b = ground arith

downstream_or_idem :
    (d : String) (bs : List BusConfig) → downstream_or d (downstream_or d bs) ≡ downstream_or d bs
downstream_or_idem d [] = refl
downstream_or_idem d (b ∷ bs) = refl

serve_defaults_idem :
    (d : String) (s : ServeConfig) → serve_defaults d (serve_defaults d s) ≡ serve_defaults d s
unfolding serve_defaults
serve_defaults_idem d s =
    simp (text_or_idem, number_or_idem, set_or_idem, upstream_or_idem, downstream_or_idem)

-- Filling in the defaults a second time changes nothing.
pub with_defaults_idem :
    (sockets_dir : String) (cfg : Config)
    → with_defaults sockets_dir (with_defaults sockets_dir cfg) ≡ with_defaults sockets_dir cfg
unfolding with_defaults
with_defaults_idem d cfg =
    ap₂ (λ l s. record cfg { listen = l; serve = s }) (text_or_idem "127.0.0.1:8484" cfg.listen)
      (serve_defaults_idem d cfg.serve)

-- A configuration that leaves its buses out is given buses that pass the validation exactly when the
-- directory of the sockets is known, that is, when the environment names a runtime directory.
pub default_buses_iff :
    (sockets_dir : String) (cfg : Config)
    → cfg.serve.upstream.type ≡ ""
    → cfg.serve.downstream ≡ []
    → (validate_buses (with_defaults sockets_dir cfg).serve ≡ none) ↔ (sockets_dir ≢ "")
unfolding with_defaults serve_defaults
default_buses_iff d cfg up down =
    let (to, from) = validate_buses_iff (serve_defaults d cfg.serve) in
    let (wide, back) = ends cfg.serve.upstream cfg.serve.downstream up down in
    ((λ h. wide (to h)), (λ h. from (back h)))
  where
    Ends : BusConfig → List BusConfig → Type 0
    Ends u bs = (IsUpstream u × All IsDownstream bs × (sessions (u ∷ bs) ≤ 1)) ↔ (d ≢ "")

    fixed : Ends (record { type = "session_bus"; path = "" }) (downstream_or d [])
    fixed = (
      (λ h. elim h.1.0 [ inl e ↦ cc | inr p ↦ p.1 ]),
      (λ n. (inl refl, (inr (inr refl, n), tt), omega arith)),
    )

    filled :
        (u : BusConfig) → u.type ≡ "" → upstream_or u ≡ record { type = "session_bus"; path = "" }
    filled u e = ground (arith, eq_iff u.type "")

    ends :
        (u : BusConfig) (bs : List BusConfig)
        → u.type ≡ ""
        → bs ≡ []
        → Ends (upstream_or u) (downstream_or d bs)
    ends u bs e f = rw (f, filled u e) fixed
