-- ===== src/Proxy/Prompter/Clean.antt =====
-- internal/proxy/prompter.go: the bridge knows what it exported, and leaves nothing behind.
use secrets_dispatcher.Prelude.{
  String, ◌≡◌, refl, sym, ap, subst, ◌∙◌, Bool, true, false, not, ◌||◌, ◌==◌, eq_iff, Option, none,
  some, List, [], ◌∷◌, any, if_elim, arith, if◌then◌else◌,
}
use secrets_dispatcher.Prelude.Dict.{Dict, get, erase, get-insert, get-erase}
use secrets_dispatcher.Approval.Manager.Effects.{any-keep}
use secrets_dispatcher.Proxy.Upstream.{Reply}
use secrets_dispatcher.Proxy.Prompter.{
  Bridge, new_bridge, Claim, claim_failed, primary_owner, other_owner, claimed, activate,
  has_callback, export_callback, begun, begin_prompting, unexport_callback, stop_prompting,
  erase_all, close_bridge, callback_target,
}

-- What happens to a bridge, with the answers of the buses.
pub data PromptEvent : Type 0 where
  activates : Claim → Bool → PromptEvent
  begins : String → String → Bool → Reply (Unit {0}) → PromptEvent
  stops : String → Reply (Unit {0}) → PromptEvent
  closes : PromptEvent

unfoldable pub after_event : Bridge → PromptEvent → Bridge
after_event b (activates claim exports) = (activate b claim exports).0
after_event b (begins path keyring exports reply) = (begin_prompting b path keyring exports reply).0
after_event b (stops path reply) = (stop_prompting b path reply).0
after_event b closes = close_bridge b

unfoldable pub after_events : Bridge → List PromptEvent → Bridge
unfolding after_event
after_events b [] = b
after_events b (e ∷ es) = after_events (after_event b e) es

abbrev is_there : Option String → Bool
is_there none = false
is_there (some k) = true

gone : (o : Option String) → is_there o ≡ false → o ≡ none
gone none h = refl
gone (some k) h = absurd (cc h)

-- The bridge's own maps agree with the buses.
record Tidy (b : Bridge) : Type 0 where
  same : (p : String) → has_callback b p ≡ is_there (get p b.exported)
  named : b.owned ≡ b.name_held

new-Tidy : Tidy new_bridge
unfolding get
new-Tidy = record { same = λ p. refl; named = refl }

activate-Tidy :
    (b : Bridge) (claim : Claim) (exports : Bool) → Tidy b → Tidy (activate b claim exports).0
unfolding activate
activate-Tidy b claim exports t =
    if_elim (λ (r : Bridge × Bool). Tidy r.0) (b.closed || b.active) _ _ t (go claim)
  where
    go : (claim : Claim) → Tidy (claimed claim exports b).0
    go claim_failed = t
    go other_owner = t
    go primary_owner =
        if_elim (λ (r : Bridge × Bool). Tidy r.0) exports _ _
          (record { same = t.same; named = refl }) (record { same = t.same; named = refl })

export-Tidy :
    (b : Bridge) (path keyring : String) (exports : Bool)
    → Tidy b
    → Tidy (export_callback b path keyring exports).0
unfolding export_callback
export-Tidy b path keyring exports t =
    if_elim (λ (r : Bridge × Bool). Tidy r.0) (has_callback b path) _ _ t
      (if_elim (λ (r : Bridge × Bool). Tidy r.0) exports _ _
        (record {
          same = λ p.
              ground (
                arith,
                get-insert path p keyring b.exported,
                eq_iff p path,
                eq_iff path p,
                t.same p,
              );
          named = t.named;
        })
        t)

unexport-Tidy : (b : Bridge) (path : String) → Tidy b → Tidy (unexport_callback b path)
unfolding unexport_callback
unexport-Tidy b path t = if_elim Tidy (not (has_callback b path)) _ _ t (record {
  same = λ p. ground (
    arith,
    get-erase path p b.exported,
    any-keep path p b.callbacks,
    eq_iff p path,
    eq_iff path p,
    t.same p,
  );
  named = t.named;
})

-- A path that is not exported is not after the loop either, and the others are erased.
erased :
    (ps : List String) (m : Dict String) (p : String)
    → (any (◌==◌ p) ps ≡ false → get p m ≡ none)
    → get p (erase_all ps m) ≡ none
unfolding erase_all
erased [] m p h = h refl
erased (q ∷ ps) m p h =
    erased ps (erase q m) p (λ away. ground (arith, get-erase q p m, eq_iff q p, eq_iff p q, h))

close-Tidy : (b : Bridge) → Tidy b → Tidy (close_bridge b)
unfolding close_bridge
close-Tidy b t = record {
  same = λ p. sym (
      ap is_there (
        erased b.callbacks b.exported p (λ away. gone (get p b.exported) (sym (t.same p) ∙ away))));
  named = unnamed b.owned b.name_held t.named;
}
  where
    unnamed : (o n : Bool) → o ≡ n → false ≡ (if o then false else n)
    unnamed true n h = refl
    unnamed false n h = h

begun-same : (r : Bridge × Bool) (reply : Reply (Unit {0})) → (begun r reply).0 ≡ r.0
begun-same (b, true) reply = refl
begun-same (b, false) reply = refl

event-Tidy : (b : Bridge) (e : PromptEvent) → Tidy b → Tidy (after_event b e)
unfolding after_event begin_prompting stop_prompting
event-Tidy b (activates claim exports) t = activate-Tidy b claim exports t
event-Tidy b (begins path keyring exports reply) t =
    subst Tidy (sym (begun-same (export_callback b path keyring exports) reply))
      (export-Tidy b path keyring exports t)
event-Tidy b (stops path reply) t = unexport-Tidy b path t
event-Tidy b closes t = close-Tidy b t

events-Tidy : (b : Bridge) (es : List PromptEvent) → Tidy b → Tidy (after_events b es)
unfolding after_events
events-Tidy b [] t = t
events-Tidy b (e ∷ es) t = events-Tidy (after_event b e) es (event-Tidy b e t)

-- A bridge that is closed after these events.
abbrev pub closed_after : List PromptEvent → Bridge
closed_after es = close_bridge (after_events new_bridge es)

-- Whatever happened to a new bridge, when it is closed no callback proxy stands on the front connection,
-- and the prompter's name is free; and the closed bridge does not take the name again.
pub closed_clean :
    (es : List PromptEvent) (path : String) (claim : Claim) (exports : Bool)
    → (callback_target (closed_after es) path ≡ none)
      × ((closed_after es).name_held ≡ false)
      × (activate (closed_after es) claim exports ≡ (closed_after es, true))
unfolding close_bridge callback_target activate
closed_clean es path claim exports =
    let b = after_events new_bridge es in
    let t = close-Tidy b (events-Tidy new_bridge es new-Tidy) in
    (gone (get path (close_bridge b).exported) (sym (t.same path)), sym t.named, refl)
