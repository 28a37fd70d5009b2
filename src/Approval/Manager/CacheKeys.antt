-- ===== src/Approval/Manager/CacheKeys.antt =====
-- The keys of the approval cache: `approvalCacheKey` of internal/approval/manager.go.
use Prim.Native.Char.{Char, code}
use Prim.Native.String.{◌++◌ as str_append}
use text.Mathlib.TextLemmas.{
  nil-append, cons-append, head-eq_of_cons-eq, tail-eq_of_cons-eq, append_cancel_left,
}
use secrets_dispatcher.Prelude.{
  String, ◌≡◌, refl, sym, ap, ap₂, ◌∙◌, Bool, true, not, arith, all, eqb,
}
use secrets_dispatcher.Text.{codes}
use secrets_dispatcher.Approval.Manager.Cache.{approval_cache_key}

-- No NUL character, as in every D-Bus name.
abbrev pub no_nul : String → Bool
no_nul s = all (λ c. not (eqb c 0)) (codes s)

-- A key read from its first character on.
nul_cons : (p : String) → str_append "\0" p ≡ String.◌∷◌ "\0" p
nul_cons p = cons-append "\0" "" p ∙ ap (String.◌∷◌ "\0") (nil-append p)

nul_head : (c : Char) (s : String) → no_nul (String.◌∷◌ c s) ≡ true → "\0" ≡ c → ⊥
nul_head c s h e = ground (arith, ap code e)

key_injective :
    (s t p q : String)
    → no_nul s ≡ true
    → no_nul t ≡ true
    → str_append s (str_append "\0" p) ≡ str_append t (str_append "\0" q)
    → (s ≡ t) × (p ≡ q)
key_injective String.[] String.[] p q hs ht e = (
  refl,
  append_cancel_left "\0" p q (append_cancel_left "" (str_append "\0" p) (str_append "\0" q) e),
)
key_injective String.[] (String.◌∷◌ d t) p q hs ht e = absurd (
    nul_head d t ht (
      head-eq_of_cons-eq (
        sym (nul_cons p)
        ∙ sym (nil-append (str_append "\0" p))
        ∙ e
        ∙ cons-append d t (str_append "\0" q))))
key_injective (String.◌∷◌ c s) String.[] p q hs ht e = absurd (
    nul_head c s hs (
      head-eq_of_cons-eq (
        sym (nul_cons q)
        ∙ sym (nil-append (str_append "\0" q))
        ∙ sym e
        ∙ cons-append c s (str_append "\0" p))))
key_injective (String.◌∷◌ c s) (String.◌∷◌ d t) p q hs ht e =
    let e' = sym (cons-append c s (str_append "\0" p)) ∙ e ∙ cons-append d t (str_append "\0" q) in
    let (se, pe) = key_injective s t p q (ground arith) (ground arith) (tail-eq_of_cons-eq e') in
    (ap₂ String.◌∷◌ (head-eq_of_cons-eq e') se, pe)

-- Two senders without a NUL character share a key for no items, and one sender shares none for two.
pub approval_cache_key_injective :
    (s t p q : String)
    → no_nul s ≡ true
    → no_nul t ≡ true
    → approval_cache_key s p ≡ approval_cache_key t q
    → (s ≡ t) × (p ≡ q)
unfolding approval_cache_key
approval_cache_key_injective s t p q hs ht e = key_injective s t p q hs ht e
