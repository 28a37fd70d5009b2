-- ===== src/Api/Handlers/Routes.antt =====
-- internal/api/handlers.go and server.go: the paths that a client builds reach the request they name.
use Prim.Native.Char.{Char, code}
use Prim.Native.String.{String}
use Prim.Native.String
use text.Mathlib.TextLemmas.{
  nil-append, cons-append, append-nil, append_assoc, append_cancel_right, cons-ne-nil, append_inj,
  length-append,
}
use Prim.Native.String.{count}
use secrets_dispatcher.Prelude.{
  ◌+◌, ◌≡◌, refl, sym, ap, ◌∙◌, Bool, true, false, Option, some, [], ◌∷◌, ◌==◌, eqb_iff, eq_iff,
  eq_refl, inl, inr, Bool-cases, Option-cases, arith, if◌then◌else◌,
}
use secrets_dispatcher.Text.{concat, cut_prefix, has_prefix}
use secrets_dispatcher.Approval.Types.{Error}
use secrets_dispatcher.Approval.Manager.{Manager}
use secrets_dispatcher.Approval.Manager.Resolve.{deny, cancel, resolve}
use secrets_dispatcher.Api.Resolver.{
  GpgRunner, Outside, resolver_approve, resolver_approve_and_auto_approve,
}
use secrets_dispatcher.Api.Handlers.{
  cut_suffix, has_suffix, extracted, id_has_slash, extract_request_id, action_answered,
  pending_prefix, with_action, pending_route, handle_approve, handle_approve_and_auto_approve,
  handle_deny, handle_cancel, ActionReply, status,
}

cut_prefix-append : (p s : String) → cut_prefix p (String.◌++◌ p s) ≡ some s
unfolding cut_prefix
cut_prefix-append String.[] s = ap some (nil-append s)
cut_prefix-append (String.◌∷◌ c p) s =
    rw (cons-append c p s, (eqb_iff (code c) (code c)).1 refl) (cut_prefix-append p s)

-- A text is shorter than itself after another character.
no_longer : (c : Char) (s suffix : String) → (String.◌∷◌ c (String.◌++◌ s suffix) == suffix) ≡ false
no_longer c s suffix = elim (Bool-cases (String.◌∷◌ c (String.◌++◌ s suffix) == suffix)) [
  | inr e ↦ e
  | inl e ↦ absurd (
      cons-ne-nil c s (
        append_cancel_right (String.◌∷◌ c s) "" suffix
          (cons-append c s suffix ∙ (eq_iff _ suffix).0 e ∙ sym (nil-append suffix))))
]

cut_all : (s : String) → cut_suffix s s ≡ some ""
unfolding cut_suffix
cut_all String.[] = refl
cut_all (String.◌∷◌ c s) = rw (eq_refl (String.◌∷◌ c s)) refl

cut_suffix-append : (s suffix : String) → cut_suffix suffix (String.◌++◌ s suffix) ≡ some s
unfolding cut_suffix
cut_suffix-append String.[] suffix = rw (nil-append suffix) (cut_all suffix)
cut_suffix-append (String.◌∷◌ c s) suffix =
    rw (cons-append c s suffix, no_longer c s suffix, cut_suffix-append s suffix) refl

-- What is cut off, and the suffix, are the text.
cut_suffix-joined : (suffix s u : String) → cut_suffix suffix s ≡ some u → s ≡ String.◌++◌ u suffix
unfolding cut_suffix
cut_suffix-joined suffix String.[] u h = elim (Bool-cases ("" == suffix)) [
  | inl e ↦
      let cut : some "" ≡ some u = sym (rw e refl) ∙ h in
      let nothing : "" ≡ u = cc cut in
      (eq_iff "" suffix).0 e ∙ sym (nil-append suffix) ∙ ap (λ x. String.◌++◌ x suffix) nothing
  | inr e ↦ absurd (ground arith)
]
cut_suffix-joined suffix (String.◌∷◌ c s) u h = elim (Bool-cases (String.◌∷◌ c s == suffix)) [
  | inl e ↦
      let cut : some "" ≡ some u = sym (rw e refl) ∙ h in
      let nothing : "" ≡ u = cc cut in
      (eq_iff (String.◌∷◌ c s) suffix).0 e
      ∙ sym (nil-append suffix)
      ∙ ap (λ x. String.◌++◌ x suffix) nothing
  | inr e ↦ elim (Option-cases (cut_suffix suffix s)) [
    | inl f ↦ absurd (ground (arith, e, f, h))
    | inr (v, f) ↦
        let cut : some (String.◌∷◌ c v) ≡ some u = sym (rw (e, f) refl) ∙ h in
        let whole : String.◌∷◌ c v ≡ u = cc cut in
        ap (String.◌∷◌ c) (cut_suffix-joined suffix s v f)
        ∙ sym (cons-append c v suffix)
        ∙ ap (λ x. String.◌++◌ x suffix) whole
  ]
]

-- Two texts whose ends, of one length, differ, do not end alike.
ends_apart :
    (u a x b : String)
    → count a ≡ count b
    → (a == b) ≡ false
    → has_suffix (String.◌++◌ u a) (String.◌++◌ x b) ≡ false
unfolding has_suffix
ends_apart u a x b same apart =
    elim (Option-cases (cut_suffix (String.◌++◌ x b) (String.◌++◌ u a))) [
      | inl e ↦ rw (has_suffix, e) refl
      | inr (v, e) ↦
          let whole : String.◌++◌ u a ≡ String.◌++◌ (String.◌++◌ v x) b =
            cut_suffix-joined (String.◌++◌ x b) (String.◌++◌ u a) v e ∙ sym (append_assoc v x b) in
          let sizes : count u + count a ≡ count (String.◌++◌ v x) + count b =
            sym (length-append u a) ∙ ap count whole ∙ length-append (String.◌++◌ v x) b in
          let ends : a ≡ b = (append_inj whole (omega arith)).1 in
          absurd (cc (apart, (eq_iff a b).1 ends))
    ]

-- The path of an action on a request.
abbrev pub path_of : String → String → String
path_of id action = concat (pending_prefix ∷ id ∷ action ∷ [])

has_prefix-path : (id action : String) → has_prefix (path_of id action) pending_prefix ≡ true
unfolding has_prefix
has_prefix-path id action =
    rw (has_prefix, cut_prefix-append pending_prefix (String.◌++◌ id (String.◌++◌ action ""))) refl

ends_with :
    (id action : String) → path_of id action ≡ String.◌++◌ (String.◌++◌ pending_prefix id) action
ends_with id action = rw (append-nil action) (sym (append_assoc pending_prefix id action))

has_suffix-path : (id action : String) → has_suffix (path_of id action) action ≡ true
unfolding has_suffix
has_suffix-path id action =
    rw (ends_with id action, has_suffix, cut_suffix-append (String.◌++◌ pending_prefix id) action)
      refl

extract-path :
    (id action : String)
    → (id == "") ≡ false
    → id_has_slash id ≡ false
    → extract_request_id (path_of id action) pending_prefix action ≡ extracted id
unfolding extract_request_id
extract-path id action given plain =
    rw
      (
        has_prefix-path id action,
        has_suffix-path id action,
        cut_prefix-append pending_prefix (String.◌++◌ id (String.◌++◌ action "")),
        append-nil action,
        cut_suffix-append id action,
        given,
        plain,
      )
      refl

-- A path that ends in one action does not end in another.
other_action :
    (id action start end x b : String)
    → action ≡ String.◌++◌ start end
    → count end ≡ count b
    → (end == b) ≡ false
    → has_suffix (path_of id action) (String.◌++◌ x b) ≡ false
other_action id action start end x b e same apart =
    let rest = String.◌++◌ pending_prefix id in
    rw (ends_with id action, e, sym (append_assoc rest start end))
      (ends_apart (String.◌++◌ rest start) end x b same apart)

-- The branches of the route.
by_ends :
    Bool → Bool → Bool → Bool → (a b c d : Manager × ActionReply) → Manager → Manager × ActionReply
by_ends p q r t a b c d m =
    if p then a else if q then b else if r then c else if t then d else (m, status 404)

module _ (g : GpgRunner) (m : Manager) (id : String) (o : Outside) (given : (id == "") ≡ false)
    (plain : id_has_slash id ≡ false) where
  dispatched :
      (path : String)
      → pending_route g m true path o
        ≡ by_ends
            (has_suffix path "/approve-and-auto-approve")
            (has_suffix path "/approve")
            (has_suffix path "/deny")
            (has_suffix path "/cancel")
            (handle_approve_and_auto_approve g m true path o)
            (handle_approve g m true path o)
            (handle_deny m true path o.now)
            (handle_cancel m true path o.now)
            m
  unfolding pending_route by_ends
  dispatched path = refl

  taken :
      (action : String) (act : String → Manager × Option Error)
      → with_action action m true (path_of id action) act ≡ action_answered (act id)
  taken action act = rw (extract-path id action given plain, given) refl

  both_handled :
      handle_approve_and_auto_approve g m true (path_of id "/approve-and-auto-approve") o
      ≡ action_answered (resolver_approve_and_auto_approve g m id o)
  unfolding handle_approve_and_auto_approve
  both_handled = taken "/approve-and-auto-approve" (λ j. resolver_approve_and_auto_approve g m j o)

  to_both :
      pending_route g m true (path_of id "/approve-and-auto-approve") o
      ≡ action_answered (resolver_approve_and_auto_approve g m id o)
  unfolding by_ends
  to_both =
      dispatched (path_of id "/approve-and-auto-approve")
      ∙ rw (has_suffix-path id "/approve-and-auto-approve") both_handled

  approve_handled :
      handle_approve g m true (path_of id "/approve") o
      ≡ action_answered (resolver_approve g m id o)
  unfolding handle_approve
  approve_handled = taken "/approve" (λ j. resolver_approve g m j o)

  to_approve :
      pending_route g m true (path_of id "/approve") o ≡ action_answered (resolver_approve g m id o)
  unfolding by_ends
  to_approve =
      dispatched (path_of id "/approve")
      ∙ rw
          (
            other_action id "/approve" "" "/approve" "/approve-and-auto" "-approve" refl refl refl,
            has_suffix-path id "/approve",
          )
          approve_handled

  deny_handled :
      handle_deny m true (path_of id "/deny") o.now ≡ action_answered (resolve deny m id o.now)
  unfolding handle_deny
  deny_handled = taken "/deny" (λ j. resolve deny m j o.now)

  to_deny :
      pending_route g m true (path_of id "/deny") o ≡ action_answered (resolve deny m id o.now)
  unfolding by_ends
  to_deny =
      dispatched (path_of id "/deny")
      ∙ rw
          (
            other_action id "/deny" "" "/deny" "/approve-and-auto-ap" "prove" refl refl refl,
            other_action id "/deny" "" "/deny" "/ap" "prove" refl refl refl,
            has_suffix-path id "/deny",
          )
          deny_handled

  cancel_handled :
      handle_cancel m true (path_of id "/cancel") o.now
      ≡ action_answered (resolve cancel m id o.now)
  unfolding handle_cancel
  cancel_handled = taken "/cancel" (λ j. resolve cancel m j o.now)

  to_cancel :
      pending_route g m true (path_of id "/cancel") o ≡ action_answered (resolve cancel m id o.now)
  unfolding by_ends
  to_cancel =
      dispatched (path_of id "/cancel")
      ∙ rw
          (
            other_action id "/cancel" "" "/cancel" "/approve-and-auto-" "approve" refl refl refl,
            other_action id "/cancel" "" "/cancel" "/" "approve" refl refl refl,
            other_action id "/cancel" "/c" "ancel" "" "/deny" refl refl refl,
            has_suffix-path id "/cancel",
          )
          cancel_handled

  -- A POST to the path of an action on an ID, which is not empty and has no slash, takes this action
  -- with this ID, for each of the four actions, and its result decides the status.
  pub route-path :
      (pending_route g m true (path_of id "/approve-and-auto-approve") o
        ≡ action_answered (resolver_approve_and_auto_approve g m id o))
      × (pending_route g m true (path_of id "/approve") o
          ≡ action_answered (resolver_approve g m id o))
      × (pending_route g m true (path_of id "/deny") o ≡ action_answered (resolve deny m id o.now))
      × (pending_route g m true (path_of id "/cancel") o
          ≡ action_answered (resolve cancel m id o.now))
  route-path = (to_both, to_approve, to_deny, to_cancel)
