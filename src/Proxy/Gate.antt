-- ===== src/Proxy/Gate.antt =====
-- internal/proxy with internal/approval: what reaches the upstream service, and after which decision.
use secrets_dispatcher.Prelude.{
  ℕ, String, ◌≡◌, ◌≢◌, refl, sym, ap, ◌∙◌, Bool, true, false, Option, none, some, List, [], ◌⊎◌,
  inl, inr, if◌then◌else◌, arith,
}
use secrets_dispatcher.Prelude.Dict.{get}
use secrets_dispatcher.Approval.Types.{AutoApproveRule, TrustRule, Error, Request}
use secrets_dispatcher.Approval.Manager.{Manager}
use secrets_dispatcher.Approval.Manager.Decision.{
  verdict, by_rules, cache_hit, first_rule, first_trust, require_approval_order,
}
use secrets_dispatcher.Approval.Manager.Require.{
  Ask, returned, require_approval, Wake, by_done, by_timer, by_context, wake,
}
use secrets_dispatcher.Proxy.Tracker.{Tracker, context_for_sender}
use secrets_dispatcher.Proxy.Upstream.{Call}
use secrets_dispatcher.Proxy.World.{
  World, Peer, Served, Answer, replied, panicked, authorize, await_outcome, outcome_error,
  with_context, in_context,
}

-- How a call that waits was approved: its request was resolved while it waited, and with approval.
abbrev pub WasApproved : World → Peer → String → Type 0
WasApproved w peer id =
    ((peer.during w).1 ≡ by_done)
    × (req : Request) × (get id (peer.during w).0.manager.heap ≡ some req)
    × (req.result ≡ true)

-- What an authorized call was authorized by.
pub data Grounds (w : World) (a : Ask) (peer : Peer) : Type 0 where
  -- the manager approves everything
  disabled : w.manager.disabled ≡ true → Grounds w a peer
  cached : cache_hit w.manager a peer.now ≡ true → Grounds w a peer
  by_auto_approve_rule :
      (rule : AutoApproveRule) → first_rule w.manager a peer.now ≡ some rule → Grounds w a peer
  by_trust_rule :
      (rule : TrustRule)
      → first_trust w.manager a ≡ some rule
      → verdict rule ≡ returned true none
      → Grounds w a peer
  by_user :
      WasApproved
        (record w { manager = (require_approval w.manager a peer.id peer.now).0 })
        peer
        peer.id
      → Grounds w a peer

result_of :
    (m : Manager) (id : String) (o : Option Request)
    → get id m.heap ≡ o
    → outcome_error (wake by_done m id 0).1 ≡ none
    → (req : Request) × (get id m.heap ≡ some req) × (req.result ≡ true)
unfolding wake
result_of m id none e h = absurd (ground arith)
result_of m id (some req) e h = (req, e, ground arith)

woken :
    (fired : Wake) (m : Manager) (id : String) (now : ℕ)
    → outcome_error (wake fired m id now).1 ≡ none
    → (fired ≡ by_done) × (req : Request) × (get id m.heap ≡ some req) × (req.result ≡ true)
unfolding wake
woken by_done m id now h =
    let (req, e, approved) = result_of m id (get id m.heap) refl h in (refl, req, e, approved)
woken by_timer m id now h = cc
woken by_context m id now h = cc

verdict-none :
    (w : World) (peer : Peer) (rule : TrustRule)
    → (await_outcome (verdict rule) w peer).1 ≡ none
    → verdict rule ≡ returned true none
unfolding await_outcome
verdict-none w peer rule h = ground arith

module _ (w : World) (a : Ask) (peer : Peer) where
  asked : World
  asked = record w { manager = (require_approval w.manager a peer.id peer.now).0 }

  grounds_of :
      (d c : Bool) (auto : Option AutoApproveRule) (trust : Option TrustRule)
      → w.manager.disabled ≡ d
      → cache_hit w.manager a peer.now ≡ c
      → first_rule w.manager a peer.now ≡ auto
      → first_trust w.manager a ≡ trust
      → (await_outcome
          (if d
            then returned true none
            else if c
            then returned true none
            else by_rules auto trust peer.id)
          asked
          peer).1
        ≡ none
      → Grounds w a peer
  unfolding asked await_outcome
  grounds_of true c auto trust d f g k h = disabled d
  grounds_of false true auto trust d f g k h = cached f
  grounds_of false false (some rule) trust d f g k h = by_auto_approve_rule rule g
  grounds_of false false none (some rule) d f g k h =
      by_trust_rule rule k (verdict-none asked peer rule h)
  grounds_of false false none none d f g k h =
      by_user
        (woken (peer.during asked).1 (peer.during asked).0.manager peer.id (peer.during asked).2 h)

  -- A call is authorized only on grounds: the manager is disabled, the cache or a rule approves, or the
  -- user does.
  pub authorize-Grounds : (authorize w a peer).1 ≡ none → Grounds w a peer
  unfolding authorize asked
  authorize-Grounds h =
      grounds_of w.manager.disabled (cache_hit w.manager a peer.now)
        (first_rule w.manager a peer.now) (first_trust w.manager a) refl refl refl refl
        (sym (
            ap (λ o. (await_outcome o asked peer).1)
              (require_approval_order w.manager a peer.id peer.now))
          ∙ h)

-- Nothing was forwarded after the given calls.
abbrev pub Stopped : {A : Type 0} → List Call → Served A → Type 0
Stopped reads s = (s.calls ≡ []) ⊎ (s.calls ≡ reads)

-- Nothing was forwarded after the given calls, and the client has got no result.
abbrev pub Refused : {A : Type 0} → List Call → Served A → Type 0
Refused {A} reads s = Stopped reads s × ((a : A) → s.answer ≢ replied a)

-- The call was authorized, in the context that the tracker gave it.
abbrev pub Authorized : World → Ask → Peer → Type 0
Authorized w a peer = (t : Tracker) × Grounds (record w { tracker = t }) a peer

-- If the rest of a handler leaves what has a property, unless its request is authorized, so does the
-- handler.
module _ {A : Type 0} (P : List Call → Answer A → Type 0) (w : World) (a : Ask) (peer : Peer)
    (body : World → Served A) (panics : P [] panicked)
    (settles : (v : World)
      → P (body v).calls (body v).answer ⊎ ((authorize v a peer).1 ≡ none)) where
  in_context_or_Authorized :
      (o : Option (Tracker × ℕ))
      → P (in_context o w peer.sender body).calls (in_context o w peer.sender body).answer
        ⊎ Authorized w a peer
  in_context_or_Authorized none = inl panics
  in_context_or_Authorized (some (t, id)) = elim (settles (record w { tracker = t })) [
    | inl p ↦ inl p
    | inr h ↦ inr (t, authorize-Grounds (record w { tracker = t }) a peer h)
  ]

  pub body_or_Authorized :
      P (with_context w peer body).calls (with_context w peer body).answer ⊎ Authorized w a peer
  unfolding with_context
  body_or_Authorized =
      in_context_or_Authorized (context_for_sender w.tracker peer.sender peer.connected)

-- If what a refusal leaves has a property, so has what the decision leaves, unless it is an approval.
module _ {A : Type 0} (P : List Call → Answer A → Type 0)
    (decided : World × Option Error → Served A)
    (stops : (v : World) (e : Error)
      → P (decided (v, some e)).calls (decided (v, some e)).answer) where
  pub refused_or_approved :
      (r : World × Option Error) → P (decided r).calls (decided r).answer ⊎ (r.1 ≡ none)
  refused_or_approved (v, none) = inr refl
  refused_or_approved (v, some e) = inl (stops v e)

  pub property_or_Authorized :
      (w : World) (a : Ask) (peer : Peer)
      → P [] panicked
      → P
          (with_context w peer (λ v. decided (authorize v a peer))).calls
          (with_context w peer (λ v. decided (authorize v a peer))).answer
        ⊎ Authorized w a peer
  property_or_Authorized w a peer panics =
      body_or_Authorized P w a peer (λ v. decided (authorize v a peer)) panics
        (λ v. refused_or_approved (authorize v a peer))
