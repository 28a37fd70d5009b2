-- ===== src/Proxy/Tracker/Sound.antt =====
-- An invariant of the tracker of internal/proxy/tracker.go, over sequences of calls and signals: how the
-- requests in flight and the cancelled contexts go together.
use secrets_dispatcher.Prelude.{
  ℕ, suc, ◌<◌, String, ◌≡◌, refl, sym, ap, ap₂, if_elim, Option-cases, ◌∙◌, Bool, true, false, not,
  ◌&&◌, ◌||◌, Option, none, some, List, [], ◌∷◌, ◌↔◌, arith, eqb, eqb_iff, any, ◌==◌, eq_iff,
  Bool-cases, inl, inr, subst, eq_refl,
}
use secrets_dispatcher.Prelude.Dict.{Dict, get, insert}
use secrets_dispatcher.Proxy.Tracker.{
  Tracker, new_tracker, ids_at, register, release, release_in, context_for_sender, owner_changed,
  Value, text, other, client_disconnected, process_signal, Signal,
}
use secrets_dispatcher.Proxy.Tracker.Live.{
  tracked, is_cancelled, ids_at-insert, release_only, disconnected_only,
}

-- The request is in flight for some sender.
abbrev pub InFlight : Tracker → ℕ → Type 0
InFlight t j = (r : String) × (tracked t r j ≡ true)

pub record Sound (t : Tracker) : Type 0 where
  -- what is in flight was given out, and has one sender
  pub given : (r : String) (j : ℕ) → tracked t r j ≡ true → j < t.next_id
  pub one_sender : (r s : String) (j : ℕ) → tracked t r j ≡ true → tracked t s j ≡ true → r ≡ s
  -- what is cancelled was given out, and is not in flight
  pub past : (j : ℕ) → is_cancelled t j ≡ true → j < t.next_id
  pub alive : (r : String) (j : ℕ) → tracked t r j ≡ true → is_cancelled t j ≡ false
  -- what was given out is in flight or cancelled
  pub settled : (j : ℕ) → j < t.next_id → is_cancelled t j ≡ false → InFlight t j

new_tracker-Sound : Sound new_tracker
unfolding get
new_tracker-Sound = record {
  given = λ r j h. cc;
  one_sender = λ r s j h g. cc;
  past = λ j h. cc;
  alive = λ r j h. refl;
  settled = λ j h g. absurd (omega arith);
}

-- A step that ends some of a sender's requests, those that `ended` picks out, and cancels them.
record Ends (t t' : Tracker) (sender : String) (ended : String → ℕ → Bool) (hit : ℕ → Bool)
    : Type 0 where
  same_next : t'.next_id ≡ t.next_id
  left : (r : String) (j : ℕ) → tracked t' r j ≡ (tracked t r j && not (ended r j))
  cancels : (j : ℕ) → is_cancelled t' j ≡ (is_cancelled t j || hit j)
  hits : (j : ℕ) → hit j ≡ true → (tracked t sender j ≡ true) × (ended sender j ≡ true)
  all_hit : (r : String) (j : ℕ) → tracked t r j ≡ true → ended r j ≡ true → hit j ≡ true

module _ (t t' : Tracker) (sender : String) (ended : String → ℕ → Bool) (hit : ℕ → Bool)
    (e : Ends t t' sender ended hit) (v : Sound t) where
  ends-alive : (r : String) (j : ℕ) → tracked t r j ≡ true → ended r j ≡ false → hit j ≡ false
  ends-alive r j h n = elim (Bool-cases (hit j)) [
    | inr miss ↦ miss
    | inl got ↦
        let (mine, over) = e.hits j got in
        absurd (ground (arith, subst (λ s. ended s j ≡ true) (v.one_sender sender r j mine h) over))
  ]

  ends-settled : (j : ℕ) → is_cancelled t' j ≡ false → InFlight t j → InFlight t' j
  ends-settled j g (r, h) = (r, ground (arith, e.left r j, e.cancels j, e.all_hit r j))

  Ends-Sound : Sound t'
  Ends-Sound = record {
    given = λ r j h. rw e.same_next (v.given r j (ground (arith, e.left r j)));
    one_sender =
        λ r s j h g. v.one_sender r s j (ground (arith, e.left r j)) (ground (arith, e.left s j));
    past =
        λ j h. rw e.same_next (ground (arith, e.cancels j, v.past j, e.hits j, v.given sender j));
    alive = λ r j h. ground (arith, e.left r j, e.cancels j, v.alive r j, ends-alive r j);
    settled =
        λ j h g. ends-settled j g (v.settled j (rw e.same_next at h) (ground (arith, e.cancels j)));
  }

release-next :
    (o : Option (Dict (List ℕ))) (t : Tracker) (sender : String) (id : ℕ)
    → (release_in o t sender id).next_id ≡ t.next_id
unfolding release_in
release-next none t sender id = refl
release-next (some m) t sender id = ground arith

release-Sound : (t : Tracker) (sender : String) (id : ℕ) → Sound t → Sound (release t sender id)
release-Sound t sender id v =
    Ends-Sound t (release t sender id) sender (λ r j. sender == r && eqb id j)
      (λ j. tracked t sender id && eqb id j)
      (record {
        same_next = unfold release in release-next t.clients t sender id;
        left = λ r j. (release_only t sender r id j).0;
        cancels = λ j. (release_only t sender sender id j).1;
        hits = λ j h. ground (
          arith,
          eqb_iff id j,
          eq_refl sender,
          ap (tracked t sender) ((eqb_iff id j).0 (ground arith)),
        );
        all_hit = λ r j h e. ground (
          arith,
          ap₂ (tracked t) ((eq_iff sender r).0 (ground arith)) ((eqb_iff id j).0 (ground arith)),
        );
      })
      v

disconnected-Sound :
    (t : Tracker) (sender : String) → Sound t → Sound (client_disconnected t sender)
disconnected-Sound t sender v =
    Ends-Sound t (client_disconnected t sender) sender (λ r j. sender == r)
      (λ j. tracked t sender j)
      (record {
        same_next = unfold client_disconnected in refl;
        left = λ r j. (disconnected_only t sender r j).0 ∙ swap (sender == r) (tracked t r j);
        cancels = λ j.
            (disconnected_only t sender sender j).1
            ∙ or_swap (tracked t sender j) (is_cancelled t j);
        hits = λ j h. (h, eq_refl sender);
        all_hit = λ r j h e. ap (λ s. tracked t s j) ((eq_iff sender r).0 e) ∙ h;
      })
      v
  where
    swap : (a b : Bool) → (not a && b) ≡ (b && not a)
    swap a b = ground arith

    or_swap : (a b : Bool) → (a || b) ≡ (b || a)
    or_swap a b = ground arith

abbrev registered : Dict (List ℕ) → Tracker → String → Tracker
registered m t sender = record t {
  clients = some (insert sender (t.next_id ∷ ids_at sender (some m)) m);
  next_id = suc t.next_id;
}

-- A registration gives out the next number, to the sender alone.
registered-only :
    (m : Dict (List ℕ)) (t : Tracker) (sender r : String) (j : ℕ)
    → t.clients ≡ some m
    → tracked (registered m t sender) r j ≡ ((sender == r && eqb j t.next_id) || tracked t r j)
registered-only m t sender r j e =
    ap (any (eqb j)) (ids_at-insert sender r (t.next_id ∷ ids_at sender (some m)) m)
    ∙ elim (Bool-cases (sender == r)) [
      | inl s ↦ rw s (
          ap (λ b. eqb j t.next_id || b)
            (ap₂ (λ k o. any (eqb j) (ids_at k o)) ((eq_iff sender r).0 s) (sym e)))
      | inr n ↦ rw n (ap (λ o. any (eqb j) (ids_at r o)) (sym e))
    ]

module _ (m : Dict (List ℕ)) (t : Tracker) (sender : String) (known : t.clients ≡ some m)
    (v : Sound t) where
  only :
      (r : String) (j : ℕ)
      → tracked (registered m t sender) r j ≡ ((sender == r && eqb j t.next_id) || tracked t r j)
  only r j = registered-only m t sender r j known

  -- The new request's number was not in flight.
  fresh : (r : String) (j : ℕ) → tracked t r j ≡ true → eqb j t.next_id ≡ false
  fresh r j h = ground (arith, v.given r j h, eqb_iff j t.next_id)

  now_in_flight :
      (j : ℕ) → j < suc t.next_id → is_cancelled t j ≡ false → InFlight (registered m t sender) j
  now_in_flight j h g = elim (Bool-cases (eqb j t.next_id)) [
    | inl e ↦ (sender, ground (arith, only sender j, eq_refl sender))
    | inr n ↦ older (v.settled j (ground (arith, eqb_iff j t.next_id)) g)
  ]
    where
      older : InFlight t j → InFlight (registered m t sender) j
      older (r, h) = (r, ground (arith, only r j))

  registered-Sound : Sound (registered m t sender)
  registered-Sound = record {
    given = λ r j h. ground (arith, only r j, v.given r j, eqb_iff j t.next_id);
    one_sender = λ r s j h g. ground (
      arith,
      only r j,
      only s j,
      v.one_sender r s j,
      fresh r j,
      fresh s j,
      eq_iff sender r,
      eq_iff sender s,
    );
    past = λ j h. ground (arith, v.past j h);
    alive = λ r j h. ground (arith, only r j, v.alive r j, v.past j, eqb_iff j t.next_id);
    settled = now_in_flight;
  }

context-Sound :
    (t t' : Tracker) (sender : String) (connected : Bool) (id : ℕ)
    → Sound t
    → context_for_sender t sender connected ≡ some (t', id)
    → Sound t'
unfolding context_for_sender register
context-Sound t t' sender connected id v h = elim (Option-cases t.clients) [
  | inl closed ↦ absurd (panics (rw closed at h))
  | inr (m, known) ↦
      let w = registered-Sound m t sender known v in
      subst Sound (given_back (rw known at h))
        (if_elim Sound connected _ _ w (release-Sound (registered m t sender) sender t.next_id w))
]
  where
    panics : ◌≡◌ {A = Option (Tracker × ℕ)} none (some (t', id)) → ⊥
    panics e = cc

    given_back :
        {u : Tracker}
        → {n : ℕ} → ◌≡◌ {A = Option (Tracker × ℕ)} (some (u, n)) (some (t', id))
        → u ≡ t'
    given_back e = cc

owner_changed-Sound : (t : Tracker) (body : List Value) → Sound t → Sound (owner_changed t body)
unfolding owner_changed
owner_changed-Sound t [] v = v
owner_changed-Sound t (other ∷ body) v = v
owner_changed-Sound t (text a ∷ []) v = v
owner_changed-Sound t (text a ∷ other ∷ body) v = v
owner_changed-Sound t (text a ∷ text b ∷ []) v = v
owner_changed-Sound t (text a ∷ text b ∷ other ∷ body) v = v
owner_changed-Sound t (text a ∷ text b ∷ text c ∷ x ∷ body) v = v
owner_changed-Sound t (text a ∷ text b ∷ text c ∷ []) v =
    if_elim Sound _ _ _ (disconnected-Sound t b v) v

process_signal-Sound : (t : Tracker) (s : Signal) → Sound t → Sound (process_signal t s)
unfolding process_signal
process_signal-Sound t s v = if_elim Sound _ _ _ (owner_changed-Sound t s.body v) v

-- The trackers that calls and signals lead to, before the tracker is closed.
pub data Reach : Tracker → Type 0 where
  start : Reach new_tracker
  calls :
      {t t' : Tracker}
      → Reach t
      → (sender : String) (connected : Bool) (id : ℕ)
      → context_for_sender t sender connected ≡ some (t', id)
      → Reach t'
  releases : {t : Tracker} → Reach t → (sender : String) (id : ℕ) → Reach (release t sender id)
  signals : {t : Tracker} → Reach t → (s : Signal) → Reach (process_signal t s)

Reach-Sound : {t : Tracker} → Reach t → Sound t
Reach-Sound start = new_tracker-Sound
Reach-Sound (calls {t} {t'} reach sender connected id e) =
    context-Sound t t' sender connected id (Reach-Sound reach) e
Reach-Sound (releases {t} reach sender id) = release-Sound t sender id (Reach-Sound reach)
Reach-Sound (signals {t} reach s) = process_signal-Sound t s (Reach-Sound reach)

-- Whatever calls and signals a new tracker gets before it is closed, a request that was given out is in
-- flight exactly when its context is not cancelled.
pub cancelled_iff :
    (t : Tracker) (j : ℕ) → Reach t → j < t.next_id → (is_cancelled t j ≡ false) ↔ InFlight t j
cancelled_iff t j reach h =
    let v = Reach-Sound reach in ((λ g. v.settled j h g), (λ (r, f). v.alive r j f))
