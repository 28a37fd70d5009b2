-- ===== src/Approval/Manager/Invariant.antt =====
-- The manager's invariant, and how the parts of the calls keep it: what stays as it was configured, the
-- length of the history, and the channels of the pending requests, which a resolution closes.
use secrets_dispatcher.Prelude.{
  ℕ, ◌∷◌, ◌≤◌, String, ◌≡◌, sym, ap, subst, true, false, none, some, arith, any, length, ◌==◌,
  eq_iff, Bool-cases, inl, inr, ◌∙◌,
}
use secrets_dispatcher.Prelude.Dict.{Dict, get, insert, get-insert}
use secrets_dispatcher.Approval.Types.{Request, EventType, HistoryEntry}
use secrets_dispatcher.Approval.Manager.{
  Manager, Config, add_history_entry, notify, is_pending, allocate, enter_pending, drop_pending,
  get_pending,
}
use secrets_dispatcher.Approval.Manager.Resolve.{close_request}
use secrets_dispatcher.Approval.Manager.Effects.{
  Quiet, heap-notify, pending-notify, config-notify, length-notify, length-trim, any-keep,
}

-- The object of that ID exists, and its channel is open.
abbrev pub OpenAt : Dict Request → String → Type 0
OpenAt heap id = (r : Request) × (get id heap ≡ some r) × (r.id ≡ id) × (r.is_done ≡ false)

pub record Inv (c : Config) (m : Manager) : Type 0 where
  pub kept : m.config ≡ c
  pub bounded : length m.history ≤ m.history_max
  pub open_at : (id : String) → is_pending m id ≡ true → OpenAt m.heap id

OpenAt-insert :
    (heap : Dict Request) (k id : String) (r : Request)
    → (k == id) ≡ false
    → OpenAt heap id
    → OpenAt (insert k r heap) id
OpenAt-insert heap k id r ne (q, found, same, fresh) =
    (q, ground (arith, get-insert k id r heap), same, fresh)

-- What is there is not at a fresh ID.
fresh-ne :
    (heap : Dict Request) (k id : String) → get k heap ≡ none → OpenAt heap id → (k == id) ≡ false
fresh-ne heap k id fresh (q, found, _, _) = elim (Bool-cases (k == id)) [
  | inl e ↦ absurd (ground (arith, ap (λ j. get j heap) ((eq_iff k id).0 e)))
  | inr e ↦ e
]

module _ {c : Config} (m : Manager) (v : Inv c m) where
  pub Inv-Quiet : (m' : Manager) → Quiet m m' → Inv c m'
  Inv-Quiet m' q = record {
    kept = q.config ∙ v.kept;
    bounded = rw (q.history, q.config) v.bounded;
    open_at = λ id h.
        subst (λ heap. OpenAt heap id) (sym q.heap)
          (v.open_at id (subst (λ ids. any (◌==◌ id) ids ≡ true) q.pending h));
  }

  pub Inv-notify : (e : EventType) (id : String) (now : ℕ) → Inv c (notify m e id now)
  Inv-notify e id now = record {
    kept = config-notify m e id now ∙ v.kept;
    bounded = rw (config-notify m e id now) (length-notify m e id now v.bounded);
    open_at = λ j h.
        subst (λ heap. OpenAt heap j) (sym (heap-notify m e id now))
          (v.open_at j (subst (λ ids. any (◌==◌ j) ids ≡ true) (pending-notify m e id now) h));
  }

  pub Inv-log : (e : HistoryEntry) → Inv c (add_history_entry m e)
  unfolding add_history_entry
  Inv-log e = record {
    kept = v.kept;
    bounded = length-trim m.history_max (e ∷ m.history);
    open_at = v.open_at;
  }

  pub Inv-allocate : (r : Request) → get r.id m.heap ≡ none → Inv c (allocate m r)
  Inv-allocate r fresh = record {
    kept = v.kept;
    bounded = v.bounded;
    open_at = λ id h.
        OpenAt-insert m.heap r.id id r (fresh-ne m.heap r.id id fresh (v.open_at id h))
          (v.open_at id h);
  }

  pub Inv-enter : (id : String) → OpenAt m.heap id → Inv c (enter_pending m id)
  Inv-enter id o = elim (Bool-cases (is_pending m id)) [
    | inl e ↦ rw (e, enter_pending) v
    | inr e ↦
        rw (e, enter_pending)
          (record {
            kept = v.kept;
            bounded = v.bounded;
            open_at = λ j h. elim (Bool-cases (j == id)) [
              | inl s ↦ subst (OpenAt m.heap) (sym ((eq_iff j id).0 s)) o
              | inr n ↦ v.open_at j (ground arith)
            ];
          })
  ]

  pub Inv-drop : (id : String) → Inv c (drop_pending m id)
  Inv-drop id = record {
    kept = v.kept;
    bounded = v.bounded;
    open_at = λ j h. v.open_at j (ground (arith, any-keep id j m.pending));
  }

  pub Inv-close : (r : Request) → Inv c (close_request m r)
  unfolding close_request
  Inv-close r = record {
    kept = v.kept;
    bounded = v.bounded;
    open_at = λ j h.
        OpenAt-insert m.heap r.id j (record r { is_done = true })
          (ground (arith, any-keep r.id j m.pending))
          (v.open_at j (ground (arith, any-keep r.id j m.pending)));
  }

  -- A call that finds its request pending finds it open.
  pub get_pending_open :
      (id : String) (r : Request) → get_pending m id ≡ some r → (r.id ≡ id) × (r.is_done ≡ false)
  unfolding get_pending
  get_pending_open id r h = ground (arith, v.open_at id (ground arith))
