-- ===== src/Approval/Manager/History.antt =====
-- The history of internal/approval/manager.go against the log of everything that was ever recorded.
use secrets_dispatcher.Prelude.{
  ℕ, zero, suc, ◌≤◌, ◌≡◌, refl, sym, ap, ◌∙◌, true, false, List, [], ◌∷◌, arith, ltb, length, take,
  if◌then◌else◌,
}
use secrets_dispatcher.Approval.Types.{HistoryEntry}
use secrets_dispatcher.Approval.Manager.{Manager, add_history_entry}

-- The entries, added in this order.
abbrev pub add_entries : Manager → List HistoryEntry → Manager
add_entries m [] = m
add_entries m (e ∷ es) = add_entries (add_history_entry m e) es

-- The log, newest first, after the entries.
abbrev pub logged : List HistoryEntry → List HistoryEntry → List HistoryEntry
logged log [] = log
logged log (e ∷ es) = logged (e ∷ log) es

module _ {ℓ} {A : Type ℓ} where
  take-whole : (n : ℕ) (xs : List A) → length xs ≤ n → take n xs ≡ xs
  take-whole zero [] h = refl
  take-whole zero (x ∷ xs) h = absurd (omega arith)
  take-whole (suc n) [] h = refl
  take-whole (suc n) (x ∷ xs) h = ap (◌∷◌ x) (take-whole n xs (omega arith))

  -- What is cut off stays off when an element comes in front.
  take-cons : (n : ℕ) (x : A) (xs : List A) → take n (x ∷ take n xs) ≡ take n (x ∷ xs)
  take-cons zero x xs = refl
  take-cons (suc n) x xs = ap (◌∷◌ x) (shorter n xs)
    where
      shorter : (k : ℕ) (ys : List A) → take k (take (suc k) ys) ≡ take k ys
      shorter zero ys = refl
      shorter (suc k) [] = refl
      shorter (suc k) (y ∷ ys) = ap (◌∷◌ y) (shorter k ys)

-- The test for the limit only saves the cut.
add_history_entry-take :
    (m : Manager) (e : HistoryEntry)
    → (add_history_entry m e).history ≡ take m.history_max (e ∷ m.history)
unfolding add_history_entry
add_history_entry-take m e =
    elim (ltb m.history_max (length (e ∷ m.history)))
        as (λ b.
          ltb m.history_max (length (e ∷ m.history)) ≡ b
          → (if b then take m.history_max (e ∷ m.history) else e ∷ m.history)
            ≡ take m.history_max (e ∷ m.history)) [
              | true ↦ λ h. refl
              | false ↦ λ h. sym (take-whole m.history_max (e ∷ m.history) (ground arith))
            ]
      refl

-- Where the history is what is newest in a log, up to its limit, it is so after any entries too, in the
-- log with these entries.
pub history_newest :
    (m : Manager) (log es : List HistoryEntry)
    → m.history ≡ take m.history_max log
    → (add_entries m es).history ≡ take m.history_max (logged log es)
unfolding add_history_entry
history_newest m log [] h = h
history_newest m log (e ∷ es) h = history_newest (add_history_entry m e) (e ∷ log) es (
    add_history_entry-take m e
    ∙ ap (λ xs. take m.history_max (e ∷ xs)) h
    ∙ take-cons m.history_max e log)
