-- ===== src/Proxy/Tracker/Live.antt =====
-- Which requests a release and a disconnection end, and which contexts they cancel: the functions of
-- internal/proxy/tracker.go, request by request.
use secrets_dispatcher.Prelude.{
  ℕ, String, ◌≡◌, refl, sym, ap, ap₂, ◌∙◌, Bool, true, false, not, ◌&&◌, ◌||◌, Option, none, some,
  List, [], ◌∷◌, ◌++◌, arith, eqb, eqb_iff, any, ◌==◌, eq_iff, if◌then◌else◌, Bool-cases, inl, inr,
}
use secrets_dispatcher.Prelude.Dict.{Dict, insert, get-insert, get-erase}
use secrets_dispatcher.Proxy.Tracker.{
  drop_sender, Tracker, ids_at, without, put_back, release_in, release, client_disconnected,
}

-- The request is in flight for the sender.
abbrev pub tracked : Tracker → String → ℕ → Bool
tracked t sender id = any (eqb id) (ids_at sender t.clients)

abbrev pub is_cancelled : Tracker → ℕ → Bool
is_cancelled t id = any (eqb id) t.cancelled

any-append : (j : ℕ) (xs ys : List ℕ) → any (eqb j) (xs ++ ys) ≡ (any (eqb j) xs || any (eqb j) ys)
any-append j [] ys = refl
any-append j (x ∷ xs) ys = ground (arith, any-append j xs ys)

any-without :
    (k j : ℕ) (ids : List ℕ) → any (eqb j) (without k ids) ≡ (not (eqb k j) && any (eqb j) ids)
any-without k j [] = ground arith
any-without k j (x ∷ ids) = ground (arith, any-without k j ids)

pub ids_at-insert :
    (s r : String) (ids : List ℕ) (m : Dict (List ℕ))
    → ids_at r (some (insert s ids m)) ≡ (if s == r then ids else ids_at r (some m))
ids_at-insert s r ids m = ground (arith, get-insert s r ids m)

ids_at-put_back :
    (s r : String) (ids : List ℕ) (m : Dict (List ℕ))
    → ids_at r (some (put_back s ids m)) ≡ (if s == r then ids else ids_at r (some m))
ids_at-put_back s r [] m = ground (arith, get-erase s r m)
ids_at-put_back s r (x ∷ ids) m = ids_at-insert s r (x ∷ ids) m

any-drop :
    (s r : String) (j : ℕ) (o : Option (Dict (List ℕ)))
    → any (eqb j) (ids_at r (drop_sender s o)) ≡ (not (s == r) && any (eqb j) (ids_at r o))
any-drop s r j none = ground arith
any-drop s r j (some m) = ground (arith, get-erase s r m)

and_swap : (a b : Bool) → (not a && b) ≡ (b && not a)
and_swap a b = ground arith

and_true : (b : Bool) → b ≡ (b && true)
and_true b = ground arith

-- What a release does to the requests of one map.
module _ (m : Dict (List ℕ)) (sender r : String) (id j : ℕ) where
  abbrev mine : List ℕ
  mine = ids_at sender (some m)

  put_back-hit :
      any (eqb j) (ids_at r (some (put_back sender (without id mine) m)))
      ≡ (any (eqb j) (ids_at r (some m)) && not (sender == r && eqb id j))
  put_back-hit =
      ap (any (eqb j)) (ids_at-put_back sender r (without id mine) m)
      ∙ elim (Bool-cases (sender == r)) [
        | inl e ↦ rw e (
            any-without id j mine
            ∙ ap (λ b. not (eqb id j) && b)
                (ap (λ k. any (eqb j) (ids_at k (some m))) ((eq_iff sender r).0 e))
            ∙ and_swap (eqb id j) (any (eqb j) (ids_at r (some m))))
        | inr e ↦ rw e (and_true (any (eqb j) (ids_at r (some m))))
      ]

  kept-miss :
      any (eqb id) mine ≡ false
      → any (eqb j) (ids_at r (some m))
        ≡ (any (eqb j) (ids_at r (some m)) && not (sender == r && eqb id j))
  kept-miss h = elim (Bool-cases (sender == r && eqb id j)) [
    | inl both ↦
        let gone : any (eqb j) (ids_at r (some m)) ≡ false =
          ap₂ (λ k i. any (eqb i) (ids_at k (some m))) (sym ((eq_iff sender r).0 (ground arith)))
            (sym ((eqb_iff id j).0 (ground arith)))
          ∙ h in
        rw gone
    | inr n ↦ rw n (and_true (any (eqb j) (ids_at r (some m))))
  ]

release_in-only :
    (o : Option (Dict (List ℕ))) (t : Tracker) (sender r : String) (id j : ℕ)
    → t.clients ≡ o
    → (tracked (release_in o t sender id) r j
        ≡ (any (eqb j) (ids_at r o) && not (sender == r && eqb id j)))
      × (is_cancelled (release_in o t sender id) j
          ≡ (is_cancelled t j || (any (eqb id) (ids_at sender o) && eqb id j)))
unfolding release_in
release_in-only none t sender r id j e = (rw e, ground arith)
release_in-only (some m) t sender r id j e =
    elim (Bool-cases (any (eqb id) (ids_at sender (some m)))) [
      | inl hit ↦ rw (hit, release_in) (put_back-hit m sender r id j, ground arith)
      | inr miss ↦
          rw (miss, release_in)
            (ap (λ o. any (eqb j) (ids_at r o)) e ∙ kept-miss m sender r id j miss, ground arith)
    ]

-- After a release the request is no longer in flight, and is cancelled if it was; every other request, of
-- the same sender too, is as it was.
pub release_only :
    (t : Tracker) (sender r : String) (id j : ℕ)
    → (tracked (release t sender id) r j ≡ (tracked t r j && not (sender == r && eqb id j)))
      × (is_cancelled (release t sender id) j
          ≡ (is_cancelled t j || (tracked t sender id && eqb id j)))
unfolding release
release_only t sender r id j = release_in-only t.clients t sender r id j refl

-- A disconnection ends every request of the sender, cancelled, and no other.
pub disconnected_only :
    (t : Tracker) (sender r : String) (j : ℕ)
    → (tracked (client_disconnected t sender) r j ≡ (not (sender == r) && tracked t r j))
      × (is_cancelled (client_disconnected t sender) j ≡ (tracked t sender j || is_cancelled t j))
unfolding client_disconnected
disconnected_only t sender r j =
    (any-drop sender r j t.clients, any-append j (ids_at sender t.clients) t.cancelled)
