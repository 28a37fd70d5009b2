-- ===== src/Approval/Manager/CacheWindow.antt =====
-- How long and for whom an approval is reused: `checkApprovalCache`, `cacheApproval` and
-- `CacheItemForSender` of internal/approval/manager.go.
use secrets_dispatcher.Prelude.{
  sym, ◌∙◌, eq_refl, ℕ, ◌+◌, ◌<◌, ◌≤◌, String, ◌≡◌, ◌≢◌, ◌↔◌, refl, true, false, some, List, [],
  ◌∷◌, arith, All, ◌==◌, eq_iff, Option-cases, Bool-cases, inl, inr, is_empty,
}
use secrets_dispatcher.Prelude.Dict.{Dict, get, get-insert}
use secrets_dispatcher.Approval.Types.{ItemInfo, Request}
use secrets_dispatcher.Approval.Manager.{Manager}
use secrets_dispatcher.Approval.Manager.CacheKeys.{no_nul, approval_cache_key_injective}
use secrets_dispatcher.Approval.Manager.Cache.{
  approval_cache_key, check_cache, check_approval_cache, cache_items, cache_approval,
}

-- The entry of an item is there, and at most the window old.
abbrev pub IsRecent : ℕ → ℕ → String → Dict ℕ → ItemInfo → Type 0
IsRecent window now sender cache it =
    (ts : ℕ) × (get (approval_cache_key sender it.path) cache ≡ some ts) × (now ≤ ts + window)

module _ (window now : ℕ) (sender : String) (cache : Dict ℕ) where
  -- The check passes exactly when every item has an entry at most the window old.
  check_cache_iff :
      (items : List ItemInfo)
      → ((check_cache window now sender items cache).0 ≡ true)
        ↔ All (IsRecent window now sender cache) items
  unfolding check_cache
  check_cache_iff [] = ((λ h. tt), (λ h. refl))
  check_cache_iff (it ∷ items) = (
    (λ h. elim (Option-cases (get (approval_cache_key sender it.path) cache)) [
      | inl n ↦ absurd (ground arith)
      | inr (ts, s) ↦ ((ts, s, ground arith), (check_cache_iff items).0 (ground arith))
    ]),
    (λ h. ground (arith, (check_cache_iff items).1 h.1)),
  )

-- Every item that is cached gets the time of the approval; other keys keep theirs.
cache_items-other :
    (sender : String) (now : ℕ) (key : String) (items : List ItemInfo) (cache : Dict ℕ)
    → All (λ it. (approval_cache_key sender it.path == key) ≡ false) items
    → get key (cache_items sender items now cache) ≡ get key cache
unfolding cache_items
cache_items-other sender now key [] cache h = refl
cache_items-other sender now key (it ∷ items) cache h =
    cache_items-other sender now key items _ h.1
    ∙ get-insert (approval_cache_key sender it.path) key now cache
    ∙ rw h.0

-- A key that has the time of the approval keeps it.
cache_items-stays :
    (sender : String) (now : ℕ) (key : String) (items : List ItemInfo) (cache : Dict ℕ)
    → get key cache ≡ some now
    → get key (cache_items sender items now cache) ≡ some now
unfolding cache_items
cache_items-stays sender now key [] cache h = h
cache_items-stays sender now key (it ∷ items) cache h =
    cache_items-stays sender now key items _
      (ground (arith, get-insert (approval_cache_key sender it.path) key now cache))

cache_items-fresh :
    (sender : String) (now : ℕ) (items : List ItemInfo) (cache : Dict ℕ)
    → All
        (λ it.
          get (approval_cache_key sender it.path) (cache_items sender items now cache) ≡ some now)
        items
unfolding cache_items
cache_items-fresh sender now [] cache = tt
cache_items-fresh sender now (it ∷ items) cache = (
  cache_items-stays sender now (approval_cache_key sender it.path) items _ (
      get-insert (approval_cache_key sender it.path) (approval_cache_key sender it.path) now cache
      ∙ rw (eq_refl (approval_cache_key sender it.path))),
  cache_items-fresh sender now items _,
)

All-map {ℓ} :
    {A : Type ℓ} {P Q : A → Type 0} (xs : List A) → ((x : A) → P x → Q x) → All P xs → All Q xs
All-map [] f h = tt
All-map (x ∷ xs) f h = (f x h.0, All-map xs f h.1)

window_iff :
    (window now later : ℕ) (sender : String) (items : List ItemInfo) (cache : Dict ℕ)
    → is_empty items ≡ false
    → ((check_cache window later sender items (cache_items sender items now cache)).0 ≡ true)
      ↔ (later ≤ now + window)
window_iff window now later sender [] cache h = cc
window_iff window now later sender (it ∷ items) cache h =
    let cache' = cache_items sender (it ∷ items) now cache in
    let reads = check_cache_iff window later sender cache' (it ∷ items) in
    let fresh = cache_items-fresh sender now (it ∷ items) cache in
    (
      (λ e. let (ts, s, le) = (reads.0 e).0 in ground (arith, fresh.0)),
      (λ le. reads.1 (All-map (it ∷ items) (λ x s. (now, s, le)) fresh)),
    )

-- The check reads nothing but the entries of its own keys.
check_cache-same :
    (window now : ℕ) (sender : String) (c d : Dict ℕ)
    → ((q : String) → get (approval_cache_key sender q) c ≡ get (approval_cache_key sender q) d)
    → (items : List ItemInfo)
    → (check_cache window now sender items c).0 ≡ (check_cache window now sender items d).0
unfolding check_cache
check_cache-same window now sender c d agree [] = refl
check_cache-same window now sender c d agree (it ∷ items) =
    ground (arith, agree it.path, check_cache-same window now sender c d agree items)

cache_approval_on :
    (m : Manager) (req : Request) (now : ℕ)
    → 0 < m.approval_window
    → cache_approval m req now
      ≡ record m { cache = cache_items req.sender_info.sender req.items now m.cache }
unfolding cache_approval
cache_approval_on m req now h = ground arith

check_approval_cache_on :
    (m : Manager) (sender : String) (items : List ItemInfo) (now : ℕ)
    → 0 < m.approval_window
    → (check_approval_cache m sender items now).0
      ≡ (check_cache m.approval_window now sender items m.cache).0
unfolding check_approval_cache
check_approval_cache_on m sender items now h = ground arith

module _ (m : Manager) (req : Request) (now : ℕ) (positive : 0 < m.approval_window) where
  abbrev cached : Dict ℕ
  cached = cache_items req.sender_info.sender req.items now m.cache

  after_approval :
      (sender : String) (items : List ItemInfo) (later : ℕ)
      → (check_approval_cache (cache_approval m req now) sender items later).0
        ≡ (check_cache m.approval_window later sender items cached).0
  after_approval sender items later =
      rw (cache_approval_on m req now positive)
        (check_approval_cache_on (record m { cache = cached }) sender items later positive)

  -- With a window, an approval is reused for the same sender and items up to the end of the window, that
  -- moment included, and not after it, if the approval had an item.
  pub cached_within_window :
      (later : ℕ)
      → is_empty req.items ≡ false
      → ((check_approval_cache (cache_approval m req now) req.sender_info.sender req.items later).0
          ≡ true)
        ↔ (later ≤ now + m.approval_window)
  cached_within_window later nonempty =
      let e = after_approval req.sender_info.sender req.items later in
      let w =
        window_iff m.approval_window now later req.sender_info.sender req.items m.cache nonempty in
      ((λ h. w.0 (sym e ∙ h)), (λ h. e ∙ w.1 h))

  -- With a window, an approval for one sender leaves the answer of the cache for another sender as it
  -- was, where neither name has a NUL character.
  pub cached_for_sender :
      (sender : String) (items : List ItemInfo) (later : ℕ)
      → no_nul sender ≡ true
      → no_nul req.sender_info.sender ≡ true
      → req.sender_info.sender ≢ sender
      → (check_approval_cache (cache_approval m req now) sender items later).0
        ≡ (check_approval_cache m sender items later).0
  cached_for_sender sender items later clean clean' ne =
      after_approval sender items later
      ∙ check_cache-same m.approval_window later sender cached m.cache
          (λ q.
            cache_items-other req.sender_info.sender now (approval_cache_key sender q) req.items
              m.cache (all_differ q req.items))
          items
      ∙ sym (check_approval_cache_on m sender items later positive)
    where
      differ :
          (p q : String)
          → (approval_cache_key req.sender_info.sender p == approval_cache_key sender q) ≡ false
      differ p q =
          elim (Bool-cases
            (approval_cache_key req.sender_info.sender p == approval_cache_key sender q)) [
              | inl e ↦ absurd (
                  ne
                    (approval_cache_key_injective req.sender_info.sender sender p q clean' clean
                      ((eq_iff _ _).0 e)).0)
              | inr e ↦ e
            ]

      all_differ :
          (q : String) (xs : List ItemInfo)
          → All
              (λ it.
                (approval_cache_key req.sender_info.sender it.path == approval_cache_key sender q)
                ≡ false)
              xs
      all_differ q [] = tt
      all_differ q (x ∷ xs) = (differ x.path q, all_differ q xs)
