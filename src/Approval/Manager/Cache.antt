-- ===== src/Approval/Manager/Cache.antt =====
-- The approval cache: `checkApprovalCache`, `CacheItemForSender`, `cacheApproval`.
use Prim.Native.String.{◌++◌ as str_append}
use secrets_dispatcher.Prelude.{
  ℕ, ◌+◌, String, Bool, true, false, ◌||◌, none, some, List, [], ◌∷◌, ltb, eqb, if◌then◌else◌,
}
use secrets_dispatcher.Prelude.Dict.{Dict, get, insert, erase}
use secrets_dispatcher.Approval.Types.{ItemInfo, Request}
use secrets_dispatcher.Approval.Manager.{Manager}

unfoldable pub approval_cache_key : String → String → String
approval_cache_key sender item_path = str_append sender (str_append "\0" item_path)

-- An entry is stale if it lies before now - window; the first stale one is deleted.
unfoldable pub check_cache : ℕ → ℕ → String → List ItemInfo → Dict ℕ → Bool × Dict ℕ
check_cache window now sender [] cache = (true, cache)
check_cache window now sender (item ∷ items) cache =
    let key = approval_cache_key sender item.path in
    let rest = check_cache window now sender items cache in
    elim (get key cache) [
      | none ↦ (false, cache)
      | some ts ↦ if ltb (ts + window) now then (false, erase key cache) else rest
    ]

unfoldable pub check_approval_cache : Manager → String → List ItemInfo → ℕ → Bool × Manager
unfolding check_cache
check_approval_cache m sender items now =
    if eqb m.approval_window 0
    then (false, m)
    else let r = check_cache m.approval_window now sender items m.cache in
      (r.0, record m { cache = r.1 })

unfoldable pub cache_item_for_sender : Manager → String → String → ℕ → Manager
cache_item_for_sender m sender item_path now =
    if eqb m.approval_window 0 || m.disabled
    then m
    else record m { cache = insert (approval_cache_key sender item_path) now m.cache }

unfoldable pub cache_items : String → List ItemInfo → ℕ → Dict ℕ → Dict ℕ
cache_items sender [] now cache = cache
cache_items sender (item ∷ items) now cache =
    cache_items sender items now (insert (approval_cache_key sender item.path) now cache)

unfoldable pub cache_approval : Manager → Request → ℕ → Manager
unfolding cache_items
cache_approval m req now =
    if eqb m.approval_window 0
    then m
    else record m { cache = cache_items req.sender_info.sender req.items now m.cache }
