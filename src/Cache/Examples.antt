-- ===== src/Cache/Examples.antt =====
-- The theorems on the cache at concrete calls.
use multi_tenant_shipping_ma.Shared.{ℕ, ◌≡◌, none, some, Option, [], ◌∷◌, List}
use multi_tenant_shipping_ma.Cache.Provider.{CacheEntry, Store, remember}
use multi_tenant_shipping_ma.Cache.Refinement.{
  Call, getting, setting, deleting, results, table_results, cache_refines_table,
}
use multi_tenant_shipping_ma.Cache.Transparency.{IsCoherent, remember_transparent}

-- A value for two seconds, read at once and after three seconds.
abbrev history : List (ℕ × Call ℕ)
history = (0, setting 1 (some 7) 2) ∷ (1000, getting 1) ∷ (2000, getting 1) ∷ (0, deleting 1) ∷ []

cache_refines_table_example : results 50 history [] ≡ table_results 50 history (λ t j. none)
cache_refines_table_example = cache_refines_table 50 history

abbrev load : ℕ → Option ℕ
load k = some k

abbrev cached : Store (CacheEntry ℕ)
cached = []

cached-IsCoherent : IsCoherent load 50 cached
cached-IsCoherent t j v later h = absurd (cc h)

remember_transparent_example :
    ((remember 50 4 (load 4) 300 cached).0 ≡ load 4)
    × IsCoherent load 50 (remember 50 4 (load 4) 300 cached).1
remember_transparent_example = remember_transparent load 50 4 300 cached cached-IsCoherent
