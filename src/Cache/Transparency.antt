-- ===== src/Cache/Transparency.antt =====
-- `remember`: a caller that loads through the cache gets what the loader would give.
use multi_tenant_shipping_ma.Shared.{
  ℕ, ◌+◌, ◌*◌, ◌≤◌, ◌≡◌, refl, sym, subst, ◌∙◌, Option, none, some, ◌==◌, ltb, Bool-cases, inl, inr,
  arith,
}
use multi_tenant_shipping_ma.Cache.Provider.{CacheEntry, Store, set, get, remember, remember_value}
use multi_tenant_shipping_ma.Cache.Refinement.{view, get-view, view-get, view-set}

module _ {V : Type 0} where
  -- From a time on, a value in the cache is the one that its key loads.
  abbrev pub IsCoherent : (ℕ → Option V) → ℕ → Store (CacheEntry V) → Type 0
  IsCoherent load now s = (t j : ℕ) (v : V) → now ≤ t → view t j s ≡ some v → load j ≡ some v

  get-IsCoherent :
      (load : ℕ → Option V) (now key : ℕ) (s : Store (CacheEntry V))
      → IsCoherent load now s
      → IsCoherent load now (get now key s).1
  get-IsCoherent load now key s h t j v later seen =
      h t j v later (sym (view-get now t j key s later) ∙ seen)

  set-IsCoherent :
      (load : ℕ → Option V) (now key ttl : ℕ) (s : Store (CacheEntry V))
      → IsCoherent load now s
      → IsCoherent load now (set now key (load key) ttl s)
  set-IsCoherent load now key ttl s h t j v later seen =
      let seen' = sym (view-set now t j key ttl (load key) s) ∙ seen in
      elim (Bool-cases (key == j)) [
        | inr apart ↦ h t j v later (rw apart at seen')
        | inl same ↦
            let at : key ≡ j = ground arith in
            elim (Bool-cases (ltb (now + ttl * 1000) t)) [
              | inl old ↦ absurd (cc (rw (same, old) at seen'))
              | inr young ↦ subst (λ i. load i ≡ some v) at (rw (same, young) at seen')
            ]
      ]

  after_get :
      (load : ℕ → Option V) (now key ttl : ℕ) (r : Option V × Store (CacheEntry V))
      → IsCoherent load now r.1
      → ((v : V) → r.0 ≡ some v → load key ≡ some v)
      → ((remember_value now key (load key) ttl r).0 ≡ load key)
        × IsCoherent load now (remember_value now key (load key) ttl r).1
  after_get load now key ttl (some v, s) kept hit = (sym (hit v refl), kept)
  after_get load now key ttl (none, s) kept hit = (refl, set-IsCoherent load now key ttl s kept)

  -- When every value that a cache still gives is the one that its key loads, remember gives what
  -- the loader gives, and the cache keeps that property.
  pub remember_transparent :
      (load : ℕ → Option V) (now key ttl : ℕ) (s : Store (CacheEntry V))
      → IsCoherent load now s
      → ((remember now key (load key) ttl s).0 ≡ load key)
        × IsCoherent load now (remember now key (load key) ttl s).1
  unfolding remember
  remember_transparent load now key ttl s h =
      after_get load now key ttl (get now key s) (get-IsCoherent load now key s h)
        (λ v found. h now key v (omega arith) (sym (get-view now key s) ∙ found))
