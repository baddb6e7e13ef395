-- ===== src/Cache/Refinement.antt =====
-- The cache against a table that forgets nothing by itself: each key has its last value until that
-- expires.
use multi_tenant_shipping_ma.Shared.{
  ℕ, ◌+◌, ◌*◌, ◌≤◌, ◌≡◌, refl, sym, ap, ◌∙◌, Bool, true, Option, none, some, List, [], ◌∷◌, ◌==◌,
  ltb, if◌then◌else◌, Bool-cases, Option-cases, inl, inr, arith,
}
use multi_tenant_shipping_ma.Cache.Provider.{
  CacheEntry, Store, map_get, map_set, map_delete, set, get, del, del_by_pattern, clear,
}

module _ {E : Type 0} where
  map_get-set :
      (j k : ℕ) (e : E) (s : Store E)
      → map_get j (map_set k e s) ≡ (if k == j then some e else map_get j s)
  map_get-set j k e [] = refl
  map_get-set j k e ((x, d) ∷ s) = ground (arith, map_get-set j k e s)

  map_get-delete :
      (j : ℕ) (test : ℕ → Bool) (s : Store E)
      → map_get j (map_delete test s) ≡ (if test j then none else map_get j s)
  map_get-delete j test [] = elim (Bool-cases (test j)) [ inl h ↦ rw h refl | inr h ↦ rw h refl ]
  map_get-delete j test ((x, d) ∷ s) =
      let rest = map_get-delete j test s in
      elim (Bool-cases (x == j)) [
        | inl same ↦
            let at : x ≡ j = ground arith in
            let both : test x ≡ test j = ap test at in
            elim (Bool-cases (test j)) [
              | inl h ↦ let hx = both ∙ h in rw (hx, h) (rest ∙ rw h refl)
              | inr h ↦ let hx = both ∙ h in rw (hx, h, same) refl
            ]
        | inr apart ↦ elim (Bool-cases (test x)) [
          | inl h ↦ rw (h, apart) rest
          | inr h ↦ rw (h, apart) rest
        ]
      ]

-- The calls, each of which may give a value.
pub data Call (V : Type 0) : Type 0 where
  getting : ℕ → Call V
  setting : ℕ → Option V → ℕ → Call V
  deleting : ℕ → Call V
  matching : (ℕ → Bool) → Call V
  clearing : Call V

-- The specification: at each time, the value of each key.
abbrev pub Table : Type 0 → Type 0
Table V = ℕ → ℕ → Option V

module _ {V : Type 0} where
  -- The value of an entry at a time.
  abbrev pub live : ℕ → Option (CacheEntry V) → Option V
  live t none = none
  live t (some e) = if ltb e.expires_at t then none else e.value

  abbrev pub view : ℕ → ℕ → Store (CacheEntry V) → Option V
  view t key s = live t (map_get key s)

  -- What is expired stays so.
  expired_later :
      (now t : ℕ) (e : CacheEntry V)
      → now ≤ t
      → ltb e.expires_at now ≡ true
      → live t (some e) ≡ none
  expired_later now t e later h = ground arith

  pub get-view : (now key : ℕ) (s : Store (CacheEntry V)) → (get now key s).0 ≡ view now key s
  unfolding get
  get-view now key s = elim (Option-cases (map_get key s)) [
    | inl h ↦ rw h refl
    | inr (e, h) ↦ elim (Bool-cases (ltb e.expires_at now)) [
      | inl t ↦ rw (h, t) refl
      | inr t ↦ rw (h, t) refl
    ]
  ]

  pub view-get :
      (now t j key : ℕ) (s : Store (CacheEntry V))
      → now ≤ t
      → view t j (get now key s).1 ≡ view t j s
  unfolding get
  view-get now t j key s later = elim (Option-cases (map_get key s)) [
    | inl h ↦ rw h refl
    | inr (e, h) ↦ elim (Bool-cases (ltb e.expires_at now)) [
      | inr t' ↦ rw (h, t') refl
      | inl t' ↦
          rw (h, t')
            (ap (live t) (map_get-delete j (λ x. x == key) s) ∙ elim (Bool-cases (j == key)) [
              | inr apart ↦ rw apart refl
              | inl same ↦
                  let at : j ≡ key = ground arith in
                  rw same (
                    sym (ap (λ i. live t (map_get i s)) at ∙ rw h (expired_later now t e later t')))
            ])
    ]
  ]

  pub view-set :
      (now t j key ttl : ℕ) (value : Option V) (s : Store (CacheEntry V))
      → view t j (set now key value ttl s)
        ≡ (if key == j then if ltb (now + ttl * 1000) t then none else value else view t j s)
  unfolding set
  view-set now t j key ttl value s =
      ap (live t) (map_get-set j key (record { value = value; expires_at = now + ttl * 1000 }) s)
      ∙ elim (Bool-cases (key == j)) [ inl same ↦ rw same refl | inr apart ↦ rw apart refl ]

  view-delete :
      (t j : ℕ) (test : ℕ → Bool) (s : Store (CacheEntry V))
      → view t j (map_delete test s) ≡ (if test j then none else view t j s)
  view-delete t j test s =
      ap (live t) (map_get-delete j test s)
      ∙ elim (Bool-cases (test j)) [ inl h ↦ rw h refl | inr h ↦ rw h refl ]

  abbrev pub call : ℕ → Call V → Store (CacheEntry V) → Option V × Store (CacheEntry V)
  call now (getting key) s = get now key s
  call now (setting key value ttl) s = (none, set now key value ttl s)
  call now (deleting key) s = (none, del key s)
  call now (matching test) s = (none, del_by_pattern test s)
  call now clearing s = (none, clear s)

  abbrev pub call_table : ℕ → Call V → Table V → Option V × Table V
  call_table now (getting key) a = (a now key, a)
  call_table now (setting key value ttl) a =
      (none, λ t j. if key == j then if ltb (now + ttl * 1000) t then none else value else a t j)
  call_table now (deleting key) a = (none, λ t j. if j == key then none else a t j)
  call_table now (matching test) a = (none, λ t j. if test j then none else a t j)
  call_table now clearing a = (none, λ t j. none)

  -- They agree from a time on.
  abbrev pub Agree : ℕ → Store (CacheEntry V) → Table V → Type 0
  Agree now s a = (t j : ℕ) → now ≤ t → view t j s ≡ a t j

  call-Agree :
      (now : ℕ) (c : Call V) (s : Store (CacheEntry V)) (a : Table V)
      → Agree now s a
      → ((call now c s).0 ≡ (call_table now c a).0)
        × Agree now (call now c s).1 (call_table now c a).1
  unfolding del del_by_pattern clear
  call-Agree now (getting key) s a h = (
    get-view now key s ∙ h now key (omega arith),
    λ t j later. view-get now t j key s later ∙ h t j later,
  )
  call-Agree now (setting key value ttl) s a h = (
    refl,
    λ t j later.
        view-set now t j key ttl value s
        ∙ ap (λ o. if key == j then if ltb (now + ttl * 1000) t then none else value else o)
            (h t j later),
  )
  call-Agree now (deleting key) s a h = (
    refl,
    λ t j later.
        view-delete t j (λ x. x == key) s ∙ ap (λ o. if j == key then none else o) (h t j later),
  )
  call-Agree now (matching test) s a h = (
    refl,
    λ t j later. view-delete t j test s ∙ ap (λ o. if test j then none else o) (h t j later),
  )
  call-Agree now clearing s a h = (refl, λ t j later. refl)

  -- A history of calls, each with the time since the call before.
  abbrev pub results : ℕ → List (ℕ × Call V) → Store (CacheEntry V) → List (Option V)
  results now [] s = []
  results now ((d, c) ∷ cs) s = (call (now + d) c s).0 ∷ results (now + d) cs (call (now + d) c s).1

  abbrev pub table_results : ℕ → List (ℕ × Call V) → Table V → List (Option V)
  table_results now [] a = []
  table_results now ((d, c) ∷ cs) a =
      (call_table (now + d) c a).0 ∷ table_results (now + d) cs (call_table (now + d) c a).1

  results-Agree :
      (now : ℕ) (cs : List (ℕ × Call V)) (s : Store (CacheEntry V)) (a : Table V)
      → Agree now s a
      → results now cs s ≡ table_results now cs a
  results-Agree now [] s a h = refl
  results-Agree now ((d, c) ∷ cs) s a h =
      let later : Agree (now + d) s a = λ t j le. h t j (omega (arith, le)) in
      let (same, next) = call-Agree (now + d) c s a later in
      ap (λ o. o ∷ results (now + d) cs (call (now + d) c s).1) same
      ∙ ap (λ os. (call_table (now + d) c a).0 ∷ os)
          (results-Agree (now + d) cs (call (now + d) c s).1 (call_table (now + d) c a).1 next)

  -- For every history of reads, writes, deletions and clearings at times that do not decrease, a
  -- cache that starts empty answers as the table in which each key keeps its last value until that
  -- value expires or is deleted.
  pub cache_refines_table :
      (now : ℕ) (cs : List (ℕ × Call V)) → results now cs [] ≡ table_results now cs (λ t j. none)
  cache_refines_table now cs = results-Agree now cs [] (λ t j. none) (λ t j le. refl)
