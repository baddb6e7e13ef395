-- ===== src/Cache/Provider.antt =====
-- InMemoryCacheProvider: a map from keys to values with the time at which each expires. Each method
-- takes the time of its call; a value that is null counts as absent.
use multi_tenant_shipping_ma.Shared.{
  ℕ, ◌+◌, ◌*◌, Bool, not, Option, none, some, List, [], ◌∷◌, map, length, ◌==◌, ltb, if◌then◌else◌,
  is_some,
}
use multi_tenant_shipping_ma.Shared.Table.{select}

pub record CacheEntry (V : Type 0) : Type 0 where
  pub value : Option V
  pub expires_at : ℕ

-- `CacheKeyEntry`
pub record CacheKeyEntry : Type 0 where
  pub id : ℕ
  pub key : ℕ

-- A `Map` from numbers, which stand for its text keys.
abbrev pub Store : Type 0 → Type 0
Store E = List (ℕ × E)

module _ {E : Type 0} where
  abbrev pub map_get : ℕ → Store E → Option E
  map_get k [] = none
  map_get k ((x, e) ∷ s) = if x == k then some e else map_get k s

  abbrev pub map_set : ℕ → E → Store E → Store E
  map_set k e [] = (k, e) ∷ []
  map_set k e ((x, d) ∷ s) =
      let rest = map_set k e s in if x == k then (k, e) ∷ s else (x, d) ∷ rest

  abbrev pub map_delete : (ℕ → Bool) → Store E → Store E
  map_delete test [] = []
  map_delete test ((x, d) ∷ s) =
      let rest = map_delete test s in if test x then rest else (x, d) ∷ rest

abbrev key_map : List CacheKeyEntry → Store ℕ → Store ℕ
key_map [] m = m
key_map (e ∷ es) m = key_map es (map_set e.id e.key m)

module _ {V : Type 0} where
  -- `Date.now() + ttl * 1000`
  unfoldable pub set : ℕ → ℕ → Option V → ℕ → Store (CacheEntry V) → Store (CacheEntry V)
  set now key value ttl s = map_set key (record { value = value; expires_at = now + ttl * 1000 }) s

  abbrev get_entry :
      ℕ → ℕ → Option (CacheEntry V) → Store (CacheEntry V) → Option V × Store (CacheEntry V)
  get_entry now key none s = (none, s)
  get_entry now key (some e) s =
      if ltb e.expires_at now then (none, map_delete (λ x. x == key) s) else (e.value, s)

  unfoldable pub get : ℕ → ℕ → Store (CacheEntry V) → Option V × Store (CacheEntry V)
  get now key s = get_entry now key (map_get key s) s

  abbrev add_value : ℕ → Option V → Store V → Store V
  add_value key none found = found
  add_value key (some v) found = map_set key v found

  unfoldable pub get_many :
      ℕ → List ℕ → Store V → Store (CacheEntry V) → Store V × Store (CacheEntry V)
  unfolding get
  get_many now [] found s = (found, s)
  get_many now (k ∷ ks) found s =
      let (value, s') = get now k s in get_many now ks (add_value k value found) s'

  unfoldable pub set_many : ℕ → List (ℕ × V) → ℕ → Store (CacheEntry V) → Store (CacheEntry V)
  unfolding set
  set_many now [] ttl s = s
  set_many now ((k, v) ∷ rest) ttl s = set_many now rest ttl (set now k (some v) ttl s)

  abbrev pub remember_value :
      ℕ → ℕ → Option V → ℕ → Option V × Store (CacheEntry V) → Option V × Store (CacheEntry V)
  remember_value now key loaded ttl (some v, s) = (some v, s)
  remember_value now key loaded ttl (none, s) = (loaded, set now key loaded ttl s)

  -- `loaded` is what the loader gives, which is called when the value is absent.
  unfoldable pub remember :
      ℕ → ℕ → Option V → ℕ → Store (CacheEntry V) → Option V × Store (CacheEntry V)
  unfolding get set
  remember now key loaded ttl s = remember_value now key loaded ttl (get now key s)

  unfoldable pub del : ℕ → Store (CacheEntry V) → Store (CacheEntry V)
  del key s = map_delete (λ x. x == key) s

  -- The keys that the pattern matches.
  unfoldable pub del_by_pattern : (ℕ → Bool) → Store (CacheEntry V) → Store (CacheEntry V)
  del_by_pattern matches s = map_delete matches s

  unfoldable pub clear : Store (CacheEntry V) → Store (CacheEntry V)
  clear s = []

  unfoldable pub size : Store (CacheEntry V) → ℕ
  size s = length s

  -- The keys of the entities that were loaded; one that was not asked for is passed over.
  abbrev keyed : (V → ℕ) → Store ℕ → List V → List (ℕ × V)
  keyed id_of keys [] = []
  keyed id_of keys (v ∷ vs) = add (map_get (id_of v) keys) (keyed id_of keys vs)
    where
      add : Option ℕ → List (ℕ × V) → List (ℕ × V)
      add none rest = rest
      add (some key) rest = (key, v) ∷ rest

  abbrev set_all : List (ℕ × V) → Store V → Store V
  set_all [] found = found
  set_all ((k, v) ∷ rest) found = set_all rest (map_set k v found)

  abbrev by_id : List CacheKeyEntry → Store V → Store V → Store V
  by_id [] found result = result
  by_id (e ∷ es) found result = by_id es found (add_value e.id (map_get e.key found) result)

  abbrev complete :
      ℕ
      → List CacheKeyEntry
      → (V → ℕ)
      → List V
      → ℕ
      → Store V × Store (CacheEntry V)
      → Store V × Store (CacheEntry V)
  complete now entries id_of loaded ttl (found, s) =
      let added = keyed id_of (key_map entries []) loaded in
      (by_id entries (set_all added found) [], set_many now added ttl s)

  abbrev missing_ids : List CacheKeyEntry → Store V → List ℕ
  missing_ids entries found =
      map (λ (e : CacheKeyEntry). e.id) (select (λ e. not (is_some (map_get e.key found))) entries)

  abbrev load_missing :
      ℕ
      → List CacheKeyEntry
      → (V → ℕ)
      → (List ℕ → List V)
      → ℕ
      → List ℕ
      → Store V × Store (CacheEntry V)
      → Store V × Store (CacheEntry V)
  load_missing now entries id_of load ttl [] (found, s) = (by_id entries found [], s)
  load_missing now entries id_of load ttl (i ∷ is) r =
      complete now entries id_of (load (i ∷ is)) ttl r

  unfoldable pub remember_many :
      ℕ
      → List CacheKeyEntry
      → (V → ℕ)
      → (List ℕ → List V)
      → ℕ
      → Store (CacheEntry V)
      → Store V × Store (CacheEntry V)
  unfolding get_many set_many select
  remember_many now entries id_of load ttl s =
      let (found, s') = get_many now (map (λ (e : CacheKeyEntry). e.key) entries) [] s in
      load_missing now entries id_of load ttl (missing_ids entries found) (found, s')
