-- ===== src/Shared/Table/Keys.antt =====
-- Tables whose rows have a primary key.
use multi_tenant_shipping_ma.Shared.Tests.{◌==◌, if◌then◌else◌, ==_ne, ==_refl, Bool-cases}
use multi_tenant_shipping_ma.Shared.Lists.{All}
use Prim.Native.Nat.{ℕ}
use mathlib.Core.Path.{◌≡◌, refl, sym, subst, ◌∙◌}
use mathlib.Core.Logic.{◌≢◌, inl, inr}
use mathlib.Core.Bool.{Bool, false, ◌&&◌}
use mathlib.Core.Option
use mathlib.Core.Option.{Option, none, some}
use mathlib.Core.List.{List, [], ◌∷◌}
use native.Mathlib.Omega.{arith}
use multi_tenant_shipping_ma.Shared.Table.Queries.{
  find_first, update_many, count_if, count_if-none, All-update_many, All-find_first,
}

module _ {A : Type 0} (key : A → ℕ) where
  abbrev pub has_key : ℕ → A → Bool
  has_key k x = key x == k

  abbrev pub UniqueKeys : List A → Type 0
  UniqueKeys [] = Unit
  UniqueKeys (x ∷ xs) = All (λ y. key y ≢ key x) xs × UniqueKeys xs

  All-ne-has_key :
      (k : ℕ) (xs : List A) → All (λ y. key y ≢ k) xs → All (λ y. has_key k y ≡ false) xs
  All-ne-has_key k [] h = tt
  All-ne-has_key k (x ∷ xs) h = (==_ne (key x) k h.0, All-ne-has_key k xs h.1)

  All-ne-update_many :
      (k : ℕ) (test : A → Bool) (f : A → A) (xs : List A)
      → ((x : A) → key (f x) ≡ key x)
      → All (λ y. key y ≢ k) xs
      → All (λ y. key y ≢ k) (update_many test f xs)
  All-ne-update_many k test f xs same h =
      All-update_many (λ y. key y ≢ k) (λ y. key y ≢ k) test f xs
        (λ x p _. λ e. p (sym (same x) ∙ e)) (λ x p _. p) h

  pub update_many-UniqueKeys :
      (test : A → Bool) (f : A → A) (xs : List A)
      → ((x : A) → key (f x) ≡ key x)
      → UniqueKeys xs
      → UniqueKeys (update_many test f xs)
  unfolding update_many
  update_many-UniqueKeys test f [] same h = tt
  update_many-UniqueKeys test f (x ∷ xs) same h =
      let rest = update_many-UniqueKeys test f xs same h.1 in
      let apart = All-ne-update_many (key x) test f xs same h.0 in
      elim (Bool-cases (test x)) [
        | inl t ↦ rw (t, same x) (apart, rest)
        | inr t ↦ rw t (apart, rest)
      ]

  -- A row that some search finds is the one that its key finds.
  pub find_first-by_key :
      (test : A → Bool) (xs : List A) {r : A}
      → UniqueKeys xs
      → find_first test xs ≡ some r
      → find_first (has_key (key r)) xs ≡ some r
  unfolding find_first
  find_first-by_key test [] u e = absurd (cc e)
  find_first-by_key test (x ∷ xs) {r} u e = elim (Bool-cases (test x)) [
    | inl t ↦
        let same : x ≡ r = ground arith in
        subst (λ y. find_first (has_key (key y)) (x ∷ xs) ≡ some y) same (rw (==_refl (key x)))
    | inr t ↦
        let later = rw t at e in
        let apart : key x ≢ key r =
          λ h. All-find_first (λ y. key y ≢ key x) test xs later u.0 (sym h) in
        rw (==_ne (key x) (key r) apart) (find_first-by_key test xs u.1 later)
  ]

  -- Looking a row up after an update gives the row, updated if it fits.
  pub find_first-update_many :
      (k : ℕ) (test : A → Bool) (f : A → A) (xs : List A)
      → ((x : A) → key (f x) ≡ key x)
      → find_first (has_key k) (update_many test f xs)
        ≡ Option.map (λ x. if test x then f x else x) (find_first (has_key k) xs)
  unfolding find_first update_many
  find_first-update_many k test f [] same = refl
  find_first-update_many k test f (x ∷ xs) same =
      ground (arith, same x, find_first-update_many k test f xs same)

  All-ne-keyed :
      (k : ℕ) (q : A → Bool) (xs : List A)
      → All (λ y. key y ≢ k) xs
      → All (λ y. (key y == k && q y) ≡ false) xs
  All-ne-keyed k q [] h = tt
  All-ne-keyed k q (x ∷ xs) h = (rw (==_ne (key x) k h.0), All-ne-keyed k q xs h.1)

  -- The rows that fit a test on one key are at most the row with that key.
  pub count_if-keyed :
      (k : ℕ) (q : A → Bool) (xs : List A) {r : A}
      → UniqueKeys xs
      → find_first (has_key k) xs ≡ some r
      → count_if (λ x. key x == k && q x) xs ≡ (if q r then 1 else 0)
  unfolding find_first count_if
  count_if-keyed k q [] u e = absurd (cc e)
  count_if-keyed k q (x ∷ xs) {r} u e = elim (Bool-cases (key x == k)) [
    | inl t ↦
        let same : x ≡ r = ground arith in
        let here : key x ≡ k = ground arith in
        let others = All-ne-keyed k q xs (subst (λ n. All (λ y. key y ≢ n) xs) here u.0) in
        rw (← same) (ground (arith, count_if-none (λ y. key y == k && q y) xs others))
    | inr t ↦ rw t (omega (arith, count_if-keyed k q xs {r = r} u.1 (rw t at e)))
  ]

  All-others :
      (P Q : A → Type 0) (k : ℕ) (test : A → Bool) (f : A → A) (xs : List A)
      → ((x : A) → key x ≢ k → test x ≡ false)
      → ((x : A) → key x ≢ k → P x → Q x)
      → All (λ y. key y ≢ k) xs
      → All P xs
      → All Q (update_many test f xs)
  unfolding update_many
  All-others P Q k test f [] miss others apart h = tt
  All-others P Q k test f (x ∷ xs) miss others apart h = (
    rw (miss x apart.0) (others x apart.0 h.0),
    All-others P Q k test f xs miss others apart.1 h.1,
  )

  -- An update of the row with one key turns `P` into `Q` on the whole table, if it does so on that
  -- row and the other rows have both.
  pub All-update_keyed :
      (P Q : A → Type 0) (k : ℕ) (test : A → Bool) (f : A → A) (xs : List A) {r : A}
      → UniqueKeys xs
      → find_first (has_key k) xs ≡ some r
      → ((x : A) → key x ≢ k → test x ≡ false)
      → ((x : A) → key x ≢ k → P x → Q x)
      → (P r → Q (if test r then f r else r))
      → All P xs
      → All Q (update_many test f xs)
  unfolding find_first update_many
  All-update_keyed P Q k test f [] u e miss others this h = tt
  All-update_keyed P Q k test f (x ∷ xs) {r} u e miss others this h =
      elim (Bool-cases (key x == k)) [
        | inl t ↦
            let same : x ≡ r = ground arith in
            let here : key x ≡ k = ground arith in
            let apart = subst (λ n. All (λ y. key y ≢ n) xs) here u.0 in
            (
              subst (λ y. P y → Q (if test y then f y else y)) (sym same) this h.0,
              All-others P Q k test f xs miss others apart h.1,
            )
        | inr t ↦
            let apart : key x ≢ k = λ e'. ground arith in
            (
              rw (miss x apart) (others x apart h.0),
              All-update_keyed P Q k test f xs u.1 (rw t at e) miss others this h.1,
            )
      ]
