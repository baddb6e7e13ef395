-- ===== src/Shared/Table/Queries.antt =====
-- A stored table as a list of rows, and the queries that the repositories make: the first row that
-- fits, the number of rows that fit, and an update of all rows that fit.
use multi_tenant_shipping_ma.Shared.Tests.{◌==◌, if◌then◌else◌, Bool-cases}
use multi_tenant_shipping_ma.Shared.Lists.{All}
use Prim.Native.Nat.{ℕ, ◌+◌}
use mathlib.Core.Path.{◌≡◌, refl, subst, sym, ap, ◌∙◌}
use mathlib.Core.Logic.{inl, inr}
use mathlib.Core.Bool.{Bool, true, false, ◌&&◌}
use mathlib.Core.Option.{Option, none, some}
use mathlib.Core.List.{List, [], ◌∷◌}
use native.Mathlib.Omega.{arith}

module _ {A : Type 0} where
  -- `findFirst({ where })`
  unfoldable pub find_first : (A → Bool) → List A → Option A
  find_first test [] = none
  find_first test (x ∷ xs) = if test x then some x else find_first test xs

  -- The rows that `updateMany({ where, data })` leaves, and the `count` that it returns.
  unfoldable pub update_many : (A → Bool) → (A → A) → List A → List A
  update_many test f [] = []
  update_many test f (x ∷ xs) = (if test x then f x else x) ∷ update_many test f xs

  unfoldable pub count_if : (A → Bool) → List A → ℕ
  count_if test [] = 0
  count_if test (x ∷ xs) = (if test x then 1 else 0) + count_if test xs

  -- `findMany({ where })`
  unfoldable pub select : (A → Bool) → List A → List A
  select test [] = []
  select test (x ∷ xs) = let rest = select test xs in if test x then x ∷ rest else rest

  -- `deleteMany({ where })`
  unfoldable pub delete_many : (A → Bool) → List A → List A
  delete_many test [] = []
  delete_many test (x ∷ xs) = let rest = delete_many test xs in if test x then rest else x ∷ rest

  pub All-update_many :
      (P Q : A → Type 0) (test : A → Bool) (f : A → A) (xs : List A)
      → ((x : A) → P x → test x ≡ true → Q (f x))
      → ((x : A) → P x → test x ≡ false → Q x)
      → All P xs
      → All Q (update_many test f xs)
  unfolding update_many
  All-update_many P Q test f [] hit miss h = tt
  All-update_many P Q test f (x ∷ xs) hit miss h =
      let rest = All-update_many P Q test f xs hit miss h.1 in
      elim (Bool-cases (test x)) [
        | inl e ↦ rw e (hit x h.0 e, rest)
        | inr e ↦ rw e (miss x h.0 e, rest)
      ]

  pub All-find_first :
      (P : A → Type 0) (test : A → Bool) (xs : List A) {r : A}
      → find_first test xs ≡ some r
      → All P xs
      → P r
  unfolding find_first
  All-find_first P test [] e h = absurd (cc e)
  All-find_first P test (x ∷ xs) {r} e h = elim (Bool-cases (test x)) [
    | inl t ↦ let same : x ≡ r = ground arith in subst P same h.0
    | inr t ↦ All-find_first P test xs (rw t at e) h.1
  ]

  pub find_first_fits :
      (test : A → Bool) (xs : List A) {r : A} → find_first test xs ≡ some r → test r ≡ true
  unfolding find_first
  find_first_fits test [] e = absurd (cc e)
  find_first_fits test (x ∷ xs) {r} e = elim (Bool-cases (test x)) [
    | inl t ↦ let same : x ≡ r = ground arith in subst (λ y. test y ≡ true) same t
    | inr t ↦ find_first_fits test xs (rw t at e)
  ]

  -- No row fits: nothing is counted, nothing is found, and the update leaves the table alone.
  pub count_if-none :
      (test : A → Bool) (xs : List A) → All (λ x. test x ≡ false) xs → count_if test xs ≡ 0
  unfolding count_if
  count_if-none test [] h = refl
  count_if-none test (x ∷ xs) h = ground (arith, count_if-none test xs h.1)

  pub find_first-none :
      (test : A → Bool) (xs : List A) → All (λ x. test x ≡ false) xs → find_first test xs ≡ none
  unfolding find_first
  find_first-none test [] h = refl
  find_first-none test (x ∷ xs) h = ground (arith, find_first-none test xs h.1)

  pub none-find_first :
      (test : A → Bool) (xs : List A) → find_first test xs ≡ none → All (λ x. test x ≡ false) xs
  unfolding find_first
  none-find_first test [] h = tt
  none-find_first test (x ∷ xs) h = elim (Bool-cases (test x)) [
    | inl t ↦ absurd (ground arith)
    | inr t ↦ (t, none-find_first test xs (rw t at h))
  ]

  pub count_if-update_many :
      (p test : A → Bool) (f : A → A) (xs : List A)
      → ((x : A) → test x ≡ true → p (f x) ≡ p x)
      → count_if p (update_many test f xs) ≡ count_if p xs
  unfolding count_if update_many
  count_if-update_many p test f [] h = refl
  count_if-update_many p test f (x ∷ xs) h = ground (arith, h x, count_if-update_many p test f xs h)

  -- An update after which no row fits any more is settled: doing it again changes nothing.
  pub count_if-updated :
      (test : A → Bool) (f : A → A) (xs : List A)
      → ((x : A) → test x ≡ true → test (f x) ≡ false)
      → count_if test (update_many test f xs) ≡ 0
  unfolding count_if update_many
  count_if-updated test f [] h = refl
  count_if-updated test f (x ∷ xs) h = ground (arith, h x, count_if-updated test f xs h)

  pub update_many_twice :
      (test : A → Bool) (f : A → A) (xs : List A)
      → ((x : A) → test x ≡ true → test (f x) ≡ false)
      → update_many test f (update_many test f xs) ≡ update_many test f xs
  unfolding update_many
  update_many_twice test f [] h = refl
  update_many_twice test f (x ∷ xs) h = ground (arith, h x, update_many_twice test f xs h)

  -- A row that one test finds is counted by a wider one.
  pub count_if-found :
      (p q : A → Bool) (xs : List A) {r : A}
      → find_first p xs ≡ some r
      → ((x : A) → p x ≡ true → q x ≡ true)
      → (count_if q xs == 0) ≡ false
  unfolding find_first count_if
  count_if-found p q [] e wider = absurd (cc e)
  count_if-found p q (x ∷ xs) {r} e wider = elim (Bool-cases (p x)) [
    | inl t ↦ rw (wider x t) (ground arith)
    | inr t ↦ ground (arith, count_if-found p q xs {r = r} (rw t at e) wider)
  ]

  -- A row that one test finds and another one fits is counted by that one.
  pub count_if-hit :
      (p q : A → Bool) (xs : List A) {r : A}
      → find_first p xs ≡ some r
      → q r ≡ true
      → (count_if q xs == 0) ≡ false
  unfolding find_first count_if
  count_if-hit p q [] e fits = absurd (cc e)
  count_if-hit p q (x ∷ xs) {r} e fits = elim (Bool-cases (p x)) [
    | inl t ↦ let same : x ≡ r = ground arith in rw (ap q same ∙ fits) (ground arith)
    | inr t ↦ ground (arith, count_if-hit p q xs {r = r} (rw t at e) fits)
  ]

  -- One selection from another is a selection by both tests.
  pub select-select :
      (p q r : A → Bool) (xs : List A)
      → ((x : A) → (p x && q x) ≡ r x)
      → select q (select p xs) ≡ select r xs
  unfolding select
  select-select p q r [] h = refl
  select-select p q r (x ∷ xs) h =
      let both = h x in
      let rest = select-select p q r xs h in
      elim (Bool-cases (p x)) [
        | inr n ↦ let off : r x ≡ false = sym both ∙ rw n refl in rw (n, off) rest
        | inl y ↦ elim (Bool-cases (q x)) [
          | inr n ↦ let off : r x ≡ false = sym both ∙ rw (y, n) refl in rw (y, n, off) rest
          | inl z ↦
              let on : r x ≡ true = sym both ∙ rw (y, z) refl in
              rw (y, z, on) (ap (λ l. x ∷ l) rest)
        ]
      ]
