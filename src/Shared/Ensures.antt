-- ===== src/Shared/Ensures.antt =====
-- What holds when an action returns, step by step through a `do` block.
use mathlib.Core.Path.{◌≡◌, refl, sym, subst, ap, ◌∙◌}
use mathlib.Core.Bool.{Bool, true, false}
use mathlib.Core.Option.{Option, none, some}
use multi_tenant_shipping_ma.Shared.Tests.{if◌then◌else◌}
use multi_tenant_shipping_ma.Shared.Effects.{
  Result, ok, err, Action, ◌>>=◌, continue, >>=-continue, or_throw, throw_if, lift, transactional,
  settle,
}

abbrev pub Ensures {κ} : {S E A : Type 0} → (A → S → Type κ) → Result E A × S → Type κ
Ensures Q (ok a, s) = Q a s
Ensures Q (err e, s) = Unit

module _ {κ} {S E A B : Type 0} (Q : B → S → Type κ) where
  -- An action whose result is known.
  pub known-step :
      (m : Action S E A) (f : A → Action S E B) (s : S) (r : Result E A × S)
      → m s ≡ r
      → Ensures Q (continue f r)
      → Ensures Q ((m >>= f) s)
  known-step m f s r h k =
      subst (Ensures Q) (sym (>>=-continue m f s)) (subst (λ t. Ensures Q (continue f t)) (sym h) k)

  pub or_throw-step :
      (o : Option A) (e : E) (f : A → Action S E B) (s : S)
      → ((a : A) → o ≡ some a → Ensures Q (f a s))
      → Ensures Q ((or_throw o e >>= f) s)
  or_throw-step none e f s k = tt
  or_throw-step (some a) e f s k = k a refl

  pub lift-step :
      (r : Result E A) (f : A → Action S E B) (s : S)
      → ((a : A) → r ≡ ok a → Ensures Q (f a s))
      → Ensures Q ((lift r >>= f) s)
  lift-step (ok a) f s k = k a refl
  lift-step (err e) f s k = tt

  -- An action that has written, and then throws if a test holds.
  pub test-step :
      (m : Action S E A) (b : Bool) (e : E) (a : A) (s' : S) (f : A → Action S E B) (s : S)
      → m s ≡ (if b then err e else ok a, s')
      → (b ≡ false → Ensures Q (f a s'))
      → Ensures Q ((m >>= f) s)
  test-step m true e a s' f s h k = known-step m f s _ h tt
  test-step m false e a s' f s h k = known-step m f s _ h (k refl)

  -- An action of which a postcondition is known.
  pub Ensures-step {μ} :
      (R : A → S → Type μ) (m : Action S E A) (f : A → Action S E B) (s : S)
      → Ensures R (m s)
      → ((a : A) (s' : S) → R a s' → Ensures Q (f a s'))
      → Ensures Q ((m >>= f) s)
  Ensures-step R m f s h k = go (m s) (>>=-continue m f s) h
    where
      go : (r : Result E A × S) → (m >>= f) s ≡ continue f r → Ensures R r → Ensures Q ((m >>= f) s)
      go (ok a, s') e r = subst (Ensures Q) (sym e) (k a s' r)
      go (err x, s') e r = subst (Ensures Q) (sym e) tt

module _ {κ} {S E B : Type 0} (Q : B → S → Type κ) where
  pub throw_if-step :
      (b : Bool) (e : E) (f : Unit {0} → Action S E B) (s : S)
      → (b ≡ false → Ensures Q (f tt s))
      → Ensures Q ((throw_if b e >>= f) s)
  throw_if-step true e f s k = tt
  throw_if-step false e f s k = k refl

module _ {κ} {S E A : Type 0} where
  settle-Ensures :
      (Q : A → S → Type κ) (s : S) (r : Result E A × S) → Ensures Q r → Ensures Q (settle s r)
  settle-Ensures Q s (ok a, s') h = h
  settle-Ensures Q s (err e, s') h = tt

  pub transactional-Ensures :
      (Q : A → S → Type κ) (m : Action S E A) (s : S)
      → Ensures Q (m s)
      → Ensures Q (transactional m s)
  unfolding transactional
  transactional-Ensures Q m s h = settle-Ensures Q s (m s) h

  settle_outcome {μ} :
      (P : S → Type κ) (Q : A → S → Type μ) (s : S) (r : Result E A × S)
      → P s
      → Ensures Q (settle s r)
      → ((a : A) (s' : S) → Q a s' → P s')
      → P (settle s r).1
  settle_outcome P Q s (ok a, s') p h k = k a s' h
  settle_outcome P Q s (err e, s') p h k = p

  -- What holds at the start, and of every result, holds after the transaction.
  pub transactional_outcome {μ} :
      (P : S → Type κ) (Q : A → S → Type μ) (m : Action S E A) (s : S)
      → P s
      → Ensures Q (transactional m s)
      → ((a : A) (s' : S) → Q a s' → P s')
      → P (transactional m s).1
  unfolding transactional
  transactional_outcome P Q m s p h k = settle_outcome P Q s (m s) p h k

module _ {κ} {S E A B : Type 0} where
  -- What the rest of a `do` block gives, from what its first action returned.
  pub bind-Ensures :
      (Q : B → S → Type κ) (m : Action S E A) (f : A → Action S E B) (s : S)
      → ((a : A) (s' : S) → m s ≡ (ok a, s') → Ensures Q (f a s'))
      → Ensures Q ((m >>= f) s)
  bind-Ensures Q m f s k = go (m s) refl
    where
      go : (r : Result E A × S) → m s ≡ r → Ensures Q ((m >>= f) s)
      go (ok a, s') e = known-step Q m f s (ok a, s') e (k a s' e)
      go (err x, s') e = known-step Q m f s (err x, s') e tt

  -- What holds of the state after a `do` block, whether it returns or throws.
  pub bind_leaves :
      (P : S → Type κ) (m : Action S E A) (f : A → Action S E B) (s : S)
      → P (m s).1
      → ((a : A) (s' : S) → m s ≡ (ok a, s') → P (f a s').1)
      → P ((m >>= f) s).1
  bind_leaves P m f s p k = go (m s) refl (>>=-continue m f s)
    where
      go : (r : Result E A × S) → m s ≡ r → (m >>= f) s ≡ continue f (m s) → P ((m >>= f) s).1
      go (ok a, s') e c = subst (λ t. P t.1) (sym (c ∙ ap (continue f) e)) (k a s' e)
      go (err x, s') e c = subst (λ t. P t.1) (sym (c ∙ ap (continue f) e)) (subst (λ t. P t.1) e p)

module _ {κ} {S E A : Type 0} where
  -- An action that has written, and throws at its end if a test holds.
  pub tested-Ensures :
      (Q : A → S → Type κ) (b : Bool) (e : E) (a : A) (s : S)
      → Q a s
      → Ensures Q (if b then err e else ok a, s)
  tested-Ensures Q true e a s h = tt
  tested-Ensures Q false e a s h = h

  pub Ensures-map {μ} :
      (P : A → S → Type κ) (Q : A → S → Type μ) (r : Result E A × S)
      → ((a : A) (s : S) → P a s → Q a s)
      → Ensures P r
      → Ensures Q r
  Ensures-map P Q (ok a, s) f h = f a s h
  Ensures-map P Q (err e, s) f h = tt

module _ {κ} {S E A : Type 0} where
  settle_leaves : (P : S → Type κ) (s : S) (r : Result E A × S) → P s → P r.1 → P (settle s r).1
  settle_leaves P s (ok a, s') p q = q
  settle_leaves P s (err e, s') p q = p

  pub transactional_leaves :
      (P : S → Type κ) (m : Action S E A) (s : S) → P s → P (m s).1 → P (transactional m s).1
  unfolding transactional
  transactional_leaves P m s p q = settle_leaves P s (m s) p q

module _ {κ} {S E A B : Type 0} where
  -- An action that only reads, before the rest of a `do` block.
  pub read_leaves :
      (P : S → Type κ) (m : Action S E A) (f : A → Action S E B) (s : S)
      → (m s).1 ≡ s
      → P s
      → ((a : A) → m s ≡ (ok a, s) → P (f a s).1)
      → P ((m >>= f) s).1
  read_leaves P m f s same p k = bind_leaves P m f s (subst P (sym same) p) (λ a s' e.
      let back : s' ≡ s = sym (ap (λ r. r.1) e) ∙ same in
      subst (λ t. P (f a t).1) (sym back) (k a (e ∙ ap (λ t. (ok a, t)) back)))
