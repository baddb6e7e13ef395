-- ===== src/Shared/AllOrNothing.antt =====
-- Actions that write all that they promise when they return, and nothing when they throw.
use mathlib.Core.Path.{◌≡◌, refl, sym, subst, ap, ◌∙◌}
use multi_tenant_shipping_ma.Shared.Effects.{
  Result, ok, err, Action, ◌>>=◌, continue, >>=-continue, lift, transactional, settle,
}
use multi_tenant_shipping_ma.Shared.Ensures.{Ensures}

abbrev pub AllOrNothing : {S E A : Type 0} → (A → S → Type 0) → S → Result E A × S → Type 0
AllOrNothing Q s (ok a, s') = Q a s'
AllOrNothing Q s (err e, s') = s' ≡ s

module _ {S E A B : Type 0} (Q : B → S → Type 0) where
  -- An action that only reads.
  pub read-step :
      (m : Action S E A) (f : A → Action S E B) (s : S)
      → (m s).1 ≡ s
      → ((a : A) → m s ≡ (ok a, s) → AllOrNothing Q s (f a s))
      → AllOrNothing Q s ((m >>= f) s)
  read-step m f s same k = subst (AllOrNothing Q s) (sym (>>=-continue m f s)) (go (m s) refl same)
    where
      go : (r : Result E A × S) → m s ≡ r → r.1 ≡ s → AllOrNothing Q s (continue f r)
      go (ok a, s') e p =
          subst (λ t. AllOrNothing Q s (f a t)) (sym p) (k a (e ∙ ap (λ t. (ok a, t)) p))
      go (err x, s') e p = p

  pub lift_reads :
      (r : Result E A) (f : A → Action S E B) (s : S)
      → ((a : A) → r ≡ ok a → AllOrNothing Q s (f a s))
      → AllOrNothing Q s ((lift r >>= f) s)
  lift_reads (ok a) f s k = k a refl
  lift_reads (err e) f s k = refl

module _ {S E A : Type 0} where
  settle-AllOrNothing :
      (Q : A → S → Type 0) (s : S) (r : Result E A × S)
      → Ensures Q r
      → AllOrNothing Q s (settle s r)
  settle-AllOrNothing Q s (ok a, s') h = h
  settle-AllOrNothing Q s (err e, s') h = refl

  pub transactional-AllOrNothing :
      (Q : A → S → Type 0) (m : Action S E A) (s : S)
      → Ensures Q (m s)
      → AllOrNothing Q s (transactional m s)
  unfolding transactional
  transactional-AllOrNothing Q m s h = settle-AllOrNothing Q s (m s) h

  -- What holds before, and of every result, holds afterwards.
  pub AllOrNothing-leaves :
      (P : S → Type 0) (Q : A → S → Type 0) (s : S) (r : Result E A × S)
      → P s
      → ((a : A) (s' : S) → Q a s' → P s')
      → AllOrNothing Q s r
      → P r.1
  AllOrNothing-leaves P Q s (ok a, s') p k h = k a s' h
  AllOrNothing-leaves P Q s (err e, s') p k h = subst P (sym h) p
