-- ===== src/Shared/Effects.antt =====
-- Results of methods that throw, and actions of services that read and write stored tables.
-- packages/transaction: `@Transactional()`.
use mathlib.Core.Path.{◌≡◌, refl, ap, ◌∙◌}
use mathlib.Core.Logic.{◌⊎◌, inl, inr}
use mathlib.Core.Bool.{Bool}
use mathlib.Core.Option.{Option, none, some}
use native.Mathlib.Omega.{arith}
use multi_tenant_shipping_ma.Shared.Tests.{if◌then◌else◌}

-- A method returns normally, or throws.
pub data Result (E A : Type 0) : Type 0 where
  ok : A → Result E A
  err : E → Result E A

pub Result-cases :
    {E A : Type 0} (r : Result E A) → ((a : A) × (r ≡ ok a)) ⊎ ((x : E) × (r ≡ err x))
Result-cases (ok a) = inl (a, refl)
Result-cases (err x) = inr (x, refl)

-- What was written before a throw stays written, until a transaction undoes it.
abbrev pub Action : Type 0 → Type 0 → Type 0 → Type 0
Action S E A = S → Result E A × S

infixl 5 ◌>>=◌ ◌>>◌
abbrev pub ◌>>=◌ : {S E A B : Type 0} → Action S E A → (A → Action S E B) → Action S E B
◌>>=◌ m f s = let (r, s') = m s in elim r [ ok a ↦ f a s' | err e ↦ (err e, s') ]

abbrev pub ◌>>◌ : {S E B : Type 0} → Action S E (Unit {0}) → Action S E B → Action S E B
m >> k = m >>= λ _. k

abbrev pub pure : {S E A : Type 0} → A → Action S E A
pure a s = (ok a, s)

abbrev pub throw : {S E A : Type 0} → E → Action S E A
throw e s = (err e, s)

abbrev pub gets : {S E A : Type 0} → (S → A) → Action S E A
gets f s = (ok (f s), s)

abbrev pub modify : {S E : Type 0} → (S → S) → Action S E (Unit {0})
modify f s = (ok tt, f s)

-- A call of a method that only throws or returns.
abbrev pub lift : {S E A : Type 0} → Result E A → Action S E A
lift r s = (r, s)

abbrev pub throw_if : {S E : Type 0} → Bool → E → Action S E (Unit {0})
throw_if b e s = (if b then err e else ok tt, s)

abbrev pub check : {E : Type 0} → Bool → E → Result E (Unit {0})
check b e = if b then err e else ok tt

-- A value that a query found, or the exception thrown when it found none.
abbrev pub or_throw : {S E A : Type 0} → Option A → E → Action S E A
or_throw none e s = (err e, s)
or_throw (some a) e s = (ok a, s)

-- The same as the result of a method.
abbrev pub found_or : {E A : Type 0} → Option A → E → Result E A
found_or none e = err e
found_or (some a) e = ok a

abbrev pub continue : {S E A B : Type 0} → (A → Action S E B) → Result E A × S → Result E B × S
continue f (ok a, s) = f a s
continue f (err e, s) = (err e, s)

continue_lem :
    {S E A B : Type 0} (f : A → Action S E B) (r : Result E A) (s : S)
    → elim r as (λ _. Result E B × S) [ ok a ↦ f a s | err e ↦ (err e, s) ] ≡ continue f (r, s)
continue_lem f (ok a) s = refl
continue_lem f (err e) s = refl

pub >>=-continue :
    {S E A B : Type 0} (m : Action S E A) (f : A → Action S E B) (s : S)
    → (m >>= f) s ≡ continue f (m s)
>>=-continue m f s = continue_lem f (m s).0 (m s).1

-- One step of a `do` block, from what its action is known to give.
pub >>=-step :
    {S E A B : Type 0} (m : Action S E A) (f : A → Action S E B) (s : S) {r : Result E A × S}
    → m s ≡ r
    → (m >>= f) s ≡ continue f r
>>=-step m f s h = >>=-continue m f s ∙ ap (continue f) h

continue_fails :
    {S E A B : Type 0} (f : A → Action S E B) (r : Result E A × S) {x : E}
    → r.0 ≡ err x
    → (continue f r).0 ≡ err x
continue_fails f (ok a, s) h = cc
continue_fails f (err e, s) h = ground arith

pub >>=-fails :
    {S E A B : Type 0} (m : Action S E A) (f : A → Action S E B) (s : S) {x : E}
    → (m s).0 ≡ err x
    → ((m >>= f) s).0 ≡ err x
>>=-fails m f s h = ap (λ p. p.0) (>>=-continue m f s) ∙ continue_fails f (m s) h

abbrev pub settle : {S E A : Type 0} → S → Result E A × S → Result E A × S
settle s (ok a, s') = (ok a, s')
settle s (err e, s') = (err e, s)

-- Commits on success and rolls back when the method throws. A nested call joins the active
-- transaction; since no method here catches, rolling back at each level is the same.
unfoldable pub transactional : {S E A : Type 0} → Action S E A → Action S E A
transactional m s = settle s (m s)

settle_rolls_back :
    {S E A : Type 0} (s : S) (r : Result E A × S) {e : E}
    → (settle s r).0 ≡ err e
    → (settle s r).1 ≡ s
settle_rolls_back s (ok a, s') h = cc
settle_rolls_back s (err e', s') h = refl

pub transactional_rolls_back :
    {S E A : Type 0} (m : Action S E A) (s : S) {e : E}
    → (transactional m s).0 ≡ err e
    → (transactional m s).1 ≡ s
unfolding transactional
transactional_rolls_back m s h = settle_rolls_back s (m s) h

-- A transaction that returns keeps what was written; one that throws leaves what was there.
pub transactional_commits :
    {S E A : Type 0} (m : Action S E A) (s : S) {a : A} {s' : S}
    → m s ≡ (ok a, s')
    → transactional m s ≡ (ok a, s')
unfolding transactional
transactional_commits m s h = ap (settle s) h

settle_throws :
    {S E A : Type 0} (s : S) (r : Result E A × S) {e : E} → (settle s r).0 ≡ err e → r.0 ≡ err e
settle_throws s (ok a, s') h = absurd (cc h)
settle_throws s (err x, s') h = h

-- What a transaction throws is what its body threw.
pub transactional_throws :
    {S E A : Type 0} (m : Action S E A) (s : S) {e : E}
    → (transactional m s).0 ≡ err e
    → (m s).0 ≡ err e
unfolding transactional
transactional_throws m s h = settle_throws s (m s) h

settle_fails :
    {S E A : Type 0} (s : S) (r : Result E A × S) {x : E} → r.0 ≡ err x → settle s r ≡ (err x, s)
settle_fails s (ok a, s') h = cc
settle_fails s (err e, s') h = ground arith

pub transactional_fails :
    {S E A : Type 0} (m : Action S E A) (s : S) {x : E}
    → (m s).0 ≡ err x
    → transactional m s ≡ (err x, s)
unfolding transactional
transactional_fails m s h = settle_fails s (m s) h
