-- ===== src/Authorization/Verdict.antt =====
-- What `authorize` decides, as a Boolean formula over what the policies allow.
use multi_tenant_shipping_ma.Shared.{
  ◌≡◌, ◌↔◌, refl, ap, ◌∙◌, Bool, true, false, not, ◌&&◌, ◌||◌, Option, none, some, List, [], ◌∷◌,
  All, get_or, Bool-cases, inl, inr,
}
use multi_tenant_shipping_ma.Shared.Effects.{ok, err, Result-cases}
use multi_tenant_shipping_ma.Authorization.Executor.{
  Failure, access_denied, sequential, parallel, Expression, Expressions, policy, any, all, negation,
  nothing, also, Verdict, execute_not, join, execute_expression, execute_any, execute_sequence,
  rejections,
}

module _ {P : Type 0} (allowed : P → Bool) where
  -- The formula: conjunction, disjunction and negation, whichever way the conjuncts are run.
  unfoldable mutual
    pub grants : Expression P → Bool
    grants (policy p) = allowed p
    grants (any es) = some_grants es
    grants (all mode es) = all_grant es
    grants (negation e) = not (grants e)

    pub some_grants : Expressions P → Bool
    some_grants nothing = false
    some_grants (also e es) = grants e || some_grants es

    pub all_grant : Expressions P → Bool
    all_grant nothing = true
    all_grant (also e es) = grants e && all_grant es

abbrev pub verdict : Bool → Verdict
verdict true = ok tt
verdict false = err access_denied

abbrev is_nil : List Failure → Bool
is_nil [] = true
is_nil (x ∷ xs) = false

abbrev Denies : Failure → Type 0
Denies x = x ≡ access_denied

-- `Promise.all` rejects with the reason of one of the promises.
abbrev pub IsReason : (Failure → List Failure → Failure) → Type 1
IsReason first =
    (Q : Failure → Type 0) (x : Failure) (xs : List Failure) → All Q (x ∷ xs) → Q (first x xs)

execute_not-verdict : (b : Bool) → execute_not (verdict b) ≡ verdict (not b)
unfolding execute_not
execute_not-verdict true = refl
execute_not-verdict false = refl

module _ {P : Type 0} (authorize : P → Verdict) (first : Failure → List Failure → Failure) where
  join-verdict :
      (xs : List Failure)
      → IsReason first
      → All Denies xs
      → join authorize first xs ≡ verdict (is_nil xs)
  unfolding join
  join-verdict [] reason h = refl
  join-verdict (x ∷ xs) reason h = ap err (reason Denies x xs h)

  module _ (allowed : P → Bool) (reason : IsReason first)
      (only : (p : P) → authorize p ≡ verdict (allowed p)) where
    mutual
      unfolding execute_expression grants

      verdict-grants :
          (e : Expression P) → execute_expression authorize first e ≡ verdict (grants allowed e)
      verdict-grants (policy p) = only p
      verdict-grants (any es) = any-grants none es refl
      verdict-grants (all sequential es) = sequence-grants es
      verdict-grants (all parallel es) =
          join-verdict (rejections authorize first es) reason (rejections-Denies es)
          ∙ ap verdict (rejections-grants es)
      verdict-grants (negation e) =
          ap execute_not (verdict-grants e) ∙ execute_not-verdict (grants allowed e)

      any-grants :
          (last : Option Failure) (es : Expressions P)
          → get_or last access_denied ≡ access_denied
          → execute_any authorize first last es ≡ verdict (some_grants allowed es)
      any-grants last nothing h = ap err h
      any-grants last (also e es) h = elim (Bool-cases (grants allowed e)) [
        | inl g ↦ rw (verdict-grants e, g) refl
        | inr g ↦ rw (verdict-grants e, g) (any-grants (some access_denied) es refl)
      ]

      sequence-grants :
          (es : Expressions P)
          → execute_sequence authorize first es ≡ verdict (all_grant allowed es)
      sequence-grants nothing = refl
      sequence-grants (also e es) = elim (Bool-cases (grants allowed e)) [
        | inl g ↦ rw (verdict-grants e, g) (sequence-grants es)
        | inr g ↦ rw (verdict-grants e, g) refl
      ]

      rejections-Denies : (es : Expressions P) → All Denies (rejections authorize first es)
      rejections-Denies nothing = tt
      rejections-Denies (also e es) =
          let rest = rejections-Denies es in
          elim (Bool-cases (grants allowed e)) [
            | inl g ↦ rw (verdict-grants e, g) rest
            | inr g ↦ rw (verdict-grants e, g) (refl, rest)
          ]

      rejections-grants :
          (es : Expressions P) → is_nil (rejections authorize first es) ≡ all_grant allowed es
      rejections-grants nothing = refl
      rejections-grants (also e es) = elim (Bool-cases (grants allowed e)) [
        | inl g ↦ rw (verdict-grants e, g) (rejections-grants es)
        | inr g ↦ rw (verdict-grants e, g) refl
      ]

    -- When every policy either allows or throws AccessDeniedException, executing an expression
    -- returns exactly if the Boolean formula that it stands for holds, and otherwise throws
    -- AccessDeniedException, whichever of several rejected promises comes first.
    pub execute_expression-grants :
        (e : Expression P) → execute_expression authorize first e ≡ verdict (grants allowed e)
    execute_expression-grants e = verdict-grants e

  -- Only the empty list of rejections is a success.
  parallel_passes :
      (es : Expressions P)
      → execute_expression authorize first (all parallel es) ≡ ok tt
      → execute_sequence authorize first es ≡ ok tt
  unfolding execute_expression join
  parallel_passes nothing h = refl
  parallel_passes (also e es) h = elim (Result-cases (execute_expression authorize first e)) [
    | inl (a, k) ↦ rw k (parallel_passes es (rw k at h))
    | inr (x, k) ↦ absurd (cc (rw k at h))
  ]

  sequence_passes :
      (es : Expressions P)
      → execute_sequence authorize first es ≡ ok tt
      → execute_expression authorize first (all parallel es) ≡ ok tt
  unfolding execute_expression join
  sequence_passes nothing h = refl
  sequence_passes (also e es) h = elim (Result-cases (execute_expression authorize first e)) [
    | inl (a, k) ↦ rw k (sequence_passes es (rw k at h))
    | inr (x, k) ↦ absurd (cc (rw k at h))
  ]

  -- Whatever the policies throw, a conjunction passes in parallel mode exactly if it passes in
  -- sequential mode.
  pub execute_all_modes :
      (es : Expressions P)
      → (execute_expression authorize first (all parallel es) ≡ ok tt)
        ↔ (execute_expression authorize first (all sequential es) ≡ ok tt)
  unfolding execute_expression
  execute_all_modes es = (parallel_passes es, sequence_passes es)
