-- ===== src/Authorization/Executor.antt =====
-- contracts/authorization-expression.type.ts, builders/any-of.ts, builders/all-of.ts, builders/not.ts
-- and executors/authorization.executor.ts of backend/src/packages/authorization.
use multi_tenant_shipping_ma.Shared.{ℕ, Option, none, some, List, [], ◌∷◌, get_or}
use multi_tenant_shipping_ma.Shared.Effects.{Result, ok, err}

-- What a policy throws: `AccessDeniedException`, or anything else.
pub data Failure : Type 0 where
  access_denied : Failure
  other : ℕ → Failure

pub data Mode : Type 0 where
  sequential parallel : Mode

mutual
  pub data Expression (P : Type 0) : Type 0 where
    policy : P → Expression P
    any : Expressions P → Expression P
    all : Mode → Expressions P → Expression P
    negation : Expression P → Expression P

  pub data Expressions (P : Type 0) : Type 0 where
    nothing : Expressions P
    also : Expression P → Expressions P → Expressions P

abbrev pub Verdict : Type 0
Verdict = Result Failure (Unit {0})

-- `executeNot`
unfoldable pub execute_not : Verdict → Verdict
execute_not (ok a) = err access_denied
execute_not (err access_denied) = ok tt
execute_not (err (other e)) = err (other e)

abbrev pub failures : Verdict → List Failure → List Failure
failures (ok a) fs = fs
failures (err x) fs = x ∷ fs

-- A policy is executed on the context and the payload of the call, which do not change. When
-- several of the promises given to `Promise.all` reject, `first` is the reason of the earliest.
module _ {P : Type 0} (authorize : P → Verdict) (first : Failure → List Failure → Failure) where
  -- `Promise.all`
  unfoldable pub join : List Failure → Verdict
  join [] = ok tt
  join (x ∷ xs) = err (first x xs)

  unfoldable mutual
    unfolding execute_not join

    pub execute_expression : Expression P → Verdict
    execute_expression (policy p) = authorize p
    execute_expression (any es) = execute_any none es
    execute_expression (all sequential es) = execute_sequence es
    execute_expression (all parallel es) = join (rejections es)
    execute_expression (negation e) = execute_not (execute_expression e)

    pub execute_any : Option Failure → Expressions P → Verdict
    execute_any last nothing = err (get_or last access_denied)
    execute_any last (also e es) = elim (execute_expression e) [
      | ok a ↦ ok tt
      | err x ↦ execute_any (some x) es
    ]

    pub execute_sequence : Expressions P → Verdict
    execute_sequence nothing = ok tt
    execute_sequence (also e es) = elim (execute_expression e) [
      | ok a ↦ execute_sequence es
      | err x ↦ err x
    ]

    -- What the children that are started together reject with.
    pub rejections : Expressions P → List Failure
    rejections nothing = []
    rejections (also e es) = failures (execute_expression e) (rejections es)
