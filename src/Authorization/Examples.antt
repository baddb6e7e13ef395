-- ===== src/Authorization/Examples.antt =====
-- The theorems on authorization at a concrete expression.
use multi_tenant_shipping_ma.Shared.{ℕ, ◌≡◌, ◌↔◌, refl, Bool, ◌==◌, List}
use multi_tenant_shipping_ma.Shared.Effects.{ok}
use multi_tenant_shipping_ma.Authorization.Executor.{
  Failure, sequential, parallel, Expressions, policy, any, all, negation, nothing, also, Verdict,
  execute_expression,
}
use multi_tenant_shipping_ma.Authorization.Verdict.{
  grants, verdict, IsReason, execute_expression-grants, execute_all_modes,
}

-- Policy 1 allows, every other one denies.
abbrev allowed : ℕ → Bool
allowed p = p == 1

abbrev authorize : ℕ → Verdict
authorize p = verdict (allowed p)

abbrev earliest : Failure → List Failure → Failure
earliest x xs = x

earliest-IsReason : IsReason earliest
earliest-IsReason Q x xs h = h.0

abbrev pair : Expressions ℕ
pair = also (policy 1) (also (negation (policy 2)) nothing)

execute_expression-grants_example :
    execute_expression authorize earliest (any (also (policy 3) (also (all parallel pair) nothing)))
    ≡ verdict (grants allowed (any (also (policy 3) (also (all parallel pair) nothing))))
execute_expression-grants_example =
    execute_expression-grants authorize earliest allowed earliest-IsReason (λ p. refl)
      (any (also (policy 3) (also (all parallel pair) nothing)))

execute_all_modes_example :
    (execute_expression authorize earliest (all parallel pair) ≡ ok tt)
    ↔ (execute_expression authorize earliest (all sequential pair) ≡ ok tt)
execute_all_modes_example = execute_all_modes authorize earliest pair
