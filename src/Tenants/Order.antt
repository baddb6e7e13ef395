-- ===== src/Tenants/Order.antt =====
-- ORDER BY a column, newest first: when no two rows agree in it, there is one such order.
use mathlib.Core.List.{Permᴰ}
use mathlib.Core.List.Permᴰ
use multi_tenant_shipping_ma.Shared.{
  ℕ, suc, length, ◌≤◌, ◌<◌, ◌≡◌, ◌≢◌, refl, sym, ap, subst, ◌∙◌, List, [], ◌∷◌, All, All-map,
  All-both, arith,
}
use multi_tenant_shipping_ma.Shared.Table.{UniqueKeys}

pub perm-length : {A : Type 0} {xs ys : List A} → Permᴰ xs ys → length xs ≡ length ys
perm-length Permᴰ.nil = refl
perm-length (Permᴰ.cons e p) = ap suc (perm-length p)
perm-length (Permᴰ.swap e f) = refl
perm-length (Permᴰ.trans p q) = perm-length p ∙ perm-length q

module _ {A : Type 0} (key : A → ℕ) where
  abbrev pub IsDescending : List A → Type 0
  IsDescending [] = Unit
  IsDescending (x ∷ xs) = All (λ y. key y ≤ key x) xs × IsDescending xs

  -- What a database promises of ORDER BY: the same rows, in that order.
  pub record IsOrderBy (order : List A → List A) : Type 0 where
    pub keeps : (xs : List A) → Permᴰ (order xs) xs
    pub sorts : (xs : List A) → IsDescending (order xs)

  IsStrict : List A → Type 0
  IsStrict [] = Unit
  IsStrict (x ∷ xs) = All (λ y. key y < key x) xs × IsStrict xs

  unique-IsStrict : (xs : List A) → UniqueKeys key xs → IsDescending xs → IsStrict xs
  unfolding IsStrict
  unique-IsStrict [] u d = tt
  unique-IsStrict (x ∷ xs) u d = (
    All-map (λ y. (key y ≢ key x) × (key y ≤ key x)) (λ y. key y < key x) xs
        (λ y (other, below). ground (arith, other, below))
        (All-both (λ y. key y ≢ key x) (λ y. key y ≤ key x) xs u.0 d.0),
    unique-IsStrict xs u.1 d.1,
  )

  perm-All : (P : A → Type 0) {xs ys : List A} → Permᴰ xs ys → All P xs → All P ys
  perm-All P Permᴰ.nil h = tt
  perm-All P (Permᴰ.cons e p) h = (subst P e h.0, perm-All P p h.1)
  perm-All P (Permᴰ.swap e f) h = (subst P f h.1.0, (subst P e h.0, h.1.1))
  perm-All P (Permᴰ.trans p q) h = perm-All P q (perm-All P p h)

  perm-UniqueKeys : {xs ys : List A} → Permᴰ xs ys → UniqueKeys key xs → UniqueKeys key ys
  perm-UniqueKeys Permᴰ.nil h = tt
  perm-UniqueKeys (Permᴰ.cons {b = b} {l₂ = l} e p) h = (
    subst (λ k. All (λ y. key y ≢ k) l) (ap key e) (perm-All (λ y. key y ≢ key _) p h.0),
    perm-UniqueKeys p h.1,
  )
  perm-UniqueKeys (Permᴰ.swap {l = l} e f) h = (
    (
      (λ s. h.0.0 (ap key f ∙ sym s ∙ ap key (sym e))),
      subst (λ k. All (λ y. key y ≢ k) l) (ap key f) h.1.0,
    ),
    (subst (λ k. All (λ y. key y ≢ k) l) (ap key e) h.0.1, h.1.1),
  )
  perm-UniqueKeys (Permᴰ.trans p q) h = perm-UniqueKeys q (perm-UniqueKeys p h)

  -- Two lists that hold the same of all their members.
  SameMembers : List A → List A → Type 1
  SameMembers xs ys = (P : A → Type 0) → (All P xs → All P ys) × (All P ys → All P xs)

  above :
      (x : A) (xs ys : List A)
      → IsStrict (x ∷ xs)
      → (All (λ z. key z ≤ key x) (x ∷ xs) → All (λ z. key z ≤ key x) ys)
      → All (λ z. key z ≤ key x) ys
  unfolding IsStrict
  above x xs ys s f = f (
    omega arith,
    All-map (λ y. key y < key x) (λ y. key y ≤ key x) xs (λ y b. omega (arith, b)) s.0,
  )

  -- What holds of a list's later rows, from what holds of all rows.
  below :
      (P : A → Type 0) (x y : A) (xs ys : List A)
      → x ≡ y
      → IsStrict (y ∷ ys)
      → ((Q : A → Type 0) → All Q (x ∷ xs) → All Q (y ∷ ys))
      → All P xs
      → All P ys
  unfolding IsStrict
  below P x y xs ys same s f h =
      let Q : A → Type 0 = λ z. key z < key x → P z in
      let later = f Q ((λ b. absurd (omega (arith, b))), All-map P Q xs (λ z p _. p) h) in
      All-map (λ z. Q z × (key z < key y)) P ys
        (λ z (q, b). q (subst (λ k. key z < k) (ap key (sym same)) b))
        (All-both Q (λ z. key z < key y) ys later.1 s.0)

  strict_unique : (xs ys : List A) → IsStrict xs → IsStrict ys → SameMembers xs ys → xs ≡ ys
  unfolding IsStrict SameMembers
  strict_unique [] [] s t m = refl
  strict_unique [] (y ∷ ys) s t m = absurd ((m (λ _. ⊥)).0 tt).0
  strict_unique (x ∷ xs) [] s t m = absurd ((m (λ _. ⊥)).1 tt).0
  strict_unique (x ∷ xs) (y ∷ ys) s t m =
      let y_below = (above x xs (y ∷ ys) s (m (λ z. key z ≤ key x)).0).0 in
      let x_below = (above y ys (x ∷ xs) t (m (λ z. key z ≤ key y)).1).0 in
      let level : key y ≡ key x = omega (arith, y_below, x_below) in
      let alone : All (λ z. key z ≡ key x → x ≡ z) (y ∷ ys) = (m (λ z. key z ≡ key x → x ≡ z)).0 (
        (λ _. refl),
        All-map (λ z. key z < key x) (λ z. key z ≡ key x → x ≡ z) xs
            (λ z b e. absurd (omega (arith, b, e))) s.0,
      ) in
      let same : x ≡ y = alone.0 level in
      let rest = strict_unique xs ys s.1 t.1 (λ P.
        (below P x y xs ys same t (λ Q. (m Q).0), below P y x ys xs (sym same) s (λ Q. (m Q).1))) in
      λ i. same i ∷ rest i

  -- Two answers to the same query agree.
  pub IsOrderBy-unique :
      (order other : List A → List A) (xs : List A)
      → IsOrderBy order
      → IsOrderBy other
      → UniqueKeys key xs
      → order xs ≡ other xs
  unfolding SameMembers
  IsOrderBy-unique order other xs o q u =
      let there = o.keeps xs in
      let here = q.keeps xs in
      strict_unique (order xs) (other xs)
        (unique-IsStrict (order xs) (perm-UniqueKeys (Permᴰ.symm there) u) (o.sorts xs))
        (unique-IsStrict (other xs) (perm-UniqueKeys (Permᴰ.symm here) u) (q.sorts xs))
        (λ P. (
          (λ h. perm-All P (Permᴰ.symm here) (perm-All P there h)),
          (λ h. perm-All P (Permᴰ.symm there) (perm-All P here h)),
        ))
