-- ===== src/Storage/Select/Page.antt =====
-- ORDER BY with a LIMIT keeps the rows that come first.
use socket_prac.Prelude.{
  ◌≡◌, refl, ◌⊎◌, inl, inr, ℕ, zero, suc, Bool, true, false, List, [], ◌∷◌, Each, map, take,
  Bool-cases, arith,
}
use socket_prac.Storage.Select.{exists, select, insert_row, order_by, Each-imp, Each-both}
use socket_prac.Storage.Select.Order.{Ascending}

module _ {ℓ} {A : Type ℓ} where
  -- What holds of the rows that were selected holds of those that meet the condition.
  pub Each-of_select {κ} :
      (P : A → Type κ) (p : A → Bool) (xs : List A)
      → Each P (select p xs)
      → Each (λ x. p x ≡ true → P x) xs
  unfolding select
  Each-of_select P p [] h = tt
  Each-of_select P p (x ∷ xs) h = elim (Bool-cases (p x)) [
    | inl e ↦
        let kept : P x × Each P (select p xs) = rw e at h in
        (λ met. kept.0, Each-of_select P p xs kept.1)
    | inr e ↦ (λ met. absurd (ground (arith, met, e)), Each-of_select P p xs (rw e at h))
  ]

  Each-of_insert_row {κ} :
      (P : A → Type κ) (before : A → A → Bool) (x : A) (xs : List A)
      → Each P (insert_row before x xs)
      → P x × Each P xs
  unfolding insert_row
  Each-of_insert_row P before x [] h = h
  Each-of_insert_row P before x (y ∷ ys) h = elim (Bool-cases (before y x)) [
    | inl e ↦
        let kept : P y × Each P (insert_row before x ys) = rw e at h in
        let rest = Each-of_insert_row P before x ys kept.1 in (rest.0, (kept.0, rest.1))
    | inr e ↦ rw e at h
  ]

  pub Each-of_order_by {κ} :
      (P : A → Type κ) (before : A → A → Bool) (xs : List A)
      → Each P (order_by before xs)
      → Each P xs
  unfolding order_by
  Each-of_order_by P before [] h = tt
  Each-of_order_by P before (x ∷ xs) h =
      let rest = Each-of_insert_row P before x (order_by before xs) h in
      (rest.0, Each-of_order_by P before xs rest.1)

  -- A row is among the first ones, or comes before none of them.
  pub take-Ascending :
      (before same : A → A → Bool) (n : ℕ) (xs : List A)
      → Each (λ x. same x x ≡ true) xs
      → Ascending before xs
      → Each
          (λ x. (exists (same x) (take n xs) ≡ true) ⊎ Each (λ y. before x y ≡ false) (take n xs))
          xs
  unfolding exists
  take-Ascending before same n [] s h = tt
  take-Ascending before same zero (x ∷ xs) s h = (inr tt, Each-imp _ _ xs (λ y e. inr tt) s.1)
  take-Ascending before same (suc n) (x ∷ xs) s h = (
    inl (rw s.0 refl),
    Each-imp _ _ xs (λ y. later y) (Each-both _ _ xs h.0 (take-Ascending before same n xs s.1 h.1)),
  )
    where
      Kept : A → Type 0
      Kept y = exists (same y) (take n xs) ≡ true

      later :
          (y : A)
          → ((before y x ≡ false) × (Kept y ⊎ Each (λ z. before y z ≡ false) (take n xs)))
          → (exists (same y) (x ∷ take n xs) ≡ true)
            ⊎ Each (λ z. before y z ≡ false) (x ∷ take n xs)
      later y (first, inl kept) = inl (ground (arith, kept))
      later y (first, inr behind) = inr (first, behind)

pub exists-map :
    {A B : Type 0} (f : A → B) (p : B → Bool) (xs : List A)
    → exists p (map f xs) ≡ exists (λ x. p (f x)) xs
unfolding exists
exists-map f p [] = refl
exists-map f p (x ∷ xs) = ground (arith, exists-map f p xs)
