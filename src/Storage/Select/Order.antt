-- ===== src/Storage/Select/Order.antt =====
-- ORDER BY sorts, and keeps the rows.
use socket_prac.Prelude.{
  ◌≡◌, refl, ap, ℕ, zero, suc, Bool, true, false, List, [], ◌∷◌, Each, length, take, leb,
  if◌then◌else◌, inl, inr, Bool-cases, arith, map,
}
use socket_prac.Storage.Select.{insert_row, order_by, Each-imp}

module _ {ℓ} {A : Type ℓ} where
  pub length-insert_row :
      (before : A → A → Bool) (x : A) (xs : List A)
      → length (insert_row before x xs) ≡ suc (length xs)
  unfolding insert_row
  length-insert_row before x [] = refl
  length-insert_row before x (y ∷ ys) = ground (arith, length-insert_row before x ys)

  pub length-order_by :
      (before : A → A → Bool) (xs : List A) → length (order_by before xs) ≡ length xs
  unfolding order_by
  length-order_by before [] = refl
  length-order_by before (x ∷ xs) =
      omega (arith, length-insert_row before x (order_by before xs), length-order_by before xs)

  pub length-take :
      (n : ℕ) (xs : List A) → length (take n xs) ≡ (if leb n (length xs) then n else length xs)
  length-take zero xs = ground arith
  length-take (suc n) [] = ground arith
  length-take (suc n) (x ∷ xs) = ground (arith, length-take n xs)

  pub Each-take {κ} : (P : A → Type κ) (n : ℕ) (xs : List A) → Each P xs → Each P (take n xs)
  Each-take P zero xs h = tt
  Each-take P (suc n) [] h = tt
  Each-take P (suc n) (x ∷ xs) h = (h.0, Each-take P n xs h.1)

  Each-insert_row {κ} :
      (P : A → Type κ) (before : A → A → Bool) (x : A) (xs : List A)
      → P x
      → Each P xs
      → Each P (insert_row before x xs)
  unfolding insert_row
  Each-insert_row P before x [] p h = (p, tt)
  Each-insert_row P before x (y ∷ ys) p h =
      let rest = Each-insert_row P before x ys p h.1 in
      elim (before y x) as (λ b. Each P (if b then y ∷ insert_row before x ys else x ∷ y ∷ ys)) [
        | true ↦ (h.0, rest)
        | false ↦ (p, h)
      ]

  pub Each-order_by {κ} :
      (P : A → Type κ) (before : A → A → Bool) (xs : List A)
      → Each P xs
      → Each P (order_by before xs)
  unfolding order_by
  Each-order_by P before [] h = tt
  Each-order_by P before (x ∷ xs) h =
      Each-insert_row P before x (order_by before xs) h.0 (Each-order_by P before xs h.1)

  -- No row stands before one that comes first.
  abbrev pub Ascending : (A → A → Bool) → List A → Type 0
  Ascending before [] = Unit
  Ascending before (x ∷ xs) = Each (λ y. before y x ≡ false) xs × Ascending before xs

  module _ (before : A → A → Bool) (asymmetric : (x y : A) → before x y ≡ true → before y x ≡ false)
      (transitive : (x y z : A)
        → before z y ≡ false
        → before y x ≡ false
        → before z x ≡ false) where
    insert_row-Ascending :
        (x : A) (xs : List A) → Ascending before xs → Ascending before (insert_row before x xs)
    unfolding insert_row
    insert_row-Ascending x [] h = (tt, tt)
    insert_row-Ascending x (y ∷ ys) h =
        let rest = insert_row-Ascending x ys h.1 in
        elim (Bool-cases (before y x)) [
          | inl first ↦ rw first (
            Each-insert_row (λ z. before z y ≡ false) before x ys (asymmetric y x first) h.0,
            rest,
          )
          | inr later ↦ rw later ((later, Each-imp _ _ ys (λ z e. transitive x y z e later) h.0), h)
        ]

    pub order_by-Ascending : (xs : List A) → Ascending before (order_by before xs)
    unfolding order_by
    order_by-Ascending [] = tt
    order_by-Ascending (x ∷ xs) =
        insert_row-Ascending x (order_by before xs) (order_by-Ascending xs)

module _ {ℓ κ} {A : Type ℓ} {B : Type κ} (f : A → B) where
  pub Each-mapped {ι} : (P : B → Type ι) (xs : List A) → Each (λ x. P (f x)) xs → Each P (map f xs)
  Each-mapped P [] h = tt
  Each-mapped P (x ∷ xs) h = (h.0, Each-mapped P xs h.1)

  pub Ascending-map :
      (before : B → B → Bool) (xs : List A)
      → Ascending (λ x y. before (f x) (f y)) xs
      → Ascending before (map f xs)
  Ascending-map before [] h = tt
  Ascending-map before (x ∷ xs) h =
      (Each-mapped (λ y. before y (f x) ≡ false) xs h.0, Ascending-map before xs h.1)

  pub length-map : (xs : List A) → length (map f xs) ≡ length xs
  length-map [] = refl
  length-map (x ∷ xs) = ap suc (length-map xs)
