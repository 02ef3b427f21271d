-- ===== src/Storage/Select.antt =====
-- What SQL does with the rows of a table, for src/database/db_service.cpp: WHERE, UPDATE, ORDER BY.
pub mod Order
pub mod Page
use socket_prac.Prelude.{
  ◌≡◌, refl, Bool, true, false, not, ◌&&◌, ◌||◌, List, [], ◌∷◌, ◌++◌, Each, Bool-cases, inl, inr,
  map, Eq, ◌==◌, contains, if◌then◌else◌, arith,
}

module _ {ℓ} {A : Type ℓ} where
  unfoldable pub exists : (A → Bool) → List A → Bool
  exists p [] = false
  exists p (x ∷ xs) = if p x then true else exists p xs

  -- The rows that meet a condition, in their order.
  unfoldable pub select : (A → Bool) → List A → List A
  select p [] = []
  select p (x ∷ xs) = let rest = select p xs in if p x then x ∷ rest else rest

  unfoldable pub update : (A → Bool) → (A → A) → List A → List A
  update p f [] = []
  update p f (x ∷ xs) = (if p x then f x else x) ∷ update p f xs

  -- ORDER BY: `before` is strict, and rows that it does not tell apart keep their order.
  unfoldable pub insert_row : (A → A → Bool) → A → List A → List A
  insert_row before x [] = x ∷ []
  insert_row before x (y ∷ ys) =
      let rest = insert_row before x ys in if before y x then y ∷ rest else x ∷ y ∷ ys

  unfoldable pub order_by : (A → A → Bool) → List A → List A
  unfolding insert_row
  order_by before [] = []
  order_by before (x ∷ xs) = insert_row before x (order_by before xs)

  pub exists-append :
      (p : A → Bool) (xs ys : List A) → exists p (xs ++ ys) ≡ (exists p xs || exists p ys)
  unfolding exists
  exists-append p [] ys = refl
  exists-append p (x ∷ xs) ys = ground (arith, exists-append p xs ys)

  pub exists-select :
      (p q : A → Bool) (xs : List A) → exists p (select q xs) ≡ exists (λ x. q x && p x) xs
  unfolding exists select
  exists-select p q [] = refl
  exists-select p q (x ∷ xs) = ground (arith, exists-select p q xs)

  pub exists-insert_row :
      (p : A → Bool) (before : A → A → Bool) (x : A) (xs : List A)
      → exists p (insert_row before x xs) ≡ (p x || exists p xs)
  unfolding exists insert_row
  exists-insert_row p before x [] = ground arith
  exists-insert_row p before x (y ∷ ys) = ground (arith, exists-insert_row p before x ys)

  pub exists-order_by :
      (p : A → Bool) (before : A → A → Bool) (xs : List A)
      → exists p (order_by before xs) ≡ exists p xs
  unfolding exists order_by
  exists-order_by p before [] = refl
  exists-order_by p before (x ∷ xs) =
      ground (arith, exists-insert_row p before x (order_by before xs), exists-order_by p before xs)

  -- What holds of every row where `p` holds, and some row with `p`.
  pub exists-imp :
      (p q : A → Bool) (xs : List A)
      → ((x : A) → p x ≡ true → q x ≡ true)
      → exists p xs ≡ true
      → exists q xs ≡ true
  unfolding exists
  exists-imp p q [] h e = ground arith
  exists-imp p q (x ∷ xs) h e = ground (arith, h x, exists-imp p q xs h)

  pub Each-select {κ} :
      (P : A → Type κ) (p : A → Bool) (xs : List A) → Each P xs → Each P (select p xs)
  unfolding select
  Each-select P p [] h = tt
  Each-select P p (x ∷ xs) h =
      let rest = Each-select P p xs h.1 in
      elim (p x) as (λ b. Each P (if b then x ∷ select p xs else select p xs)) [
        | true ↦ (h.0, rest)
        | false ↦ rest
      ]

  pub Each-append_iff {κ} :
      (P : A → Type κ) (xs ys : List A) → Each P (xs ++ ys) → Each P xs × Each P ys
  Each-append_iff P [] ys h = (tt, h)
  Each-append_iff P (x ∷ xs) ys h =
      let rest = Each-append_iff P xs ys h.1 in ((h.0, rest.0), rest.1)

  pub Each-imp {κ ι} :
      (P : A → Type κ) (Q : A → Type ι) (xs : List A)
      → ((x : A) → P x → Q x)
      → Each P xs
      → Each Q xs
  Each-imp P Q [] h e = tt
  Each-imp P Q (x ∷ xs) h e = (h x e.0, Each-imp P Q xs h e.1)

  pub Each-both {κ ι} :
      (P : A → Type κ) (Q : A → Type ι) (xs : List A)
      → Each P xs
      → Each Q xs
      → Each (λ x. P x × Q x) xs
  Each-both P Q [] p q = tt
  Each-both P Q (x ∷ xs) p q = ((p.0, q.0), Each-both P Q xs p.1 q.1)

  -- A row that is selected meets the condition too.
  pub Each-selected {κ} :
      (P : A → Type κ) (p : A → Bool) (xs : List A)
      → Each (λ x. p x ≡ true → P x) xs
      → Each P (select p xs)
  unfolding select
  Each-selected P p [] h = tt
  Each-selected P p (x ∷ xs) h =
      let rest = Each-selected P p xs h.1 in
      elim (Bool-cases (p x)) [ inl e ↦ rw e (h.0 e, rest) | inr e ↦ rw e rest ]

  pub Each-update {κ} :
      (P : A → Type κ) (p : A → Bool) (f : A → A) (xs : List A)
      → ((x : A) → P x → P (f x))
      → Each P xs
      → Each P (update p f xs)
  unfolding update
  Each-update P p f [] h e = tt
  Each-update P p f (x ∷ xs) h e =
      let rest = Each-update P p f xs h e.1 in
      let first : P (if p x then f x else x) = elim (p x) as (λ b. P (if b then f x else x)) [
        | true ↦ h x e.0
        | false ↦ e.0
      ] in
      (first, rest)

  pub exists-split :
      (p q : A → Bool) (xs : List A)
      → exists p xs ≡ (exists p (select q xs) || exists p (select (λ x. not (q x)) xs))
  unfolding exists select
  exists-split p q [] = refl
  exists-split p q (x ∷ xs) = ground (arith, exists-split p q xs)

  pub exists-update :
      (p q : A → Bool) (f : A → A) (xs : List A)
      → ((x : A) → p x ≡ true → q x ≡ false)
      → exists p xs ≡ true
      → exists p (update q f xs) ≡ true
  unfolding exists update
  exists-update p q f [] h e = ground arith
  exists-update p q f (x ∷ xs) h e = ground (arith, h x, exists-update p q f xs h)

  -- A row for which `p` holds does what each row does.
  pub exists-Each :
      (p q : A → Bool) (xs : List A)
      → Each (λ x. p x ≡ true → q x ≡ true) xs
      → exists p xs ≡ true
      → exists q xs ≡ true
  unfolding exists
  exists-Each p q [] h e = ground arith
  exists-Each p q (x ∷ xs) h e = ground (arith, h.0, exists-Each p q xs h.1)

  pub exists-false : (p : A → Bool) (xs : List A) → exists p xs ≡ false → Each (λ x. p x ≡ false) xs
  unfolding exists
  exists-false p [] e = tt
  exists-false p (x ∷ xs) e = (ground arith, exists-false p xs (ground arith))

  pub none_selected : (p : A → Bool) (xs : List A) → exists p xs ≡ false → select p xs ≡ []
  unfolding exists select
  none_selected p [] e = refl
  none_selected p (x ∷ xs) e = ground (arith, none_selected p xs)

  pub exists-same :
      (p q : A → Bool) (xs : List A) → Each (λ x. p x ≡ q x) xs → exists p xs ≡ exists q xs
  unfolding exists
  exists-same p q [] h = refl
  exists-same p q (x ∷ xs) h = ground (arith, h.0, exists-same p q xs h.1)

pub exists-map {ℓ κ} :
    {A : Type ℓ} {B : Type κ} (p : B → Bool) (f : A → B) (xs : List A)
    → exists p (map f xs) ≡ exists (λ x. p (f x)) xs
unfolding exists
exists-map p f [] = refl
exists-map p f (x ∷ xs) = ground (arith, exists-map p f xs)

pub contains-exists {ℓ} :
    {A : Type ℓ} ⦃e : Eq A⦄ (a : A) (xs : List A) → contains a xs ≡ exists (λ x. x == a) xs
unfolding contains exists
contains-exists a [] = refl
contains-exists a (x ∷ xs) = ground (arith, contains-exists a xs)
