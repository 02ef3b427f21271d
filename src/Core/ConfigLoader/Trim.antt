-- ===== src/Core/ConfigLoader/Trim.antt =====
-- What trim and is_comment_or_blank of src/core/config_loader.cpp leave of a text and find in a line.
use socket_prac.Prelude.{
  ℕ, ◌≡◌, refl, ap, ◌∙◌, ◌⊎◌, inl, inr, Bool, true, false, ◌&&◌, [], ◌∷◌, ◌++◌, Text, is_empty, eqb,
  Bool-cases, arith,
}
use socket_prac.Core.Number.{is_space}
use socket_prac.Core.ConfigLoader.{trim_begin, trim_end, trim, is_comment_or_blank}

abbrev pub all_space : Text → Bool
all_space [] = true
all_space (c ∷ cs) = is_space c && all_space cs

abbrev pub starts_with_space : Text → Bool
starts_with_space [] = false
starts_with_space (c ∷ cs) = is_space c

abbrev pub ends_with_space : Text → Bool
ends_with_space [] = false
ends_with_space (c ∷ []) = is_space c
ends_with_space (c ∷ x ∷ xs) = ends_with_space (x ∷ xs)

abbrev pub starts_with : ℕ → Text → Bool
starts_with b [] = false
starts_with b (c ∷ cs) = eqb c b

-- The text inside with the spaces around it, and none of its own at its ends.
pub record Inside (s inside : Text) : Type 0 where
  pub left : Text
  pub right : Text
  pub whole : s ≡ left ++ (inside ++ right)
  pub left_space : all_space left ≡ true
  pub right_space : all_space right ≡ true
  pub starts : starts_with_space inside ≡ false
  pub ends : ends_with_space inside ≡ false

trim_begin_splits :
    (s : Text)
    → (left : Text) × (s ≡ left ++ trim_begin s)
      × (all_space left ≡ true)
      × (starts_with_space (trim_begin s) ≡ false)
unfolding trim_begin
trim_begin_splits [] = ([], refl, refl, refl)
trim_begin_splits (c ∷ cs) =
    let (left, whole, space, starts) = trim_begin_splits cs in
    elim (Bool-cases (is_space c)) [
      | inl e ↦ rw e (c ∷ left, ap (λ (r : Text). c ∷ r) whole, rw e space, starts)
      | inr e ↦ rw e ([], refl, refl, e)
    ]

ends_later :
    (c : ℕ) (r : Text)
    → ends_with_space r ≡ false
    → (is_empty r && is_space c) ≡ false
    → ends_with_space (c ∷ r) ≡ false
ends_later c [] h e = e
ends_later c (x ∷ xs) h e = h

empty_text : (r : Text) → is_empty r ≡ true → r ≡ []
empty_text [] e = refl
empty_text (c ∷ cs) e = absurd (ground arith)

trim_end_splits :
    (s : Text)
    → (right : Text) × (s ≡ trim_end s ++ right)
      × (all_space right ≡ true)
      × (ends_with_space (trim_end s) ≡ false)
unfolding trim_end
trim_end_splits [] = ([], refl, refl, refl)
trim_end_splits (c ∷ cs) =
    let (right, whole, space, ends) = trim_end_splits cs in
    elim (Bool-cases (is_empty (trim_end cs) && is_space c)) [
      | inl e ↦
          (let none_left : trim_end cs ≡ [] = empty_text (trim_end cs) (ground arith) in
            let blank : is_space c ≡ true = ground arith in
            rw e (
              c ∷ right,
              ap (λ (r : Text). c ∷ r) (whole ∙ ap (λ r. r ++ right) none_left),
              rw blank space,
              refl,
            ))
      | inr e ↦
          rw e (right, ap (λ (r : Text). c ∷ r) whole, space, ends_later c (trim_end cs) ends e)
    ]

starts_with_space-trim_end :
    (s : Text) → starts_with_space s ≡ false → starts_with_space (trim_end s) ≡ false
unfolding trim_end
starts_with_space-trim_end [] h = refl
starts_with_space-trim_end (c ∷ cs) h = ground arith

-- `trim` gives the text inside.
pub trim-Inside : (s : Text) → Inside s (trim s)
unfolding trim
trim-Inside s =
    let (left, whole, left_space, starts) = trim_begin_splits s in
    let (right, front, right_space, ends) = trim_end_splits (trim_begin s) in
    record {
      left = left;
      right = right;
      whole = whole ∙ ap (λ (r : Text). left ++ r) front;
      left_space = left_space;
      right_space = right_space;
      starts = starts_with_space-trim_end (trim_begin s) starts;
      ends = ends;
    }

-- A line that is passed over is blank, or a '#' stands in it behind spaces only.
pub is_comment_or_blank-cases :
    (line : Text)
    → is_comment_or_blank line ≡ true
    → (all_space line ≡ true)
      ⊎ ((before text : Text) × (line ≡ before ++ 35 ∷ text) × (all_space before ≡ true))
unfolding is_comment_or_blank
is_comment_or_blank-cases [] e = inl refl
is_comment_or_blank-cases (c ∷ cs) e = elim (Bool-cases (is_space c)) [
  | inl space ↦ elim (is_comment_or_blank-cases cs (rw space at e)) [
    | inl blank ↦ inl (rw space blank)
    | inr (before, text, split, front) ↦
        inr (c ∷ before, text, ap (λ (r : Text). c ∷ r) split, rw space front)
  ]
  | inr solid ↦ inr ([], cs, ap (λ (x : ℕ). x ∷ cs) (ground (arith, rw solid at e)), refl)
]

-- What stands before the '=' of a line that is not passed over does not start with a '#'.
starts_with-trim_begin :
    (before after : Text)
    → is_comment_or_blank (before ++ after) ≡ false
    → starts_with 35 (trim_begin before) ≡ false
unfolding trim_begin is_comment_or_blank
starts_with-trim_begin [] after e = refl
starts_with-trim_begin (c ∷ cs) after e = elim (Bool-cases (is_space c)) [
  | inl space ↦ rw space (starts_with-trim_begin cs after (rw space at e))
  | inr solid ↦ rw solid (rw solid at e)
]

starts_with-trim_end : (s : Text) → starts_with 35 s ≡ false → starts_with 35 (trim_end s) ≡ false
unfolding trim_end
starts_with-trim_end [] h = refl
starts_with-trim_end (c ∷ cs) h = ground arith

pub starts_with-trim :
    (before after : Text)
    → is_comment_or_blank (before ++ after) ≡ false
    → starts_with 35 (trim before) ≡ false
unfolding trim
starts_with-trim before after e =
    starts_with-trim_end (trim_begin before) (starts_with-trim_begin before after e)
