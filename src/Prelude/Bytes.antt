-- ===== src/Prelude/Bytes.antt =====
-- Text as bytes, and the searches of std::string that the program uses.
use Prim.Native.Char.{code}
use Prim.Native.String.{String}
use Prim.Native.Nat.{ℕ, suc}
use mathlib.Core.Path.{◌≡◌, refl, ap}
use mathlib.Core.Logic.{◌↔◌, ◌⊎◌, inl, inr}
use mathlib.Core.Bool.{Bool, true, false, ◌&&◌}
use mathlib.Core.List.{List, [], ◌∷◌, ◌++◌}
use mathlib.Core.Option.{Option, none, some}
use native.Mathlib.Omega.{arith}
use socket_prac.Prelude.Tests.{eqb, eqb_iff, if◌then◌else◌, Eq, Bool-cases}
use socket_prac.Prelude.Lists.{length}

abbrev pub Text : Type 0
Text = List ℕ

-- The code points of a literal: its bytes, as every literal of the program is ASCII.
abbrev pub codes : String → Text
codes String.[] = []
codes (String.◌∷◌ c s) = code c ∷ codes s

abbrev pub eq_text : Text → Text → Bool
eq_text [] [] = true
eq_text (x ∷ xs) (y ∷ ys) = eqb x y && eq_text xs ys
eq_text _ _ = false

pub eq_text_iff : (s t : Text) → (eq_text s t ≡ true) ↔ (s ≡ t)
eq_text_iff [] [] = ground arith
eq_text_iff [] (y ∷ ys) = ground arith
eq_text_iff (x ∷ xs) [] = ground arith
eq_text_iff (x ∷ xs) (y ∷ ys) = ground (arith, eqb_iff x y, eq_text_iff xs ys)

instance abbrev pub text_eq : Eq Text
text_eq = record { equals = eq_text; equals_iff = eq_text_iff }

abbrev pub is_empty {ℓ} : {A : Type ℓ} → List A → Bool
is_empty [] = true
is_empty (x ∷ xs) = false

abbrev pub has_byte : ℕ → Text → Bool
has_byte c [] = false
has_byte c (x ∷ xs) = if eqb x c then true else has_byte c xs

-- std::string::find of one character; `none` is npos.
abbrev pub find_byte : ℕ → Text → Option ℕ
find_byte c [] = none
find_byte c (x ∷ xs) =
    if eqb x c then some 0 else elim (find_byte c xs) [ none ↦ none | some i ↦ some (suc i) ]

pub has_byte-append :
    (c : ℕ) (s t : Text) → has_byte c s ≡ false → has_byte c t ≡ false → has_byte c (s ++ t) ≡ false
has_byte-append c [] t hs ht = ht
has_byte-append c (x ∷ xs) t hs ht = ground (arith, has_byte-append c xs t)

pub find_byte-none : (c : ℕ) (s : Text) → has_byte c s ≡ false → find_byte c s ≡ none
find_byte-none c [] h = refl
find_byte-none c (x ∷ xs) h = ground (arith, find_byte-none c xs)

pub find_byte-some :
    (c : ℕ) (s t : Text) → has_byte c s ≡ false → find_byte c (s ++ c ∷ t) ≡ some (length s)
find_byte-some c [] t h = ground arith
find_byte-some c (x ∷ xs) t h = ground (arith, find_byte-some c xs t)

-- A text has no `c`, or it splits at the first one.
pub find_byte_cases :
    (c : ℕ) (s : Text)
    → ((has_byte c s ≡ false) × (find_byte c s ≡ none))
      ⊎ ((before : Text) × (after : Text) × (s ≡ before ++ c ∷ after)
          × (has_byte c before ≡ false)
          × (find_byte c s ≡ some (length before)))
find_byte_cases c [] = inl (refl, refl)
find_byte_cases c (x ∷ xs) = elim (Bool-cases (eqb x c)) [
  | inl e ↦ inr ([], xs, ground (arith, eqb_iff x c), refl, rw e)
  | inr e ↦ elim (find_byte_cases c xs) [
    | inl (p, q) ↦ inl (ground arith, ground arith)
    | inr (before, after, p, q, r) ↦
        inr (x ∷ before, after, ap (◌∷◌ x) p, ground arith, ground arith)
  ]
]
