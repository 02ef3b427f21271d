-- ===== src/Core/Number/RoundTrip.antt =====
-- A room id that one side prints is the room id that the other side reads.
use socket_prac.Prelude.{
  ℕ, zero, suc, ◌+◌, ◌-◌, ◌*◌, ◌/◌, ◌%◌, ◌^◌, ◌≤◌, ◌<◌, ◌≡◌, refl, ◌∙◌, inl, inr, ℤ, pos, negsuc,
  is_pos, true, false, some, [], ◌∷◌, ◌++◌, Text, length, length-append, ltb, arith, Bool-cases,
}
use socket_prac.Core.Number.{
  digits, to_string_ℕ, to_string, is_digit, scan, stoll_unsigned, stoll_signed, stoll_from, stoll,
  parse_room_id, parse_limit,
}

abbrev pub AllDigits : Text → Type 0
AllDigits [] = Unit
AllDigits (c ∷ cs) = (is_digit c ≡ true) × AllDigits cs

scan-append :
    (xs : Text) (c acc count : ℕ)
    → AllDigits xs
    → is_digit c ≡ true
    → scan (xs ++ c ∷ []) acc count
      ≡ ((scan xs acc count).0 * 10 + (c - 48), suc (scan xs acc count).1)
unfolding scan
scan-append [] c acc count h d = ground arith
scan-append (x ∷ xs) c acc count h d =
    ground (arith, scan-append xs c (acc * 10 + (x - 48)) (suc count) h.1 d)

AllDigits-append : (xs : Text) (c : ℕ) → AllDigits xs → is_digit c ≡ true → AllDigits (xs ++ c ∷ [])
AllDigits-append [] c h d = (d, tt)
AllDigits-append (x ∷ xs) c h d = (h.0, AllDigits-append xs c h.1 d)

digit_of : (d : ℕ) → d < 10 → is_digit (48 + d) ≡ true
digit_of d h = ground arith

pub digits-AllDigits : (fuel n : ℕ) → AllDigits (digits fuel n)
unfolding digits
digits-AllDigits zero n = tt
digits-AllDigits (suc fuel) n = elim (Bool-cases (ltb n 10)) [
  | inl small ↦ rw small (digit_of n (ground arith), tt)
  | inr big ↦ rw big (
      AllDigits-append (digits fuel (n / 10)) (48 + n % 10) (digits-AllDigits fuel (n / 10))
        (digit_of (n % 10) (omega arith)))
]

scan-digits : (fuel n : ℕ) → n < fuel → scan (digits fuel n) 0 0 ≡ (n, length (digits fuel n))
unfolding digits
scan-digits zero n h = absurd (omega arith)
scan-digits (suc fuel) n h = elim (Bool-cases (ltb n 10)) [
  | inl small ↦ rw small (unfold scan in ground (arith, digit_of n))
  | inr big ↦ rw big (
      scan-append (digits fuel (n / 10)) (48 + n % 10) 0 0 (digits-AllDigits fuel (n / 10))
        (digit_of (n % 10) (omega arith))
      ∙ ground (
        arith,
        scan-digits fuel (n / 10) (ground arith),
        length-append (digits fuel (n / 10)) ((48 + n % 10) ∷ []),
      ))
]

stoll_digits :
    (s : Text) (n : ℕ)
    → AllDigits s
    → 1 ≤ length s
    → n < 2 ^ 63
    → scan s 0 0 ≡ (n, length s)
    → stoll s ≡ some (pos n, length s)
unfolding stoll_unsigned
stoll_digits [] n h l b e = absurd (omega arith)
stoll_digits (c ∷ cs) n h l b e = signed ∙ unsigned
  where
    signed : stoll (c ∷ cs) ≡ stoll_unsigned false (c ∷ cs) 0
    signed = unfold stoll stoll_from stoll_signed in ground arith

    unsigned : stoll_unsigned false (c ∷ cs) 0 ≡ some (pos n, length (c ∷ cs))
    unsigned = rw (e, stoll_unsigned) (ground arith)

pub digits_filled : (fuel n : ℕ) → 1 ≤ length (digits (suc fuel) n)
unfolding digits
digits_filled fuel n = elim (Bool-cases (ltb n 10)) [
  | inl small ↦ rw small (omega arith)
  | inr big ↦ rw big (omega (arith, length-append (digits fuel (n / 10)) ((48 + n % 10) ∷ [])))
]

stoll-to_string :
    (n : ℕ) → n < 2 ^ 63 → stoll (to_string_ℕ n) ≡ some (pos n, length (to_string_ℕ n))
unfolding to_string_ℕ
stoll-to_string n h =
    stoll_digits (digits (suc n) n) n (digits-AllDigits (suc n) n) (digits_filled n n) h
      (scan-digits (suc n) n (omega arith))

-- Every positive int64 is read back from its decimal text.
pub parse_room_id-to_string :
    (n : ℕ) → 0 < n → n < 2 ^ 63 → parse_room_id (to_string (pos n)) ≡ some (pos n)
unfolding parse_room_id to_string
parse_room_id-to_string zero p h = absurd (omega arith)
parse_room_id-to_string (suc n) p h = rw (stoll-to_string (suc n) h, parse_room_id) (ground arith)

-- What is accepted as a room id is positive.
parse_room_id-pos : (s : Text) (id : ℤ) → parse_room_id s ≡ some id → is_pos id ≡ true
unfolding parse_room_id
parse_room_id-pos s id h = ground arith

-- What is accepted as a limit is between 1 and 100.
parse_limit-range :
    (s : Text) (limit : ℤ)
    → parse_limit s ≡ some limit
    → (n : ℕ) × (limit ≡ pos n) × (1 ≤ n) × (n ≤ 100)
unfolding parse_limit
parse_limit-range s (pos zero) h = absurd (ground arith)
parse_limit-range s (pos (suc n)) h = (suc n, refl, omega arith, ground arith)
parse_limit-range s (negsuc n) h = absurd (ground arith)
