-- ===== src/Core/Number.antt =====
-- `std::to_string` and `std::stoll` of the C++ library, and the check of a room id that
-- src/database/db_executor.cpp and src/client/chat_io_worker.cpp make with them.
pub mod RoundTrip
use socket_prac.Prelude.{
  ℕ, zero, suc, ◌+◌, ◌-◌, ◌*◌, ◌/◌, ◌%◌, ◌^◌, ◌<◌, ℤ, pos, negsuc, is_pos, Bool, true, false, not,
  ◌&&◌, ◌||◌, Option, none, some, [], ◌∷◌, ◌++◌, Text, length, ltb, leb, eqb, if◌then◌else◌,
}

-- Decimal digits; a round divides by ten.
unfoldable pub digits : ℕ → ℕ → Text
digits zero n = []
digits (suc fuel) n =
    let rest = digits fuel (n / 10) ++ (48 + n % 10) ∷ [] in
    if ltb n 10 then (48 + n) ∷ [] else rest

unfoldable pub to_string_ℕ : ℕ → Text
unfolding digits
to_string_ℕ n = digits (suc n) n

unfoldable pub to_string : ℤ → Text
unfolding to_string_ℕ
to_string (pos n) = to_string_ℕ n
to_string (negsuc n) = 45 ∷ to_string_ℕ (suc n)

abbrev pub is_digit : ℕ → Bool
is_digit c = leb 48 c && leb c 57

-- std::isspace in the "C" locale.
abbrev pub is_space : ℕ → Bool
is_space c = eqb c 32 || (leb 9 c && leb c 13)

-- The value of the leading digits, and how many there are.
unfoldable pub scan : Text → ℕ → ℕ → ℕ × ℕ
scan [] acc count = (acc, count)
scan (c ∷ cs) acc count =
    let more = scan cs (acc * 10 + (c - 48)) (suc count) in
    if is_digit c then more else (acc, count)

-- No digit throws invalid_argument, and a value outside int64 out_of_range: both are `none`.
unfoldable pub stoll_unsigned : Bool → Text → ℕ → Option (ℤ × ℕ)
unfolding scan
stoll_unsigned negative s before =
    let (value, count) = scan s 0 0 in
    if eqb count 0
    then none
    else if negative
    then (if ltb (2 ^ 63) value
        then none
        else some (if eqb value 0 then pos 0 else negsuc (value - 1), before + count))
    else if leb (2 ^ 63) value
    then none
    else some (pos value, before + count)

unfoldable pub stoll_signed : Text → ℕ → Option (ℤ × ℕ)
unfolding stoll_unsigned
stoll_signed [] before = none
stoll_signed (c ∷ cs) before =
    if eqb c 45
    then stoll_unsigned true cs (suc before)
    else if eqb c 43
    then stoll_unsigned false cs (suc before)
    else stoll_unsigned false (c ∷ cs) before

unfoldable pub stoll_from : Text → ℕ → Option (ℤ × ℕ)
unfolding stoll_signed
stoll_from [] before = none
stoll_from (c ∷ cs) before =
    let later = stoll_from cs (suc before) in
    if is_space c then later else stoll_signed (c ∷ cs) before

-- The value and the number of characters read.
unfoldable pub stoll : Text → Option (ℤ × ℕ)
unfolding stoll_from
stoll s = stoll_from s 0

-- `room_id = stoll(s, &pos)`, refused unless all of `s` was read and the value is positive.
unfoldable pub parse_room_id : Text → Option ℤ
unfolding stoll
parse_room_id s = elim (stoll s) [
  | none ↦ none
  | some (value, count) ↦
      if not (eqb count (length s)) || not (is_pos value) then none else some value
]

abbrev pub over_hundred : ℤ → Bool
over_hundred (pos n) = ltb 100 n
over_hundred (negsuc n) = false

-- The same for a history limit, which is at most 100.
unfoldable pub parse_limit : Text → Option ℤ
unfolding stoll
parse_limit s = elim (stoll s) [
  | none ↦ none
  | some (value, count) ↦
      if not (eqb count (length s)) || not (is_pos value) || over_hundred value
      then none
      else some value
]
