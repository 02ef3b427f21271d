-- ===== src/Protocol/Codec/Tokens.antt =====
-- How `decode_line` splits a line into its command and arguments.
use socket_prac.Prelude.{
  ℕ, suc, ◌≡◌, refl, ap, false, [], ◌∷◌, ◌++◌, Text, is_empty, has_byte, find_byte-none,
  find_byte-some, take-append, length, drop, arith,
}
use socket_prac.Protocol.Codec.{
  cr, lf, DecodeInfo, push_token, skip_newline, decode_loop, erase_delimeter,
}

-- A field that survives the wire: not empty, and without the two delimiters.
pub record Clean (s : Text) : Type 0 where
  pub filled : is_empty s ≡ false
  pub no_cr : has_byte cr s ≡ false
  pub no_lf : has_byte lf s ≡ false

drop-suc : (before after : Text) → drop (suc (length before)) (before ++ cr ∷ after) ≡ after
drop-suc [] after = refl
drop-suc (x ∷ xs) after = drop-suc xs after

pub decode_loop_split :
    (fuel : ℕ) (before after : Text) (info : DecodeInfo)
    → has_byte cr before ≡ false
    → decode_loop (suc fuel) (before ++ cr ∷ after) info
      ≡ decode_loop fuel (skip_newline after) (push_token before info)
unfolding decode_loop
decode_loop_split fuel [] after info h = refl
decode_loop_split fuel (x ∷ xs) after info h =
    rw (find_byte-some cr (x ∷ xs) after h, decode_loop)
      (rw (drop-suc xs after, take-append xs (cr ∷ after)))

pub decode_loop_last :
    (fuel : ℕ) (s : Text) (info : DecodeInfo)
    → has_byte cr s ≡ false
    → decode_loop (suc fuel) s info ≡ push_token s info
unfolding decode_loop
decode_loop_last fuel [] info h = refl
decode_loop_last fuel (x ∷ xs) info h = rw (find_byte-none cr (x ∷ xs) h, decode_loop)

pub skip_newline-append : (s t : Text) → Clean s → skip_newline (s ++ t) ≡ s ++ t
unfolding skip_newline
skip_newline-append [] t c = cc (c.filled)
skip_newline-append (x ∷ xs) t c = ground (arith, c.no_lf)

pub skip_newline_self : (s : Text) → has_byte lf s ≡ false → skip_newline s ≡ s
unfolding skip_newline
skip_newline_self [] h = refl
skip_newline_self (x ∷ xs) h = ground arith

pub erase_delimeter-append : (s : Text) → erase_delimeter (s ++ lf ∷ []) ≡ s
unfolding erase_delimeter
erase_delimeter-append [] = refl
erase_delimeter-append (x ∷ []) = refl
erase_delimeter-append (x ∷ y ∷ rest) = ap (◌∷◌ x) (erase_delimeter-append (y ∷ rest))

pub erase_delimeter_self : (s : Text) → has_byte lf s ≡ false → erase_delimeter s ≡ s
unfolding erase_delimeter
erase_delimeter_self [] h = refl
erase_delimeter_self (x ∷ []) h = ground arith
erase_delimeter_self (x ∷ y ∷ rest) h = ap (◌∷◌ x) (erase_delimeter_self (y ∷ rest) (ground arith))
