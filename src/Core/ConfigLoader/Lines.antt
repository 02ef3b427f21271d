-- ===== src/Core/ConfigLoader/Lines.antt =====
-- The entries that the lines of a configuration file of src/core/config_loader.cpp stand for.
use socket_prac.Prelude.{
  ◌≡◌, refl, sym, ap, ◌∙◌, inl, inr, suc, Bool, true, false, Option, none, some, List, [], ◌∷◌,
  ◌++◌, append-nil, append_assoc, Text, is_empty, length, take, drop, take-append, has_byte,
  find_byte_cases, lookup, text_eq, if◌then◌else◌, Bool-cases, arith,
}
use socket_prac.Core.ErrorCode.{
  Expected, ok, unexpected, ◌>>=◌, from_config, empty_key, duplicate_key,
}
use socket_prac.Core.ConfigLoader.{
  trim, is_comment_or_blank, Config, emplace, load_line, load_lines,
}
use socket_prac.Core.ConfigLoader.Trim.{
  Inside, all_space, starts_with, trim-Inside, is_comment_or_blank-cases, starts_with-trim,
}

-- Blank lines and comments stand for nothing, every other line for the entry that its first '='
-- splits it into, without the spaces around key and value.
pub data Reads : List Text → Config → Type 0 where
  end_of_file : Reads [] []
  blank :
      {line : Text} {lines : List Text} {es : Config}
      → all_space line ≡ true
      → Reads lines es
      → Reads (line ∷ lines) es
  comment :
      {lines : List Text} {es : Config} (before text : Text)
      → all_space before ≡ true
      → Reads lines es
      → Reads ((before ++ 35 ∷ text) ∷ lines) es
  entry :
      {lines : List Text} {es : Config} {key value : Text} (before after : Text)
      → has_byte 61 before ≡ false
      → Inside before key
      → Inside after value
      → starts_with 35 key ≡ false
      → Reads lines es
      → Reads ((before ++ 61 ∷ after) ∷ lines) ((key, value) ∷ es)

-- What one line adds to the entries before it.
data Adds (line : Text) (cfg : Config) : Config → Type 0 where
  nothing : is_comment_or_blank line ≡ true → Adds line cfg cfg
  one :
      (before after : Text)
      → line ≡ before ++ 61 ∷ after
      → is_comment_or_blank line ≡ false
      → has_byte 61 before ≡ false
      → Adds line cfg (cfg ++ (trim before, trim after) ∷ [])

Adds-to : {line : Text} {cfg a b : Config} → a ≡ b → Adds line cfg a → Adds line cfg b
Adds-to e h = rw (sym e) h

ok_injective : (a b : Config) → ok a ≡ ok b → a ≡ b
ok_injective a b e = cc

drop_key : (before after : Text) → drop (suc (length before)) (before ++ 61 ∷ after) ≡ after
drop_key [] after = refl
drop_key (x ∷ xs) after = drop_key xs after

emplace-Adds :
    (key value : Text) (cfg cfg' : Config)
    → (if is_empty key then unexpected (from_config empty_key) else emplace key value cfg) ≡ ok cfg'
    → cfg' ≡ cfg ++ (key, value) ∷ []
unfolding emplace
emplace-Adds key value cfg cfg' e = go (is_empty key) (lookup key cfg) e
  where
    go :
        (b : Bool) (o : Option Text)
        → (if b then unexpected (from_config empty_key) else elim o as (λ _. Expected Config) [
          | none ↦ ok (cfg ++ (key, value) ∷ [])
          | some _ ↦ unexpected (from_config duplicate_key)
        ])
          ≡ ok cfg'
        → cfg' ≡ cfg ++ (key, value) ∷ []
    go true o e = absurd (ground arith)
    go false none e = sym (ok_injective _ _ e)
    go false (some _) e = absurd (ground arith)

load_line-Adds :
    (line : Text) (cfg cfg' : Config) → load_line line cfg ≡ ok cfg' → Adds line cfg cfg'
unfolding load_line
load_line-Adds line cfg cfg' e = elim (Bool-cases (is_comment_or_blank line)) [
  | inl skipped ↦ Adds-to (ok_injective _ _ (rw skipped at e)) (nothing skipped)
  | inr read ↦ elim (find_byte_cases 61 line) [
    | inl (_, absent) ↦ absurd (ground (arith, rw (absent, load_line) at (rw read at e)))
    | inr (before, after, split, clean, found) ↦
        (let key : take (length before) line ≡ before =
            ap (take (length before)) split ∙ take-append before (61 ∷ after) in
          let value : drop (suc (length before)) line ≡ after =
            ap (drop (suc (length before))) split ∙ drop_key before after in
          let added =
            emplace-Adds (trim before) (trim after) cfg cfg'
              (rw (key, value) at (rw (found, load_line) at (rw read at e))) in
          Adds-to (sym added) (one before after split read clean))
  ]
]

passed_over :
    {line : Text} {lines : List Text} {es : Config}
    → is_comment_or_blank line ≡ true
    → Reads lines es
    → Reads (line ∷ lines) es
passed_over {line} skipped reads = elim (is_comment_or_blank-cases line skipped) [
  | inl space ↦ blank space reads
  | inr (before, text, split, space) ↦ rw split (comment before text space reads)
]

-- Lines that load add just their entries, in their order.
pub load_lines-Reads :
    (lines : List Text) (cfg cfg' : Config)
    → load_lines lines cfg ≡ ok cfg'
    → (es : Config) × Reads lines es × (cfg' ≡ cfg ++ es)
unfolding load_lines
load_lines-Reads [] cfg cfg' e = ([], end_of_file, sym (ok_injective _ _ e) ∙ sym (append-nil cfg))
load_lines-Reads (line ∷ lines) cfg cfg' e =
    go (load_line line cfg) (load_line-Adds line cfg) (λ cfg1. load_lines-Reads lines cfg1 cfg') e
  where
    added :
        (cfg1 : Config)
        → Adds line cfg cfg1
        → ((es : Config) × Reads lines es × (cfg' ≡ cfg1 ++ es))
        → (es : Config) × Reads (line ∷ lines) es × (cfg' ≡ cfg ++ es)
    added cfg1 (nothing skipped) (es, reads, whole) = (es, passed_over skipped reads, whole)
    added cfg1 (one before after split read clean) (es, reads, whole) = (
      (trim before, trim after) ∷ es,
      rw split (
          entry before after clean (trim-Inside before) (trim-Inside after)
            (starts_with-trim before (61 ∷ after) (rw split at read)) reads),
      whole ∙ append_assoc cfg ((trim before, trim after) ∷ []) es,
    )

    go :
        (r : Expected Config)
        → ((cfg1 : Config) → r ≡ ok cfg1 → Adds line cfg cfg1)
        → ((cfg1 : Config)
            → load_lines lines cfg1 ≡ ok cfg'
            → (es : Config) × Reads lines es × (cfg' ≡ cfg1 ++ es))
        → (r >>= load_lines lines) ≡ ok cfg'
        → (es : Config) × Reads (line ∷ lines) es × (cfg' ≡ cfg ++ es)
    go (ok cfg1) adds later e = added cfg1 (adds cfg1 refl) (later cfg1 e)
    go (unexpected ec) adds later e = absurd (ground arith)
