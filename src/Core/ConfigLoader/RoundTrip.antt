-- ===== src/Core/ConfigLoader/RoundTrip.antt =====
-- A file that is written entry by entry loads as those entries.
use socket_prac.Prelude.{
  ◌≡◌, refl, sym, ap, ◌∙◌, ℕ, suc, false, none, some, List, [], ◌∷◌, ◌++◌, Each, Text, is_empty,
  length, take, drop, has_byte, has_byte-append, find_byte-some, lookup, ◌==◌, text_eq, eqb,
  take-append, append_assoc, append-nil, if◌then◌else◌, inl, inr, Bool-cases, arith,
}
use socket_prac.Core.ErrorCode.{Expected, ok, unexpected, ◌>>=◌, from_config, empty_key}
use socket_prac.Core.Number.{is_space}
use socket_prac.Core.ConfigLoader.{
  trim_begin, trim, is_comment_or_blank, getlines, Config, emplace, load_line, load_lines,
  load_key_value_file,
}
use socket_prac.Core.ConfigLoader.Entries.{Trimmed, Unique, length-trim_begin, length-trim_end}

-- An entry that one line can hold.
pub record Plain (e : Text × Text) : Type 0 where
  pub trimmed : Trimmed e
  pub no_hash : has_byte 35 (take 1 e.0) ≡ false
  pub no_equals : has_byte 61 e.0 ≡ false
  pub one_line_key : has_byte 10 e.0 ≡ false
  pub one_line_value : has_byte 10 e.1 ≡ false

abbrev pub print_line : Text × Text → Text
print_line (k, v) = k ++ 61 ∷ v

abbrev pub print : Config → Text
print [] = []
print (e ∷ es) = print_line e ++ 10 ∷ print es

abbrev pub print_lines : Config → List Text
print_lines [] = []
print_lines (e ∷ es) = print_line e ∷ print_lines es

getlines_line :
    (line s rest : Text)
    → has_byte 10 s ≡ false
    → getlines false line (s ++ 10 ∷ rest) ≡ (line ++ s) ∷ getlines false [] rest
unfolding getlines
getlines_line line [] rest h = ap (λ x. x ∷ getlines false [] rest) (sym (append-nil line))
getlines_line line (c ∷ cs) rest h = elim (Bool-cases (eqb c 10)) [
  | inl e ↦ absurd (ground arith)
  | inr e ↦ rw e (
      getlines_line (line ++ c ∷ []) cs rest (rw e at h)
      ∙ ap (λ x. x ∷ getlines false [] rest) (append_assoc line (c ∷ []) cs))
]

print_line-one : (e : Text × Text) → Plain e → has_byte 10 (print_line e) ≡ false
print_line-one (k, v) p =
    has_byte-append 10 k (61 ∷ v) p.one_line_key (ground (arith, p.one_line_value))

getlines-print : (es : Config) → Each Plain es → getlines false [] (print es) ≡ print_lines es
unfolding getlines
getlines-print [] h = refl
getlines-print (e ∷ es) h =
    getlines_line [] (print_line e) (print es) (print_line-one e h.0)
    ∙ ap (◌∷◌ (print_line e)) (getlines-print es h.1)

-- A key that is trimmed starts with no space.
starts :
    (c : ℕ) (cs v : Text)
    → trim (c ∷ cs) ≡ c ∷ cs
    → eqb c 35 ≡ false
    → is_comment_or_blank (c ∷ (cs ++ 61 ∷ v)) ≡ false
unfolding trim is_comment_or_blank
starts c cs v h e = elim (Bool-cases (is_space c)) [
  | inr solid ↦ rw solid e
  | inl space ↦
      let shorter = rw space at h in
      absurd
        (omega (arith, ap length shorter, length-trim_end (trim_begin cs), length-trim_begin cs))
]

drop_key : (k v : Text) → drop (suc (length k)) (k ++ 61 ∷ v) ≡ v
drop_key [] v = refl
drop_key (c ∷ cs) v = drop_key cs v

emplace_new :
    (k v : Text) (cfg : Config) → lookup k cfg ≡ none → emplace k v cfg ≡ ok (cfg ++ (k, v) ∷ [])
unfolding emplace
emplace_new k v cfg new = rw (new, emplace) refl

load_line-print :
    (k v : Text) (cfg : Config)
    → Plain (k, v)
    → lookup k cfg ≡ none
    → load_line (print_line (k, v)) cfg ≡ ok (cfg ++ (k, v) ∷ [])
unfolding load_line
load_line-print [] v cfg p new = absurd (ground (arith, p.trimmed.named))
load_line-print (c ∷ cs) v cfg p new =
    let line = print_line (c ∷ cs, v) in
    let key : trim (take (length (c ∷ cs)) line) ≡ c ∷ cs =
      ap trim (take-append (c ∷ cs) (61 ∷ v)) ∙ p.trimmed.key in
    let value : trim (drop (suc (length (c ∷ cs))) line) ≡ v =
      ap trim (drop_key (c ∷ cs) v) ∙ p.trimmed.value in
    rw (starts c cs v p.trimmed.key (ground (arith, p.no_hash))) (
      rw (find_byte-some 61 (c ∷ cs) v p.no_equals, load_line)
        (ap
            (λ (k : Text).
              if is_empty k
              then unexpected (from_config empty_key)
              else emplace k (trim (drop (suc (length (c ∷ cs))) line)) cfg)
            key
          ∙ ap (λ w. emplace (c ∷ cs) w cfg) value
          ∙ emplace_new (c ∷ cs) v cfg new))

absent_before : (k v : Text) (m es : Config) → Unique (m ++ (k, v) ∷ es) → lookup k m ≡ none
unfolding lookup
absent_before k v [] es u = refl
absent_before k v ((j, w) ∷ m) es u =
    ground (arith, absent_before k v m es u.1, text_eq.equals_iff j k, not_there j k v m es u.0)
  where
    not_there :
        (j k v : Text) (m es : Config) → lookup j (m ++ (k, v) ∷ es) ≡ none → (j == k) ≡ false
    not_there j k v [] es h = ground (arith, text_eq.equals_iff k j, text_eq.equals_iff j k)
    not_there j k v ((i, w) ∷ m) es h = not_there j k v m es (ground arith)

load_lines-print :
    (es cfg : Config)
    → Each Plain es
    → Unique (cfg ++ es)
    → load_lines (print_lines es) cfg ≡ ok (cfg ++ es)
unfolding load_lines
load_lines-print [] cfg h u = ap ok (sym (append-nil cfg))
load_lines-print ((k, v) ∷ es) cfg h u =
    let assoc = append_assoc cfg ((k, v) ∷ []) es in
    ap (λ (r : Expected Config). r >>= load_lines (print_lines es))
      (load_line-print k v cfg h.0 (absent_before k v cfg es u))
    ∙ load_lines-print es (cfg ++ (k, v) ∷ []) h.1 (rw assoc u)
    ∙ ap ok assoc

-- Entries with different keys, each of which one line can hold, are loaded back from the text that
-- has a line `key=value` for each, in their order.
pub load_key_value_file-print :
    (es : Config) → Each Plain es → Unique es → load_key_value_file (some (print es, false)) ≡ ok es
unfolding load_key_value_file
load_key_value_file-print es h u =
    ap (λ lines. load_lines lines [] >>= λ cfg. ok cfg) (getlines-print es h)
    ∙ ap (λ (r : Expected Config). r >>= λ cfg. ok cfg) (load_lines-print es [] h u)
