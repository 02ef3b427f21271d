-- ===== src/Core/ConfigLoader/Entries.antt =====
-- What load_key_value_file of src/core/config_loader.cpp loads, and what the server may then rely on.
use socket_prac.Prelude.{
  ◌≡◌, refl, sym, ap, ◌∙◌, ◌↔◌, ◌≤◌, suc, Bool, true, false, ◌&&◌, Option, none, some, List, [],
  ◌∷◌, ◌++◌, Each, Each-append, Text, codes, is_empty, length, take, drop, find_byte, lookup, ◌==◌,
  text_eq, if◌then◌else◌, inl, inr, Bool-cases, Option-cases, arith,
}
use socket_prac.Core.ErrorCode.{
  ErrorCode, Expected, ok, unexpected, ◌>>=◌, from_config, read_failed, missing_required_key,
}
use socket_prac.Core.Number.{is_space}
use socket_prac.Core.ConfigLoader.{
  trim_begin, trim_end, trim, is_comment_or_blank, getlines, Config, emplace, load_line, load_lines,
  load_key_value_file, require, check_server_require,
}
use socket_prac.Core.ConfigLoader.Lines.{Reads, load_lines-Reads}

trim_begin_idem : (s : Text) → trim_begin (trim_begin s) ≡ trim_begin s
unfolding trim_begin
trim_begin_idem [] = refl
trim_begin_idem (c ∷ cs) = elim (Bool-cases (is_space c)) [
  | inl e ↦ rw e (trim_begin_idem cs)
  | inr e ↦ rw e (rw e refl)
]

trim_end_idem : (s : Text) → trim_end (trim_end s) ≡ trim_end s
unfolding trim_end
trim_end_idem [] = refl
trim_end_idem (c ∷ cs) = elim (Bool-cases (is_empty (trim_end cs) && is_space c)) [
  | inl e ↦ rw e refl
  | inr e ↦ rw e (rw (trim_end_idem cs) (rw e refl))
]

pub length-trim_begin : (s : Text) → length (trim_begin s) ≤ length s
unfolding trim_begin
length-trim_begin [] = omega arith
length-trim_begin (c ∷ cs) = ground (arith, length-trim_begin cs)

pub length-trim_end : (s : Text) → length (trim_end s) ≤ length s
unfolding trim_end
length-trim_end [] = omega arith
length-trim_end (c ∷ cs) = ground (arith, length-trim_end cs)

-- Cutting the end does not bring a space to the front.
trim_begin-trim_end : (s : Text) → trim_begin s ≡ s → trim_begin (trim_end s) ≡ trim_end s
unfolding trim_begin trim_end
trim_begin-trim_end [] h = refl
trim_begin-trim_end (c ∷ cs) h = elim (Bool-cases (is_space c)) [
  | inl e ↦ absurd (omega (arith, ap length (rw e at h), length-trim_begin cs))
  | inr e ↦ ground arith
]

pub trim_idem : (s : Text) → trim (trim s) ≡ trim s
unfolding trim
trim_idem s =
    ap trim_end (trim_begin-trim_end (trim_begin s) (trim_begin_idem s))
    ∙ trim_end_idem (trim_begin s)

-- No key stands twice.
abbrev pub Unique : Config → Type 0
Unique [] = Unit
Unique ((k, v) ∷ m) = (lookup k m ≡ none) × Unique m

lookup-last :
    (j k v : Text) (m : Config)
    → lookup j m ≡ none
    → (k == j) ≡ false
    → lookup j (m ++ (k, v) ∷ []) ≡ none
unfolding lookup
lookup-last j k v [] h e = rw e refl
lookup-last j k v ((i, w) ∷ m) h e = ground (arith, lookup-last j k v m)

differs : (k j w : Text) (m : Config) → lookup k ((j, w) ∷ m) ≡ none → (k == j) ≡ false
unfolding lookup
differs k j w m h = ground (arith, text_eq.equals_iff j k, text_eq.equals_iff k j)

absent_later : (k j w : Text) (m : Config) → lookup k ((j, w) ∷ m) ≡ none → lookup k m ≡ none
unfolding lookup
absent_later k j w m h = ground arith

pub Unique-last :
    (k v : Text) (m : Config) → Unique m → lookup k m ≡ none → Unique (m ++ (k, v) ∷ [])
unfolding lookup
Unique-last k v [] u h = (refl, tt)
Unique-last k v ((j, w) ∷ m) u h =
    (lookup-last j k v m u.0 (differs k j w m h), Unique-last k v m u.1 (absent_later k j w m h))

-- A key is not empty, and neither key nor value has space around it.
pub record Trimmed (e : Text × Text) : Type 0 where
  pub named : is_empty e.0 ≡ false
  pub key : trim e.0 ≡ e.0
  pub value : trim e.1 ≡ e.1

pub record WellFormed (cfg : Config) : Type 0 where
  pub trimmed : Each Trimmed cfg
  pub unique : Unique cfg

-- What a result of loading must meet, if it is a configuration.
data Loads : Expected Config → Type 0 where
  loads : {cfg : Config} → WellFormed cfg → Loads (ok cfg)
  fails : {ec : ErrorCode} → Loads (unexpected ec)

emplace-WellFormed :
    (key value : Text) (cfg : Config)
    → Trimmed (key, value)
    → WellFormed cfg
    → Loads (emplace key value cfg)
unfolding emplace
emplace-WellFormed key value cfg t w = elim (Option-cases (lookup key cfg)) [
  | inr (old, e) ↦ rw (e, emplace) fails
  | inl new ↦
      rw (new, emplace)
        (loads (record {
          trimmed = Each-append Trimmed cfg ((key, value) ∷ []) w.trimmed (t, tt);
          unique = Unique-last key value cfg w.unique new;
        }))
]

load_line-WellFormed : (line : Text) (cfg : Config) → WellFormed cfg → Loads (load_line line cfg)
unfolding load_line
load_line-WellFormed line cfg w = elim (Bool-cases (is_comment_or_blank line)) [
  | inl comment ↦ rw comment (loads w)
  | inr entry ↦ rw entry (elim (Option-cases (find_byte 61 line)) [
    | inl absent ↦ rw (absent, load_line) fails
    | inr (eq, e) ↦
        rw (e, load_line)
          (elim (Bool-cases (is_empty (trim (take eq line)))) [
            | inl nameless ↦ rw nameless fails
            | inr named ↦ rw named (
                emplace-WellFormed (trim (take eq line)) (trim (drop (suc eq) line)) cfg
                  (record {
                    named = named;
                    key = trim_idem (take eq line);
                    value = trim_idem (drop (suc eq) line);
                  })
                  w)
          ])
  ])
]

load_lines-WellFormed :
    (lines : List Text) (cfg : Config) → WellFormed cfg → Loads (load_lines lines cfg)
unfolding load_lines
load_lines-WellFormed [] cfg w = loads w
load_lines-WellFormed (line ∷ lines) cfg w =
    go (load_line line cfg) (load_line-WellFormed line cfg w) (load_lines-WellFormed lines)
  where
    go :
        (r : Expected Config)
        → Loads r
        → ((cfg : Config) → WellFormed cfg → Loads (load_lines lines cfg))
        → Loads (r >>= load_lines lines)
    go (ok cfg) (loads h) rest = rest cfg h
    go (unexpected ec) fails rest = fails

-- A file that loads could be read to its end, and gives just the entries of its lines, in their
-- order: lines of spaces and lines with a '#' behind spaces only have none, every other line has the
-- one that its first '=' splits it into, without the spaces around key and value. No two of these entries have the same key and no key is empty, and there
-- is no space around keys or values.
pub load_key_value_file-WellFormed :
    (file : Option (Text × Bool)) (cfg : Config)
    → load_key_value_file file ≡ ok cfg
    → (text : Text) × (file ≡ some (text, false))
      × Reads (getlines false [] text) cfg
      × WellFormed cfg
unfolding load_key_value_file
load_key_value_file-WellFormed none cfg e = absurd (ground arith)
load_key_value_file-WellFormed (some (text, broken)) cfg e =
    let lines = getlines broken [] text in
    let (whole, loaded) = go broken (load_lines lines []) e in
    let reads : load_lines (getlines false [] text) [] ≡ ok cfg =
      ap (λ b. load_lines (getlines b [] text) []) (sym whole) ∙ loaded in
    let (es, entries, same) = load_lines-Reads (getlines false [] text) [] cfg reads in
    (
      text,
      ap (λ b. some (text, b)) whole,
      rw same entries,
      well (load_lines (getlines false [] text) [])
          (load_lines-WellFormed (getlines false [] text) [] (record { trimmed = tt; unique = tt }))
          reads,
    )
  where
    go :
        (broken : Bool) (r : Expected Config)
        → (r >>= λ cfg. if broken then unexpected (from_config read_failed) else ok cfg) ≡ ok cfg
        → (broken ≡ false) × (r ≡ ok cfg)
    go true (ok cfg') e = absurd (ground arith)
    go false (ok cfg') e = (refl, e)
    go broken (unexpected ec) e = absurd (ground arith)

    well : (r : Expected Config) → Loads r → r ≡ ok cfg → WellFormed cfg
    well (ok cfg') (loads h) e = let same : cfg' ≡ cfg = cc e in rw (sym same) h
    well (unexpected ec) fails e = absurd (ground arith)

-- The keys that a server's configuration and environment must have.
abbrev pub Has : Config → Text → Type 0
Has cfg key = (value : Text) × (lookup key cfg ≡ some value)

needed :
    (cfg : Config) (key : Text) (rest : Expected (Unit {0}))
    → (require cfg key >>= λ _. rest) ≡ ok tt
    → Has cfg key × (rest ≡ ok tt)
unfolding require
needed cfg key rest e = go (lookup key cfg) refl e
  where
    go :
        (r : Option Text)
        → lookup key cfg ≡ r
        → (elim r as (λ _. Expected Text) [
          | none ↦ unexpected (from_config missing_required_key)
          | some v ↦ ok v
        ]
            >>= λ _. rest)
          ≡ ok tt
        → Has cfg key × (rest ≡ ok tt)
    go none found e = absurd (ground arith)
    go (some v) found e = ((v, found), e)

present :
    (cfg : Config) (key : Text) (rest : Expected (Unit {0}))
    → Has cfg key
    → rest ≡ ok tt
    → (require cfg key >>= λ _. rest) ≡ ok tt
unfolding require
present cfg key rest (v, found) e = rw (found, require) e

-- `check_server_require` accepts just the configurations and environments that have all keys.
pub check_server_require_lem :
    (cfg env : Config)
    → (check_server_require cfg env ≡ ok tt) ↔ (
        Has cfg (codes "db.host")
        × Has cfg (codes "db.port")
        × Has cfg (codes "db.name")
        × Has env (codes "db.user")
        × Has cfg (codes "tls.cert")
        × Has cfg (codes "tls.key")
        × Has env (codes "db.password"))
unfolding check_server_require
check_server_require_lem cfg env = (
  λ e.
      let (host, e1) = needed cfg (codes "db.host") _ e in
      let (port, e2) = needed cfg (codes "db.port") _ e1 in
      let (name, e3) = needed cfg (codes "db.name") _ e2 in
      let (user, e4) = needed env (codes "db.user") _ e3 in
      let (cert, e5) = needed cfg (codes "tls.cert") _ e4 in
      let (key, e6) = needed cfg (codes "tls.key") _ e5 in
      let (password, done) = needed env (codes "db.password") _ e6 in
      (host, port, name, user, cert, key, password),
  λ (host, port, name, user, cert, key, password). present cfg (codes "db.host") _ host (
      present cfg (codes "db.port") _ port (
        present cfg (codes "db.name") _ name (
          present env (codes "db.user") _ user (
            present cfg (codes "tls.cert") _ cert (
              present cfg (codes "tls.key") _ key
                (present env (codes "db.password") _ password refl)))))),
)
