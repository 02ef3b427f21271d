-- ===== src/Core/ConfigLoader.antt =====
-- The key=value files of src/core/config_loader.cpp. A file that opens is its text, and whether
-- reading it breaks off; what stands behind the last complete line is then not read.
pub mod Trim
pub mod Lines
pub mod Entries
pub mod RoundTrip
use socket_prac.Prelude.{
  ℕ, zero, suc, Bool, true, false, ◌&&◌, ◌||◌, Option, none, some, List, [], ◌∷◌, ◌++◌, Text, codes,
  is_empty, eqb, leb, length, take, drop, find_byte, lookup, Map, text_eq, if◌then◌else◌,
}
use socket_prac.Core.ErrorCode.{
  Expected, ok, unexpected, ◌>>=◌, ConfigError, file_not_found, malformed_line, empty_key,
  duplicate_key, read_failed, missing_required_key, from_config,
}
use socket_prac.Core.Number.{is_space}

unfoldable pub config_strerror : ℕ → Text
config_strerror code =
    if eqb code 1
    then codes "config file not found"
    else if eqb code 2
    then codes "config malformed line (expected key=value)"
    else if eqb code 3
    then codes "config key is empty"
    else if eqb code 4
    then codes "config duplicate key"
    else if eqb code 5
    then codes "config read failed"
    else if eqb code 6
    then codes "config missing required key"
    else codes "unknown config error"

-- The two loops of `trim`.
unfoldable pub trim_begin : Text → Text
trim_begin [] = []
trim_begin (c ∷ cs) = let rest = trim_begin cs in if is_space c then rest else c ∷ cs

unfoldable pub trim_end : Text → Text
trim_end [] = []
trim_end (c ∷ cs) = let rest = trim_end cs in if is_empty rest && is_space c then [] else c ∷ rest

unfoldable pub trim : Text → Text
unfolding trim_begin trim_end
trim sv = trim_end (trim_begin sv)

abbrev pub last : ℕ → Text → ℕ
last c [] = c
last c (x ∷ xs) = last x xs

unfoldable pub trim_wrapping_quotes : Text → Text
trim_wrapping_quotes [] = []
trim_wrapping_quotes (first ∷ []) = first ∷ []
trim_wrapping_quotes (first ∷ x ∷ xs) =
    if (eqb first 39 && eqb (last x xs) 39) || (eqb first 34 && eqb (last x xs) 34)
    then take (length xs) (x ∷ xs)
    else first ∷ x ∷ xs

unfoldable pub is_comment_or_blank : Text → Bool
is_comment_or_blank [] = true
is_comment_or_blank (ch ∷ line) =
    let rest = is_comment_or_blank line in if is_space ch then rest else eqb ch 35

-- The lines that std::getline reads, the one begun in `line` first.
unfoldable pub getlines : Bool → Text → Text → List Text
getlines broken line [] = if broken || is_empty line then [] else line ∷ []
getlines broken line (c ∷ cs) =
    let next = line ∷ getlines broken [] cs in
    let same = getlines broken (line ++ c ∷ []) cs in if eqb c 10 then next else same

abbrev pub Config : Type 0
Config = Map Text Text

-- `cfg.emplace(key, value)`, which inserts nothing where the key is there.
unfoldable pub emplace : Text → Text → Config → Expected Config
unfolding lookup
emplace key value cfg = elim (lookup key cfg) [
  | none ↦ ok (cfg ++ (key, value) ∷ [])
  | some _ ↦ unexpected (from_config duplicate_key)
]

-- One line.
unfoldable pub load_line : Text → Config → Expected Config
unfolding is_comment_or_blank trim emplace
load_line line cfg = if is_comment_or_blank line then ok cfg else elim (find_byte 61 line) [
  | none ↦ unexpected (from_config malformed_line)
  | some eq ↦
      let key = trim (take eq line) in
      let value = trim (drop (suc eq) line) in
      if is_empty key then unexpected (from_config empty_key) else emplace key value cfg
]

unfoldable pub load_lines : List Text → Config → Expected Config
unfolding load_line
load_lines [] cfg = ok cfg
load_lines (line ∷ lines) cfg = load_line line cfg >>= load_lines lines

unfoldable pub load_key_value_file : Option (Text × Bool) → Expected Config
unfolding load_lines getlines
load_key_value_file none = unexpected (from_config file_not_found)
load_key_value_file (some (text, broken)) = load_lines (getlines broken [] text) [] >>= λ cfg.
    if broken then unexpected (from_config read_failed) else ok cfg

unfoldable pub require : Config → Text → Expected Text
unfolding lookup
require cfg key = elim (lookup key cfg) [
  | none ↦ unexpected (from_config missing_required_key)
  | some value ↦ ok value
]

unfoldable pub get_or : Config → Text → Text → Text
unfolding lookup
get_or cfg key fallback = elim (lookup key cfg) [ none ↦ fallback | some value ↦ value ]

unfoldable pub check_server_require : Config → Config → Expected (Unit {0})
unfolding require
check_server_require cfg env = do
  _ ← require cfg (codes "db.host")
  _ ← require cfg (codes "db.port")
  _ ← require cfg (codes "db.name")
  _ ← require env (codes "db.user")
  _ ← require cfg (codes "tls.cert")
  _ ← require cfg (codes "tls.key")
  _ ← require env (codes "db.password")
  ok tt
