-- ===== src/Storage/Connector/Quoting.antt =====
-- A connection string of src/database/db_connector.cpp, read as libpq reads key='value' pairs: a
-- backslash in a quoted value stands before a character that is taken as it is.
use socket_prac.Prelude.{
  ℕ, ◌≡◌, refl, ap, ◌∙◌, Bool, true, false, ◌||◌, Option, none, some, [], ◌∷◌, ◌++◌, Text, codes,
  is_empty, eqb, if◌then◌else◌, inl, inr, Bool-cases, arith,
}
use socket_prac.Storage.Connector.{append_escaped, make_conninfo}

abbrev prepend : ℕ → Option (Text × Text) → Option (Text × Text)
prepend c none = none
prepend c (some (value, rest)) = some (c ∷ value, rest)

-- The value up to the closing quote, which must not be missing, and what stands behind it.
read_quoted : Bool → Text → Option (Text × Text)
read_quoted escaped [] = none
read_quoted escaped (c ∷ cs) =
    let plain = prepend c (read_quoted false cs) in
    let escape = read_quoted true cs in
    if escaped
    then plain
    else if eqb c 39
    then some ([], cs)
    else if eqb c 92
    then escape
    else plain

read_quoted-append_escaped :
    (s rest : Text) → read_quoted false (append_escaped s ++ 39 ∷ rest) ≡ some (s, rest)
unfolding append_escaped read_quoted
read_quoted-append_escaped [] rest = refl
read_quoted-append_escaped (c ∷ cs) rest =
    let ih = read_quoted-append_escaped cs rest in
    elim (Bool-cases (eqb c 92 || eqb c 39)) [
      | inl special ↦ rw special (ap (prepend c) ih)
      | inr plain ↦ rw plain (ground (arith, ih))
    ]

-- What is left behind a text that must come first.
strip : Text → Text → Option Text
strip [] s = some s
strip (c ∷ cs) [] = none
strip (c ∷ cs) (x ∷ xs) = let rest = strip cs xs in if eqb c x then rest else none

strip-append : (label rest : Text) → strip label (label ++ rest) ≡ some rest
unfolding strip
strip-append [] rest = refl
strip-append (c ∷ cs) rest = ground (arith, strip-append cs rest)

-- One key='value', by its label up to the opening quote.
read_value : Text → Text → Option (Text × Text)
read_value label s = elim (strip label s) [ none ↦ none | some rest ↦ read_quoted false rest ]

read_value_lem :
    (label s rest : Text)
    → read_value label (label ++ (append_escaped s ++ 39 ∷ rest)) ≡ some (s, rest)
unfolding read_value
read_value_lem label s rest =
    ap
      (λ (r : Option Text). elim r as (λ _. Option (Text × Text)) [
        | none ↦ none
        | some rest ↦ read_quoted false rest
      ])
      (strip-append label (append_escaped s ++ 39 ∷ rest))
    ∙ read_quoted-append_escaped s rest

infixl 5 ◌>>=◌
abbrev ◌>>=◌ : {A B : Type 0} → Option A → (A → Option B) → Option B
none >>= f = none
some a >>= f = f a

-- Host, port, database, user and password.
abbrev pub Settings : Type 0
Settings = Text × Text × Text × Text × Text

pub read_conninfo : Text → Option Settings
read_conninfo s = read_value (codes "host='") s >>= λ host.
    read_value (codes " port='") host.1 >>= λ port.
    read_value (codes " dbname='") port.1 >>= λ db_name.
    read_value (codes " user='") db_name.1 >>= λ user.
    read_value (codes " password='") user.1 >>= λ password.
    if is_empty password.1 then some (host.0, port.0, db_name.0, user.0, password.0) else none

-- Whatever the five settings hold, quotes and backslashes too, a connection string is read to its
-- end as just these five settings in their order: none of them can add a setting or change another.
pub read_conninfo-make_conninfo :
    (host port db_name user password : Text)
    → read_conninfo (make_conninfo host port db_name user password)
      ≡ some (host, port, db_name, user, password)
unfolding read_conninfo make_conninfo
read_conninfo-make_conninfo host port db_name user password =
    rw
      (
        read_value_lem (codes "host='") host (
            codes " port='"
            ++ (append_escaped port
                ++ (codes "' dbname='"
                    ++ (append_escaped db_name
                        ++ (codes "' user='"
                            ++ (append_escaped user
                                ++ (codes "' password='"
                                    ++ (append_escaped password ++ codes "'")))))))),
        read_value_lem (codes " port='") port (
            codes " dbname='"
            ++ (append_escaped db_name
                ++ (codes "' user='"
                    ++ (append_escaped user
                        ++ (codes "' password='" ++ (append_escaped password ++ codes "'")))))),
        read_value_lem (codes " dbname='") db_name (
            codes " user='"
            ++ (append_escaped user
                ++ (codes "' password='" ++ (append_escaped password ++ codes "'")))),
        read_value_lem (codes " user='") user
            (codes " password='" ++ (append_escaped password ++ codes "'")),
        read_value_lem (codes " password='") password [],
      )
      refl
