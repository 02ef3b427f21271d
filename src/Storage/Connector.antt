-- ===== src/Storage/Connector.antt =====
-- The errors of src/database/db_connector.cpp, its connection string and `create`. What libpqxx
-- throws is an argument, as the classes that `dynamic_cast` finds in it.
pub mod Quoting
use socket_prac.Prelude.{
  ℕ, Bool, true, false, Option, none, some, [], ◌∷◌, ◌++◌, ◌||◌, Text, codes, is_empty, eqb,
  if◌then◌else◌,
}
use socket_prac.Core.ErrorCode.{ErrorCode, from_db, Expected, ok, unexpected}

pub data DbError : Type 0 where
  unknown_exception missing_password_env broken_connection sql_error transaction_rollback : DbError
  serialization_failure deadlock_detected in_doubt_error permission_denied : DbError
  unique_violation foreign_key_violation not_null_violation check_violation : DbError

abbrev pub db_error_code : DbError → ℕ
db_error_code unknown_exception = 1
db_error_code missing_password_env = 2
db_error_code broken_connection = 3
db_error_code sql_error = 4
db_error_code transaction_rollback = 5
db_error_code serialization_failure = 6
db_error_code deadlock_detected = 7
db_error_code in_doubt_error = 8
db_error_code permission_denied = 9
db_error_code unique_violation = 10
db_error_code foreign_key_violation = 11
db_error_code not_null_violation = 12
db_error_code check_violation = 13

unfoldable pub db_strerror : ℕ → Text
db_strerror code =
    if eqb code 1
    then codes "unknown_db_exception"
    else if eqb code 2
    then codes "missing_password_env"
    else if eqb code 3
    then codes "broken_connection"
    else if eqb code 4
    then codes "sql_error"
    else if eqb code 5
    then codes "transaction_rollback"
    else if eqb code 6
    then codes "serialization_failure"
    else if eqb code 7
    then codes "deadlock_detected"
    else if eqb code 8
    then codes "in_doubt_error"
    else if eqb code 9
    then codes "permission_denied"
    else if eqb code 10
    then codes "unique_violation"
    else if eqb code 11
    then codes "foreign_key_violation"
    else if eqb code 12
    then codes "not_null_violation"
    else if eqb code 13
    then codes "check_violation"
    else codes "unknown_db_error"

-- Whether the exception is of each class; a class implies those it is derived from.
pub record Exception : Type 0 where
  pub is_broken_connection : Bool
  pub is_in_doubt_error : Bool
  pub is_transaction_rollback : Bool
  pub is_sql_error : Bool

unfoldable pub map_exception : Exception → ErrorCode
map_exception ex =
    if ex.is_broken_connection
    then from_db (db_error_code broken_connection)
    else if ex.is_in_doubt_error
    then from_db (db_error_code in_doubt_error)
    else if ex.is_transaction_rollback
    then from_db (db_error_code transaction_rollback)
    else if ex.is_sql_error
    then from_db (db_error_code sql_error)
    else from_db (db_error_code unknown_exception)

-- The violation of a constraint, which libpqxx derives from its class sql_error.
abbrev pub constraint_violation : Exception
constraint_violation = record {
  is_broken_connection = false;
  is_in_doubt_error = false;
  is_transaction_rollback = false;
  is_sql_error = true;
}

unfoldable pub append_escaped : Text → Text
append_escaped [] = []
append_escaped (ch ∷ src) =
    let rest = append_escaped src in if eqb ch 92 || eqb ch 39 then 92 ∷ ch ∷ rest else ch ∷ rest

unfoldable pub make_conninfo : Text → Text → Text → Text → Text → Text
unfolding append_escaped
make_conninfo host port db_name user password =
    codes "host='"
    ++ (append_escaped host
        ++ (codes "' port='"
            ++ (append_escaped port
                ++ (codes "' dbname='"
                    ++ (append_escaped db_name
                        ++ (codes "' user='"
                            ++ (append_escaped user
                                ++ (codes "' password='"
                                    ++ (append_escaped password ++ codes "'")))))))))

-- `create`: the environment's DB_PASSWORD stands in for an empty password, and a connection is the
-- string it was opened with. Opening it may throw.
unfoldable pub create :
    (Text → Option Exception) → Option Text → Text → Text → Text → Text → Text → Expected Text
unfolding make_conninfo map_exception
create opens env_password host port db_name user password =
    elim (if is_empty password
      then elim env_password [ none ↦ none | some env ↦ if is_empty env then none else some env ]
      else some password) [
        | none ↦ unexpected (from_db (db_error_code missing_password_env))
        | some pw ↦
            let conninfo = make_conninfo host port db_name user pw in
            elim (opens conninfo) [ none ↦ ok conninfo | some ex ↦ unexpected (map_exception ex) ]
      ]
