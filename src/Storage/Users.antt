-- ===== src/Storage/Users.antt =====
-- `ping`, `login`, `signup` and `change_nickname` of src/database/db_service.cpp.
use socket_prac.Prelude.{
  Bool, not, ◌&&◌, Option, none, some, List, [], ◌∷◌, ◌++◌, map, Text, codes, is_empty, take, ◌==◌,
  text_eq, if◌then◌else◌,
}
use socket_prac.Core.ErrorCode.{Expected, ok}
use socket_prac.Storage.Select.{select, update}
use socket_prac.Storage.Tables.{User, Tables, is_user, has_user}
use socket_prac.Storage.Transaction.{Sql, ◌>>=◌, pure, query, Server, Database, run}

abbrev pub front : {A : Type 0} → List A → Option A
front [] = none
front (x ∷ xs) = some x

-- SELECT nickname FROM auth.users WHERE id = $1 AND pw = $2 LIMIT 1
unfoldable pub select_nickname : Text → Text → Tables → List Text
unfolding select
select_nickname id pw t =
    take 1 (map (λ (u : User). u.nickname) (select (λ u. u.id == id && u.pw == pw) t.users))

-- INSERT INTO auth.users … ON CONFLICT (id) DO NOTHING RETURNING id
unfoldable pub insert_user : Text → Text → Text → Sql (List Text)
unfolding has_user
insert_user id pw nickname t = if has_user id t then (some [], t) else (
  some (id ∷ []),
  record t { users = t.users ++ record { id = id; pw = pw; nickname = nickname } ∷ [] },
)

-- UPDATE auth.users SET nickname = $2 WHERE id = $1 RETURNING id
unfoldable pub update_nickname : Text → Text → Sql (List Text)
unfolding select update
update_nickname id nickname t = (
  some (map (λ (u : User). u.id) (select (is_user id) t.users)),
  record t { users = update (is_user id) (λ u. record u { nickname = nickname }) t.users },
)

-- `return !rows.empty();`
abbrev pub any_row : {A : Type 0} → List A → Sql (Expected Bool)
any_row rows = pure (ok (not (is_empty rows)))

module _ (server : Server) where
  unfoldable pub ping : Database → Expected (Unit {0}) × Database
  unfolding run
  ping = run server (query (λ t. ok tt))

  unfoldable pub login : Text → Text → Database → Expected (Option Text) × Database
  unfolding run select_nickname
  login id pw = run server (query (λ t. ok (front (select_nickname id pw t))))

  unfoldable pub signup : Text → Text → Database → Expected Bool × Database
  unfolding run insert_user
  signup id pw = run server (insert_user id pw (codes "guest") >>= any_row)

  unfoldable pub change_nickname : Text → Text → Database → Expected Bool × Database
  unfolding run update_nickname
  change_nickname id nickname = run server (update_nickname id nickname >>= any_row)
