-- ===== src/Storage/Friends.antt =====
-- The operations of src/database/db_service.cpp on friendships and friend requests.
pub mod Requests
pub mod Consent
pub mod Lists
use socket_prac.Prelude.{
  ◌≡◌, ℕ, Bool, true, false, not, ◌&&◌, ◌||◌, Option, none, some, List, [], ◌∷◌, ◌++◌, map, Text,
  is_empty, ltb, ◌==◌, text_eq, if◌then◌else◌,
}
use socket_prac.Core.ErrorCode.{Expected, ok}
use socket_prac.Storage.Select.{exists, select, update, order_by}
use socket_prac.Storage.Tables.{
  Friendship, Status, pending, accepted, rejected, canceled, FriendRequest, Tables, Collation,
  least, greatest, is_pair, is_request, has_user,
}
use socket_prac.Storage.Transaction.{Sql, ◌>>=◌, pure, query, violates, Server, Database, run}
use socket_prac.Storage.Users.{any_row}

abbrev pub is_pending : Status → Bool
is_pending pending = true
is_pending _ = false

-- status IN ('rejected', 'canceled')
abbrev pub is_closed : Status → Bool
is_closed rejected = true
is_closed canceled = true
is_closed _ = false

module _ (c : Collation) where
  unfoldable pub are_friends : Text → Text → Tables → Bool
  unfolding exists least greatest
  are_friends a b t = exists (is_pair (least c a b) (greatest c a b)) t.friendships

  -- INSERT INTO social.friendships … VALUES (LEAST($1, $2), GREATEST($1, $2)) ON CONFLICT … DO NOTHING
  -- RETURNING user_a_id. The CHECKs of the table come before the conflict, REFERENCES after it.
  unfoldable pub insert_friendship : Text → Text → Sql (List Text)
  unfolding are_friends least greatest has_user
  insert_friendship a b t =
      if not (c.before (least c a b) (greatest c a b))
      then violates t
      else if are_friends a b t
      then (some [], t)
      else if has_user (least c a b) t && has_user (greatest c a b) t
      then (
        some (least c a b ∷ []),
        record t {
          friendships =
              t.friendships ++ record { user_a_id = least c a b; user_b_id = greatest c a b } ∷ [];
        },
      )
      else violates t

  -- DELETE FROM social.friendships WHERE … RETURNING user_a_id
  unfoldable pub delete_friendship : Text → Text → Sql (List Text)
  unfolding select least greatest
  delete_friendship a b t = (
    some (
        map (λ (f : Friendship). f.user_a_id)
          (select (is_pair (least c a b) (greatest c a b)) t.friendships)),
    record t {
      friendships = select (λ f. not (is_pair (least c a b) (greatest c a b) f)) t.friendships;
    },
  )

  -- SELECT CASE WHEN user_a_id = $1 THEN user_b_id ELSE user_a_id END … ORDER BY friend_id ASC
  unfoldable pub select_friends : Text → Tables → List Text
  unfolding select order_by
  select_friends user_id t = order_by c.before (
      map (λ (f : Friendship). if f.user_a_id == user_id then f.user_b_id else f.user_a_id)
        (select (λ f. f.user_a_id == user_id || f.user_b_id == user_id) t.friendships))

  -- INSERT INTO social.friend_requests … SELECT $1, $2, 'pending' WHERE NOT EXISTS (…)
  -- ON CONFLICT … DO UPDATE … WHERE status IN ('rejected', 'canceled') RETURNING from_user_id
  unfoldable pub insert_request : ℕ → Text → Text → Sql (List Text)
  unfolding are_friends exists select update has_user
  insert_request now from_user_id to_user_id t =
      let reopened =
        λ (r : FriendRequest). is_request from_user_id to_user_id r && is_closed r.status in
      if are_friends from_user_id to_user_id t
      then (some [], t)
      else if from_user_id == to_user_id
      then violates t
      else if exists (is_request from_user_id to_user_id) t.friend_requests
      then (
        some (map (λ (r : FriendRequest). r.from_user_id) (select reopened t.friend_requests)),
        record t {
          friend_requests =
              update reopened (λ r. record r { status = pending; updated_at = now })
                t.friend_requests;
        },
      )
      else if has_user from_user_id t && has_user to_user_id t
      then (
        some (from_user_id ∷ []),
        record t {
          friend_requests =
              t.friend_requests
              ++ record {
                from_user_id = from_user_id;
                to_user_id = to_user_id;
                status = pending;
                created_at = now;
                updated_at = now;
              }
                ∷ [];
        },
      )
      else violates t

-- UPDATE social.friend_requests SET status = … WHERE … AND status = 'pending' RETURNING from_user_id
unfoldable pub settle_request : ℕ → Status → Text → Text → Sql (List Text)
unfolding select update
settle_request now status from_user_id to_user_id t =
    let settled =
      λ (r : FriendRequest). is_request from_user_id to_user_id r && is_pending r.status in
    (
      some (map (λ (r : FriendRequest). r.from_user_id) (select settled t.friend_requests)),
      record t {
        friend_requests =
            update settled (λ r. record r { status = status; updated_at = now }) t.friend_requests;
      },
    )

-- SELECT from_user_id … WHERE to_user_id = $1 AND status = 'pending' ORDER BY created_at ASC
unfoldable pub select_requests : Text → Tables → List Text
unfolding select order_by
select_requests to_user_id t =
    map (λ (r : FriendRequest). r.from_user_id)
      (order_by (λ (r r' : FriendRequest). ltb r.created_at r'.created_at)
        (select (λ r. r.to_user_id == to_user_id && is_pending r.status) t.friend_requests))

-- The statements of accept_friend_request after its UPDATE.
unfoldable pub befriend : Collation → Text → Text → List Text → Sql (Expected Bool)
unfolding insert_friendship
befriend c from_user_id to_user_id update_rows =
    if is_empty update_rows
    then pure (ok false)
    else insert_friendship c from_user_id to_user_id >>= λ _. pure (ok true)

unfoldable pub accept_body : Collation → ℕ → Text → Text → Sql (Expected Bool)
unfolding settle_request befriend
accept_body c now from_user_id to_user_id =
    settle_request now accepted from_user_id to_user_id >>= befriend c from_user_id to_user_id

module _ (server : Server) where
  unfoldable pub add_friend : Text → Text → Database → Expected Bool × Database
  unfolding run insert_friendship
  add_friend user_id friend_id =
      run server (insert_friendship server.collation user_id friend_id >>= any_row)

  unfoldable pub remove_friend : Text → Text → Database → Expected Bool × Database
  unfolding run delete_friendship
  remove_friend user_id friend_id =
      run server (delete_friendship server.collation user_id friend_id >>= any_row)

  unfoldable pub list_friends : Text → Database → Expected (List Text) × Database
  unfolding run select_friends
  list_friends user_id = run server (query (λ t. ok (select_friends server.collation user_id t)))

  unfoldable pub request_friend : Text → Text → Database → Expected Bool × Database
  unfolding run insert_request
  request_friend from_user_id to_user_id db =
      run server
        (insert_request server.collation (server.now db.transactions) from_user_id to_user_id
          >>= any_row)
        db

  unfoldable pub accept_friend_request : Text → Text → Database → Expected Bool × Database
  unfolding run accept_body
  accept_friend_request from_user_id to_user_id db =
      run server (accept_body server.collation (server.now db.transactions) from_user_id to_user_id)
        db

  unfoldable pub reject_friend_request : Text → Text → Database → Expected Bool × Database
  unfolding run settle_request
  reject_friend_request from_user_id to_user_id db =
      run server
        (settle_request (server.now db.transactions) rejected from_user_id to_user_id >>= any_row)
        db

  unfoldable pub list_friend_requests : Text → Database → Expected (List Text) × Database
  unfolding run select_requests
  list_friend_requests to_user_id = run server (query (λ t. ok (select_requests to_user_id t)))
