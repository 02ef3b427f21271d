-- ===== src/Storage/Service/Friendship.antt =====
-- Requests that are accepted, friendships that end, and what list_friends says of them.
use socket_prac.Prelude.{
  ◌≡◌, refl, sym, ap, ◌∙◌, ℕ, Bool, true, false, not, ◌&&◌, Option, none, some, List, [], ◌∷◌, Each,
  map, Text, is_empty, ◌==◌, text_eq, contains, beq_refl, inl, inr, Bool-cases, arith,
}
use socket_prac.Core.ErrorCode.{Expected, ok}
use socket_prac.Storage.Select.{exists, select, exists-select, none_selected}
use socket_prac.Storage.Tables.{
  Friendship, accepted, FriendRequest, Tables, Collation, least, greatest, is_pair, is_request,
  has_user,
}
use socket_prac.Storage.Transaction.{◌>>=◌, pure, Server, Database, run}
use socket_prac.Storage.Transaction.Kept.{
  >>=-none, >>=-pure, >>=-eq-some, >>=-Maintains, query-Maintains, run-kept,
}
use socket_prac.Storage.Transaction.Committed.{run-ok}
use socket_prac.Storage.Users.{any_row}
use socket_prac.Storage.Friends.{
  is_pending, is_closed, are_friends, insert_friendship, delete_friendship, select_friends,
  insert_request, settle_request, befriend, accept_body, remove_friend, request_friend,
  accept_friend_request,
}
use socket_prac.Storage.Friends.Requests.{
  IsConsented, IsConsented-RollsBack, delete_friendship-Maintains,
}
use socket_prac.Storage.Friends.Consent.{accept_body-Maintains}
use socket_prac.Storage.Friends.Lists.{select_friends_lem, are_friends_comm}
use socket_prac.Storage.Rooms.Sound.{exists-last}

module _ (c : Collation) where
  -- An insertion that is not refused leaves the two friends.
  insert_friendship-friends :
      (a b : Text) (t t' : Tables) (rows : List Text)
      → insert_friendship c a b t ≡ (some rows, t')
      → are_friends c a b t' ≡ true
  unfolding insert_friendship
  insert_friendship-friends a b t t' rows e =
      elim (Bool-cases (c.before (least c a b) (greatest c a b))) [
        | inr self ↦ absurd (ground (arith, rw self at e))
        | inl ordered ↦ elim (Bool-cases (are_friends c a b t)) [
          | inl friends ↦ after (rw friends at (rw ordered at e)) ∙ friends
          | inr new ↦ elim (Bool-cases (has_user (least c a b) t && has_user (greatest c a b) t)) [
            | inr unknown ↦ absurd (ground (arith, rw unknown at (rw new at (rw ordered at e))))
            | inl known ↦
                after (rw known at (rw new at (rw ordered at e)))
                ∙ exists-last (is_pair (least c a b) (greatest c a b)) t.friendships _
                    (rw (beq_refl (least c a b), beq_refl (greatest c a b)) refl)
          ]
        ]
      ]
    where
      after :
          {r : Option (List Text) × Tables}
          → r ≡ (some rows, t')
          → are_friends c a b t' ≡ are_friends c a b r.1
      after e = ap (λ (r : Option (List Text) × Tables). are_friends c a b r.1) (sym e)

  -- Nothing is settled where no request is pending.
  settled_pending :
      (a b : Text) (rs : List FriendRequest)
      → is_empty (
          map
            (λ (r : FriendRequest). r.from_user_id)
            (select (λ r. is_request a b r && is_pending r.status) rs))
        ≡ false
      → exists (λ r. is_request a b r && is_pending r.status) rs ≡ true
  unfolding exists select
  settled_pending a b [] e = ground arith
  settled_pending a b (r ∷ rs) e = ground (arith, settled_pending a b rs)

  accepted_body :
      (now : ℕ) (a b : Text) (t t' : Tables)
      → accept_body c now a b t ≡ (some (ok true), t')
      → (exists (λ r. is_request a b r && is_pending r.status) t.friend_requests ≡ true)
        × (are_friends c a b t' ≡ true)
  unfolding accept_body befriend settle_request
  accepted_body now a b t t' e =
      let rows =
        map (λ (r : FriendRequest). r.from_user_id)
          (select (λ r. is_request a b r && is_pending r.status) t.friend_requests) in
      elim (Bool-cases (is_empty rows)) [
        | inl none_pending ↦ absurd (ground (arith, rw none_pending at e))
        | inr found ↦
            let (rows', t2, inserts, answers) =
              >>=-eq-some (insert_friendship c a b) (λ _. pure (ok true))
                (settle_request now accepted a b t).1 t' (ok true) (rw found at e) in
            (
              settled_pending a b t.friend_requests found,
              ap (λ (r : Option (Expected Bool) × Tables). are_friends c a b r.1) (sym answers)
                  ∙ insert_friendship-friends a b (settle_request now accepted a b t).1 t2 rows'
                      inserts,
            )
      ]

  -- No friendship is left of a pair that is deleted.
  delete_friendship-friends :
      (a b : Text) (t : Tables) → are_friends c a b (delete_friendship c a b t).1 ≡ false
  unfolding are_friends delete_friendship
  delete_friendship-friends a b t =
      exists-select (is_pair (least c a b) (greatest c a b))
        (λ f. not (is_pair (least c a b) (greatest c a b) f)) t.friendships
      ∙ never t.friendships
    where
      never :
          (fs : List Friendship)
          → exists
              (λ f.
                not (is_pair (least c a b) (greatest c a b) f)
                && is_pair (least c a b) (greatest c a b) f)
              fs
            ≡ false
      never [] = refl
      never (f ∷ fs) = ground (arith, never fs)

module _ (server : Server) where
  -- Over tables where each friendship has an accepted request and is stored in the order of its
  -- users: when accept_friend_request answers true, a request was pending in that direction, and the
  -- two users are then on each other's lists of friends.
  pub accept_friends :
      (a b : Text) (db : Database)
      → IsConsented server.collation db.tables
      → (accept_friend_request server a b db).0 ≡ ok true
      → let db' = (accept_friend_request server a b db).1 in
        (exists (λ r. is_request a b r && is_pending r.status) db.tables.friend_requests ≡ true)
        × (contains b (select_friends server.collation a db'.tables) ≡ true)
        × (contains a (select_friends server.collation b db'.tables) ≡ true)
  unfolding accept_friend_request
  accept_friends a b db h e =
      let now = server.now db.transactions in
      let body = accept_body server.collation now a b in
      let after = (run server body db).1.tables in
      let (was_pending, friends) =
        accepted_body server.collation now a b db.tables after (run-ok server body db true e) in
      let kept =
        run-kept (IsConsented-RollsBack server.collation) server body db
          (accept_body-Maintains server.collation now a b) h in
      (
        was_pending,
        select_friends_lem server.collation a b after kept ∙ friends,
        select_friends_lem server.collation b a after kept
            ∙ are_friends_comm server.collation b a after
            ∙ friends,
      )

  -- Over tables where each friendship has an accepted request and is stored in the order of its
  -- users: when remove_friend answers without an error, true or false, neither of the two users is
  -- then on the other's list of friends.
  pub remove_friends :
      (a b : Text) (db : Database) (removed : Bool)
      → IsConsented server.collation db.tables
      → (remove_friend server a b db).0 ≡ ok removed
      → let db' = (remove_friend server a b db).1 in
        (contains b (select_friends server.collation a db'.tables) ≡ false)
        × (contains a (select_friends server.collation b db'.tables) ≡ false)
  unfolding remove_friend
  remove_friends a b db removed h e =
      let delete = delete_friendship server.collation a b in
      let after = (run server (delete >>= any_row) db).1.tables in
      let kept =
        run-kept (IsConsented-RollsBack server.collation) server (delete >>= any_row) db
          (>>=-Maintains delete any_row (delete_friendship-Maintains server.collation a b)
            (λ rows. query-Maintains (λ _. ok (not (is_empty rows)))))
          h in
      let strangers : are_friends server.collation a b after ≡ false =
        ap (are_friends server.collation a b) (
          ap (λ (r : Option (Expected Bool) × Tables). r.1)
            (sym (run-ok server (delete >>= any_row) db removed e))
          ∙ >>=-pure delete (λ rows. ok (not (is_empty rows))) db.tables)
        ∙ delete_friendship-friends server.collation a b db.tables in
      (
        select_friends_lem server.collation a b after kept ∙ strangers,
        select_friends_lem server.collation b a after kept
            ∙ are_friends_comm server.collation b a after
            ∙ strangers,
      )

  -- Where every request from a to b is an accepted one, none is open to be sent again.
  none_reopened :
      (a b : Text) (rs : List FriendRequest)
      → Each (λ (r : FriendRequest). is_request a b r ≡ true → r.status ≡ accepted) rs
      → exists (λ r. is_request a b r && is_closed r.status) rs ≡ false
  unfolding exists
  none_reopened a b [] h = refl
  none_reopened a b (r ∷ rs) h = elim (Bool-cases (is_request a b r)) [
    | inr other ↦ rw other (none_reopened a b rs h.1)
    | inl same ↦ rw (same, ap is_closed (h.0 same)) (none_reopened a b rs h.1)
  ]

  refused_body :
      (now : ℕ) (a b : Text) (t t' : Tables) (made : Bool)
      → are_friends server.collation a b t ≡ false
      → exists (is_request a b) t.friend_requests ≡ true
      → Each
          (λ (r : FriendRequest). is_request a b r ≡ true → r.status ≡ accepted)
          t.friend_requests
      → (insert_request server.collation now a b >>= any_row) t ≡ (some (ok made), t')
      → made ≡ false
  unfolding insert_request
  refused_body now a b t t' made apart before all e = elim (Bool-cases (a == b)) [
    | inl self ↦
        let refused : insert_request server.collation now a b t ≡ (none, t) =
          rw (apart, self) refl in
        absurd (
          ground (
            arith,
            sym (>>=-none (insert_request server.collation now a b) any_row t t refused) ∙ e,
          ))
    | inr other ↦
        let none_sent : (insert_request server.collation now a b t).0 ≡ some [] =
          rw
            (
              apart,
              other,
              before,
              none_selected _ t.friend_requests (none_reopened a b t.friend_requests all),
            )
            refl in
        let (rows, t1, inserts, answers) =
          >>=-eq-some (insert_request server.collation now a b) any_row t t' (ok made) e in
        answered rows t1
          (some_injective rows
            (sym (ap (λ (r : Option (List Text) × Tables). r.0) inserts) ∙ none_sent))
          answers
  ]
    where
      some_injective : (rows : List Text) → some rows ≡ some [] → rows ≡ []
      some_injective rows h = cc

      answered :
          (rows : List Text) (t1 : Tables)
          → rows ≡ []
          → any_row rows t1 ≡ (some (ok made), t')
          → made ≡ false
      answered [] t1 h answers = ground arith
      answered (x ∷ xs) t1 h answers = absurd (ground arith)

  -- When all requests from a to b have been accepted and there is one, and the two are no longer
  -- friends, request_friend from a to b never answers that a request was made: a cannot ask b again.
  pub request_friend-refused :
      (a b : Text) (db : Database)
      → are_friends server.collation a b db.tables ≡ false
      → exists (is_request a b) db.tables.friend_requests ≡ true
      → Each
          (λ (r : FriendRequest). is_request a b r ≡ true → r.status ≡ accepted)
          db.tables.friend_requests
      → ¬ ((request_friend server a b db).0 ≡ ok true)
  unfolding request_friend
  request_friend-refused a b db apart before all e =
      let now = server.now db.transactions in
      let body = insert_request server.collation now a b >>= any_row in
      let made : true ≡ false =
        refused_body now a b db.tables (run server body db).1.tables true apart before all
          (run-ok server body db true e) in
      absurd (cc made)
