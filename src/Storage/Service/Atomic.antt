-- ===== src/Storage/Service/Atomic.antt =====
-- What an error of an operation of src/database/db_service.cpp tells of the tables.
use socket_prac.Prelude.{
  ◌≡◌, refl, ap, sym, ◌++◌, suc, ◌∙◌, ◌⊎◌, inl, inr, Bool, true, false, not, Option, none, some,
  List, [], ◌∷◌, map, Text, codes, ℤ, pos, ℕ, is_empty, ◌==◌, text_eq, if◌then◌else◌, Bool-cases,
  arith,
}
use socket_prac.Core.ErrorCode.{ErrorCode, Expected, ok, unexpected}
use socket_prac.Storage.Tables.{
  Room, owner, member, accepted, rejected, Tables, Collation, has_member, has_user,
}
use socket_prac.Storage.Transaction.{Sql, ◌>>=◌, pure, query, Server, Database, run}
use socket_prac.Storage.Transaction.Kept.{>>=-some, >>=-none}
use socket_prac.Storage.Transaction.Committed.{SameRows, Unheard, run-unexpected}
use socket_prac.Storage.Users.{
  any_row, insert_user, update_nickname, select_nickname, front, login, signup, change_nickname,
}
use socket_prac.Storage.Friends.{
  insert_friendship, delete_friendship, insert_request, settle_request, befriend, accept_body,
  are_friends, select_friends, select_requests, remove_friend, list_friends, request_friend,
  accept_friend_request, reject_friend_request, list_friend_requests,
}
use socket_prac.Storage.Rooms.{
  insert_room, insert_member, delete_rooms, delete_member, insert_message, select_owner,
  select_rooms, select_messages, message_info, add_owner, create_body, invite_body,
  leave_unless_owner, leave_body, history_body, create_room, delete_room, invite_room,
  create_room_message, leave_room, list_rooms, list_room_messages,
}
use socket_prac.Storage.Service.{db_service}
use socket_prac.Database.Service.{
  DbService, invited, already_member, not_friend, room_not_found_or_no_permission, left,
  not_member_or_room_not_found, owner_cannot_leave,
}

-- Statements whose own answer is no error.
record Succeeds {A : Type 0} (m : Sql (Expected A)) : Type 0 where
  at : (t : Tables) (ec : ErrorCode) → ¬ ((m t).0 ≡ some (unexpected ec))

query-Succeeds : {A : Type 0} (f : Tables → A) → Succeeds (query (λ t. ok (f t)))
query-Succeeds f = record { at = λ t ec e. absurd (ground arith) }

>>=-Succeeds :
    {A B : Type 0} (m : Sql A) (f : A → Sql (Expected B))
    → ((a : A) → Succeeds (f a))
    → Succeeds (m >>= f)
>>=-Succeeds {A} {B} m f h = record { at = λ t. go (m t) }
  where
    go :
        (r : Option A × Tables) (ec : ErrorCode)
        → ¬ (
            (elim r.0 as (λ _. Option (Expected B) × Tables) [
              | none ↦ (none, r.1)
              | some a ↦ f a r.1
            ]).0
            ≡ some (unexpected ec))
    go (none, t) ec e = absurd (ground arith)
    go (some a, t) ec e = (h a).at t ec e

if-Succeeds :
    {A : Type 0} (b : Bool) {m n : Sql (Expected A)}
    → Succeeds m
    → Succeeds n
    → Succeeds (if b then m else n)
if-Succeeds true p q = p
if-Succeeds false p q = q

answer-Succeeds : {A B : Type 0} (m : Sql A) (f : A → B) → Succeeds (m >>= λ a. pure (ok (f a)))
answer-Succeeds m f = >>=-Succeeds m (λ a. pure (ok (f a))) (λ a. query-Succeeds (λ t. f a))

accept-Succeeds : (c : Collation) (now : ℕ) (a b : Text) → Succeeds (accept_body c now a b)
unfolding accept_body befriend
accept-Succeeds c now a b = >>=-Succeeds (settle_request now accepted a b) (befriend c a b) (λ rows.
    if-Succeeds (is_empty rows) (query-Succeeds (λ _. false))
      (answer-Succeeds (insert_friendship c a b) (λ _. true)))

-- The row of a new room is always returned.
create-Succeeds : (a name : Text) → Succeeds (create_body a name)
unfolding create_body insert_room add_owner
create-Succeeds a name = record {
  at = λ t ec e. elim (Bool-cases (has_user a t)) [
    | inr unknown ↦
        (let drawn : Tables = record t { room_seq = suc t.room_seq } in
          let made : insert_room name a t ≡ (none, drawn) = rw unknown refl in
          let ends =
            ap (λ (r : Option (Expected ℤ) × Tables). r.0)
              (>>=-none (insert_room name a) (add_owner a) t drawn made) in
          absurd (ground (arith, sym ends ∙ e)))
    | inl known ↦
        (let row : Room = record { id = pos t.room_seq; name = name; owner_user_id = a } in
          let added : Tables = record t {
            rooms = t.rooms ++ row ∷ [];
            room_seq = suc t.room_seq;
          } in
          let made : insert_room name a t ≡ (some (pos t.room_seq ∷ []), added) = rw known refl in
          let goes_on =
            ap (λ (r : Option (Expected ℤ) × Tables). r.0)
              (>>=-some (insert_room name a) (add_owner a) t added (pos t.room_seq ∷ []) made) in
          (answer-Succeeds (insert_member (pos t.room_seq) a owner) (λ _. pos t.room_seq)).at added
            ec (sym goes_on ∙ e))
  ];
}

invite-Succeeds :
    (server : Server) (a : Text) (id : ℤ) (b : Text) → Succeeds (invite_body server a id b)
unfolding invite_body
invite-Succeeds server a id b = >>=-Succeeds (query (has_member id a)) _ (λ is_in.
    if-Succeeds (not is_in) (query-Succeeds (λ _. room_not_found_or_no_permission)) (
      >>=-Succeeds (query (are_friends server.collation a b)) _ (λ friends.
        if-Succeeds (not friends) (query-Succeeds (λ _. not_friend)) (
          answer-Succeeds (insert_member id b member)
            (λ rows. if is_empty rows then already_member else invited)))))

leave-Succeeds : (a : Text) (id : ℤ) → Succeeds (leave_body a id)
unfolding leave_body leave_unless_owner
leave-Succeeds a id = >>=-Succeeds (query (select_owner id)) (leave_unless_owner a id) rest
  where
    rest : (owners : List Text) → Succeeds (leave_unless_owner a id owners)
    rest [] = query-Succeeds (λ _. not_member_or_room_not_found)
    rest (o ∷ os) = if-Succeeds (o == a) (query-Succeeds (λ _. owner_cannot_leave)) (
        answer-Succeeds (delete_member id a)
          (λ rows. if is_empty rows then not_member_or_room_not_found else left))

history-Succeeds : (server : Server) (a : Text) (id n : ℤ) → Succeeds (history_body server a id n)
unfolding history_body
history-Succeeds server a id n = >>=-Succeeds (query (has_member id a)) _ (λ is_in.
    if-Succeeds (not is_in) (query-Succeeds (λ _. none)) (
      answer-Succeeds (select_messages id n)
        (λ rows. some (map (message_info server.timestamp) rows))))

module _ (server : Server) where
  -- The result of a call: an answer, or an error after which every row is as it was, unless the
  -- call's own transaction was committed and the program heard an error in place of that.
  abbrev pub Settled : {A : Type 0} → Database → Expected A × Database → Type 0
  Settled db (ok a, db') = Unit
  Settled db (unexpected ec, db') =
      SameRows db.tables db'.tables ⊎ Unheard (server.outcome db.transactions) ec

  -- For every operation.
  pub record Atomic (service : DbService Database) : Type 0 where
    pub login : (id pw : Text) (db : Database) → Settled db (service.login id pw db)
    pub signup : (id pw : Text) (db : Database) → Settled db (service.signup id pw db)
    pub change_nickname :
        (id nick : Text) (db : Database) → Settled db (service.change_nickname id nick db)
    pub remove_friend : (a b : Text) (db : Database) → Settled db (service.remove_friend a b db)
    pub list_friends : (a : Text) (db : Database) → Settled db (service.list_friends a db)
    pub request_friend : (a b : Text) (db : Database) → Settled db (service.request_friend a b db)
    pub accept_friend_request :
        (a b : Text) (db : Database) → Settled db (service.accept_friend_request a b db)
    pub reject_friend_request :
        (a b : Text) (db : Database) → Settled db (service.reject_friend_request a b db)
    pub list_friend_requests :
        (a : Text) (db : Database) → Settled db (service.list_friend_requests a db)
    pub create_room : (a name : Text) (db : Database) → Settled db (service.create_room a name db)
    pub delete_room : (a : Text) (id : ℤ) (db : Database) → Settled db (service.delete_room a id db)
    pub invite_room :
        (a : Text) (id : ℤ) (b : Text) (db : Database) → Settled db (service.invite_room a id b db)
    pub create_room_message :
        (id : ℤ) (a text : Text) (db : Database)
        → Settled db (service.create_room_message id a text db)
    pub leave_room : (a : Text) (id : ℤ) (db : Database) → Settled db (service.leave_room a id db)
    pub list_rooms : (a : Text) (db : Database) → Settled db (service.list_rooms a db)
    pub list_room_messages :
        (a : Text) (id n : ℤ) (db : Database) → Settled db (service.list_room_messages a id n db)

  run-Settled :
      {A : Type 0} (body : Sql (Expected A)) (db : Database)
      → Succeeds body
      → Settled db (run server body db)
  run-Settled {A} body db h = go (run server body db) (run-unexpected server body db)
    where
      go :
          (r : Expected A × Database)
          → ((ec : ErrorCode)
              → r.0 ≡ unexpected ec
              → SameRows db.tables r.1.tables
                ⊎ ((body db.tables).0 ≡ some (unexpected ec))
                ⊎ Unheard (server.outcome db.transactions) ec)
          → Settled db r
      go (ok a, db') tells = tt
      go (unexpected ec, db') tells = elim (tells ec refl) [
        | inl same ↦ inl same
        | inr (inl own) ↦ absurd (h.at db.tables ec own)
        | inr (inr unknown) ↦ inr unknown
      ]

  any-Settled :
      {A : Type 0} (m : Sql (List A)) (db : Database) → Settled db (run server (m >>= any_row) db)
  any-Settled m db =
      run-Settled (m >>= any_row) db (answer-Succeeds m (λ rows. not (is_empty rows)))

  -- However its transaction ends, no operation of the service answers an error after it has changed
  -- a row: the rows are then as they were before the call, unless its one transaction was committed
  -- and the program heard the error of the connection in place of that.
  pub db_service-Atomic : Atomic (db_service server)
  unfolding login signup change_nickname remove_friend list_friends request_friend
      accept_friend_request reject_friend_request list_friend_requests create_room delete_room
      invite_room create_room_message leave_room list_rooms list_room_messages
  db_service-Atomic = record {
    login = λ id pw db. run-Settled _ db (query-Succeeds (λ t. front (select_nickname id pw t)));
    signup = λ id pw db. any-Settled (insert_user id pw (codes "guest")) db;
    change_nickname = λ id nick db. any-Settled (update_nickname id nick) db;
    remove_friend = λ a b db. any-Settled (delete_friendship server.collation a b) db;
    list_friends = λ a db. run-Settled _ db (query-Succeeds (select_friends server.collation a));
    request_friend =
        λ a b db. any-Settled (insert_request server.collation (server.now db.transactions) a b) db;
    accept_friend_request = λ a b db.
        run-Settled _ db (accept-Succeeds server.collation (server.now db.transactions) a b);
    reject_friend_request =
        λ a b db. any-Settled (settle_request (server.now db.transactions) rejected a b) db;
    list_friend_requests = λ a db. run-Settled _ db (query-Succeeds (select_requests a));
    create_room = λ a name db. run-Settled _ db (create-Succeeds a name);
    delete_room = λ a id db. any-Settled (delete_rooms a id) db;
    invite_room = λ a id b db. run-Settled _ db (invite-Succeeds server a id b);
    create_room_message = λ id a text db.
        run-Settled _ db
          (answer-Succeeds (insert_message (server.now db.transactions) id a text) front);
    leave_room = λ a id db. run-Settled _ db (leave-Succeeds a id);
    list_rooms = λ a db. run-Settled _ db (query-Succeeds (select_rooms a));
    list_room_messages = λ a id n db. run-Settled _ db (history-Succeeds server a id n);
  }
