-- ===== src/Storage/Service/Invariants.antt =====
-- The executor over db_service keeps the invariants of the tables.
use socket_prac.Prelude.{List, codes, text_eq}
use socket_prac.Core.ErrorCode.{ok}
use socket_prac.Storage.Tables.{rejected}
use socket_prac.Storage.Transaction.{Server, Database}
use socket_prac.Storage.Transaction.Kept.{query-Maintains}
use socket_prac.Storage.Transaction.Apart.{
  insert_user-SameRooms, update_nickname-SameRooms, delete_friendship-SameRooms,
  insert_request-SameRooms, settle_request-SameRooms, insert_user-SameFriends,
  update_nickname-SameFriends, delete_rooms-SameFriends, insert_message-SameFriends,
}
use socket_prac.Storage.Users.{
  insert_user, update_nickname, select_nickname, front, login, signup, change_nickname,
}
use socket_prac.Storage.Friends.{
  delete_friendship, insert_request, settle_request, select_friends, select_requests, remove_friend,
  list_friends, request_friend, accept_friend_request, reject_friend_request, list_friend_requests,
}
use socket_prac.Storage.Friends.Requests.{
  settle_request-Maintains, insert_request-Maintains, delete_friendship-Maintains,
}
use socket_prac.Storage.Rooms.{
  delete_rooms, insert_message, select_rooms, create_room, delete_room, invite_room,
  create_room_message, leave_room, list_rooms, list_room_messages,
}
use socket_prac.Storage.Rooms.Sound.Members.{insert_message-Maintains}
use socket_prac.Storage.Rooms.Sound.Cascade.{delete_rooms-Maintains}
use socket_prac.Storage.Keys.Statements.{
  insert_user-IsKeyed, update_nickname-IsKeyed, delete_friendship-IsKeyed, insert_request-IsKeyed,
  settle_request-IsKeyed, delete_rooms-IsKeyed, insert_message-IsKeyed,
}
use socket_prac.Storage.Service.{db_service}
use socket_prac.Database.Executor.{Task}
use socket_prac.Database.Executor.Keeps.{Keeps}
use socket_prac.Database.Executor.Kept.{execute_in_order-kept}
use socket_prac.Database.Executor.Queue.{execute_in_order}
use socket_prac.Storage.Service.Valid.{
  IsValid, IsSound-of_same, consent_of_same, together, answered, accept-valid, create-valid,
  leave-valid, run_valid, invite-valid, history-valid, any-valid,
}

module _ (server : Server) where
  pub Keeps-IsValid :
      Keeps (λ (db : Database). IsValid server.collation db.tables) (db_service server)
  unfolding login signup change_nickname remove_friend list_friends request_friend
      accept_friend_request reject_friend_request list_friend_requests create_room delete_room
      invite_room create_room_message leave_room list_rooms list_room_messages
  Keeps-IsValid = record {
    login = λ id pw db h.
        run_valid server _ db (query-Maintains (λ t. ok (front (select_nickname id pw t)))) h;
    signup = λ id pw db h.
        run_valid server _ db
          (any-valid server (insert_user id pw (codes "guest")) (
            together server.collation
              (IsSound-of_same (insert_user id pw (codes "guest"))
                (insert_user-SameRooms id pw (codes "guest")))
              (consent_of_same server.collation (insert_user id pw (codes "guest"))
                (insert_user-SameFriends id pw (codes "guest")))
              (insert_user-IsKeyed id pw (codes "guest"))))
          h;
    change_nickname = λ id nick db h.
        run_valid server _ db
          (any-valid server (update_nickname id nick) (
            together server.collation
              (IsSound-of_same (update_nickname id nick) (update_nickname-SameRooms id nick))
              (consent_of_same server.collation (update_nickname id nick)
                (update_nickname-SameFriends id nick))
              (update_nickname-IsKeyed id nick)))
          h;
    remove_friend = λ a b db h.
        run_valid server _ db
          (any-valid server (delete_friendship server.collation a b) (
            together server.collation
              (IsSound-of_same (delete_friendship server.collation a b)
                (delete_friendship-SameRooms server.collation a b))
              (delete_friendship-Maintains server.collation a b)
              (delete_friendship-IsKeyed server.collation a b)))
          h;
    list_friends = λ a db h.
        run_valid server _ db (query-Maintains (λ t. ok (select_friends server.collation a t))) h;
    request_friend = λ a b db h.
        let now = server.now db.transactions in
        run_valid server _ db
          (any-valid server (insert_request server.collation now a b) (
            together server.collation
              (IsSound-of_same (insert_request server.collation now a b)
                (insert_request-SameRooms server.collation now a b))
              (insert_request-Maintains server.collation now a b)
              (insert_request-IsKeyed server.collation now a b)))
          h;
    accept_friend_request = λ a b db h.
        run_valid server _ db (accept-valid server.collation (server.now db.transactions) a b) h;
    reject_friend_request = λ a b db h.
        let now = server.now db.transactions in
        run_valid server _ db
          (any-valid server (settle_request now rejected a b) (
            together server.collation
              (IsSound-of_same (settle_request now rejected a b)
                (settle_request-SameRooms now rejected a b))
              (settle_request-Maintains server.collation now rejected a b)
              (settle_request-IsKeyed now rejected a b)))
          h;
    list_friend_requests =
        λ a db h. run_valid server _ db (query-Maintains (λ t. ok (select_requests a t))) h;
    create_room = λ a name db h. run_valid server _ db (create-valid server.collation a name) h;
    delete_room = λ a id db h.
        run_valid server _ db
          (any-valid server (delete_rooms a id) (
            together server.collation (delete_rooms-Maintains a id)
              (consent_of_same server.collation (delete_rooms a id) (delete_rooms-SameFriends a id))
              (delete_rooms-IsKeyed a id)))
          h;
    invite_room = λ a id b db h. run_valid server _ db (invite-valid server a id b) h;
    create_room_message = λ id a text db h.
        let now = server.now db.transactions in
        run_valid server _ db
          (answered server.collation (insert_message now id a text) (λ rows. ok (front rows))
            (together server.collation (insert_message-Maintains now id a text)
              (consent_of_same server.collation (insert_message now id a text)
                (insert_message-SameFriends now id a text))
              (insert_message-IsKeyed now id a text)))
          h;
    leave_room = λ a id db h. run_valid server _ db (leave-valid server.collation a id) h;
    list_rooms = λ a db h. run_valid server _ db (query-Maintains (λ t. ok (select_rooms a t))) h;
    list_room_messages = λ a id n db h. run_valid server _ db (history-valid server a id n) h;
  }

  -- However the transactions end, tasks that are executed one after the other over valid tables
  -- leave valid ones. The ids of users, rooms and messages, the two users of a friendship or of a
  -- request in its direction, and the room and user of a membership are those of one row each. Every
  -- column for a user, or for the room of a member or a message, has the id of one in its table. The
  -- owner of each room is one of its members, the ids of rooms and messages are below the numbers
  -- that the sequences give next, any two friends have an accepted request between them, and a
  -- friendship is stored in the order of its users.
  pub execute_in_order-IsValid :
      (ts : List Task) (db : Database)
      → IsValid server.collation db.tables
      → IsValid server.collation (execute_in_order (db_service server) ts db).1.tables
  execute_in_order-IsValid ts db h =
      execute_in_order-kept (λ (db : Database). IsValid server.collation db.tables)
        (db_service server) Keeps-IsValid ts db h
