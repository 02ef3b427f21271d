-- ===== src/Storage/Service.antt =====
-- `db_service` of src/database/db_service.cpp over the tables, as the executor uses it.
pub mod Valid
pub mod Invariants
pub mod Friendship
pub mod Membership
pub mod Authority
pub mod Login
pub mod Page
pub mod History
pub mod Atomic
use socket_prac.Database.Service.{DbService}
use socket_prac.Storage.Transaction.{Server, Database}
use socket_prac.Storage.Users.{login, signup, change_nickname}
use socket_prac.Storage.Friends.{
  remove_friend, list_friends, request_friend, accept_friend_request, reject_friend_request,
  list_friend_requests,
}
use socket_prac.Storage.Rooms.{
  create_room, delete_room, invite_room, create_room_message, leave_room, list_rooms,
  list_room_messages,
}

abbrev pub db_service : Server → DbService Database
db_service server = record {
  login = login server;
  signup = signup server;
  change_nickname = change_nickname server;
  remove_friend = remove_friend server;
  list_friends = list_friends server;
  request_friend = request_friend server;
  accept_friend_request = accept_friend_request server;
  reject_friend_request = reject_friend_request server;
  list_friend_requests = list_friend_requests server;
  create_room = create_room server;
  delete_room = delete_room server;
  invite_room = invite_room server;
  create_room_message = create_room_message server;
  leave_room = leave_room server;
  list_rooms = list_rooms server;
  list_room_messages = list_room_messages server;
}
