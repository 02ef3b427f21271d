-- ===== src/Witnesses/Data.antt =====
-- Inputs that the tests share.
use socket_prac.Prelude.{pos, true, false, none, some, List, [], ◌∷◌, Text, codes}
use socket_prac.Core.ErrorCode.{ok, unexpected, from_errno, eio}
use socket_prac.Protocol.Codec.{cmd_say}
use socket_prac.Net.TlsSession.{TlsSession, done, failed, want_read_error}
use socket_prac.Net.Socket.{SocketInfo, new_socket}
use socket_prac.Reactor.Registry.State.{
  Registry, empty_registry, register_command, set_joined_rooms_command,
}
use socket_prac.Reactor.Registry.Handlers.{Kernel}
use socket_prac.Database.Service.{RoomInfo, DbService, invited, left}
use socket_prac.Database.Executor.{Task, Executor}
use socket_prac.Server.Connection.{Replies}
use socket_prac.Server.Execute.{Pools}

abbrev pub live_tls : TlsSession
live_tls = record {
  has_ssl = true;
  handshake_done = true;
  want_read = false;
  want_write = false;
  peer_closed = false;
}

abbrev pub member : SocketInfo
member = new_socket live_tls 1 (pos 5)

abbrev pub with_output : SocketInfo
with_output = record member { send = record { buf = codes "hello"; offset = 1 } }

abbrev pub calm_kernel : Kernel
calm_kernel = record {
  fcntl = λ n fd. none;
  getpeername = λ n fd. none;
  getnameinfo = λ n fd. none;
  epoll_ctl_add = λ n fd interest. none;
  epoll_ctl_mod = λ n fd interest. none;
  create_server = λ n fd. ok live_tls;
}

-- Two connections, of which the first has joined room 7.
abbrev pub asked_registry : Registry
asked_registry = record empty_registry {
  cmd_q =
      register_command (pos 5) 1
      ∷ register_command (pos 6) 1
      ∷ set_joined_rooms_command (pos 5) (pos 7 ∷ [])
      ∷ [];
}

abbrev pub room_seven : RoomInfo
room_seven = record {
  id = pos 7;
  name = codes "den";
  owner_user_id = codes "bob";
  member_count = pos 2;
}

-- A database with one user, whose state counts the messages.
abbrev pub small_db : DbService (List Text)
small_db = record {
  login = λ id pw s. (ok (some (codes "Ann")), s);
  signup = λ id pw s. (ok false, s);
  change_nickname = λ id nick s. (ok true, s);
  remove_friend = λ id other s. (ok false, s);
  list_friends = λ id s. (ok (codes "bob" ∷ []), s);
  request_friend = λ id other s. (ok true, s);
  accept_friend_request = λ other id s. (ok true, s);
  reject_friend_request = λ other id s. (ok false, s);
  list_friend_requests = λ id s. (ok [], s);
  create_room = λ id name s. (ok (pos 8), s);
  delete_room = λ id room_id s. (unexpected (from_errno eio), s);
  invite_room = λ id room_id other s. (ok invited, s);
  create_room_message = λ room_id id text s. (ok (some (pos 1)), text ∷ s);
  leave_room = λ id room_id s. (ok left, s);
  list_rooms = λ id s. (ok (room_seven ∷ []), s);
  list_room_messages = λ id room_id limit s. (ok none, s);
}

abbrev pub say_task : Task
say_task = record { cmd = cmd_say (codes "7") (codes "hi"); fd = pos 5; user_id = codes "ann" }

abbrev pub busy_executor : Executor
busy_executor = record { tasks = say_task ∷ record say_task { user_id = [] } ∷ []; run = false }

abbrev pub running_pools : Pools
running_pools = record {
  db_pool = record { tasks = say_task ∷ []; run = true };
  pool = record { tasks = []; run = true };
}

abbrev pub line_replies_env : Replies
line_replies_env = record {
  reason_text = λ reason. none;
  do_handshake = λ n. done tt;
  do_shutdown = λ n. done tt;
  epoll_ctl_mod = λ n. none;
  reads = done (codes "list_room") ∷ failed want_read_error ∷ [];
  writes = done 2 ∷ done 2 ∷ [];
}
