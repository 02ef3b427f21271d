-- ===== src/Database/Executor.antt =====
-- The queue and the dispatch of src/database/db_executor.cpp. A worker takes one task at a time; its
-- waiting and joining are left out.
pub mod Answers
pub mod Authority
pub mod Queue
pub mod Login
pub mod Keeps
pub mod KeptHandlers
pub mod Kept
pub mod Heard
use socket_prac.Prelude.{ℤ, Bool, true, false, not, List, [], ◌∷◌, ◌++◌, Text, if◌then◌else◌}
use socket_prac.Protocol.Codec.{
  Command, cmd_say, cmd_nick, cmd_response, cmd_login, cmd_register, cmd_friend_request,
  cmd_friend_accept, cmd_friend_reject, cmd_friend_remove, cmd_list_friend, cmd_list_friend_request,
  cmd_create_room, cmd_delete_room, cmd_invite_room, cmd_leave_room, cmd_list_room, cmd_history,
}
use socket_prac.Net.Socket.{SocketInfo}
use socket_prac.Reactor.Registry.State.{Registry, request_all}
use socket_prac.Database.Service.{DbService}
use socket_prac.Database.Reply.{Acts}
use socket_prac.Database.Account.{execute_login, execute_register, execute_nick}
use socket_prac.Database.Friends.{
  execute_friend_request, execute_friend_accept, execute_friend_reject, execute_friend_remove,
  execute_list_friend, execute_list_friend_request,
}
use socket_prac.Database.Rooms.{
  execute_say, execute_create_room, execute_delete_room, execute_invite_room, execute_leave_room,
  execute_list_room, execute_history,
}

-- The registry of a task is the one of the server.
pub record Task : Type 0 where
  pub cmd : Command
  pub fd : ℤ
  pub user_id : Text

pub record Executor : Type 0 where
  pub tasks : List Task
  pub run : Bool

unfoldable pub is_db_command : Command → Bool
is_db_command (cmd_response text) = false
is_db_command cmd = true

unfoldable pub push_task : Task → Executor → Bool × Executor
unfolding is_db_command
push_task t ex =
    if not (is_db_command t.cmd)
    then (false, ex)
    else if not ex.run
    then (false, ex)
    else (true, record ex { tasks = ex.tasks ++ t ∷ [] })

-- The overload without a connection, which has no user.
unfoldable pub enqueue_fd : Command → ℤ → Executor → Bool × Executor
unfolding push_task
enqueue_fd cmd fd ex = push_task (record { cmd = cmd; fd = fd; user_id = [] }) ex

-- The user is the one that the connection has when the command is put on the queue.
unfoldable pub enqueue : Command → SocketInfo → Executor → Bool × Executor
unfolding push_task
enqueue cmd si ex = push_task (record { cmd = cmd; fd = si.ufd; user_id = si.user_id }) ex

-- `stop`: the tasks that are queued are still executed.
unfoldable pub stop : Executor → Executor
stop ex = record ex { run = false }

module _ {S : Type 0} (db : DbService S) where
  unfoldable pub execute : Task → S → Acts S
  unfolding execute_login execute_register execute_nick execute_friend_request execute_friend_accept
      execute_friend_reject execute_friend_remove execute_list_friend execute_list_friend_request
      execute_say execute_create_room execute_delete_room execute_invite_room execute_leave_room
      execute_list_room execute_history
  execute t s = elim t.cmd [
    | cmd_login id pw ↦ execute_login db t.fd id pw s
    | cmd_register id pw ↦ execute_register db t.fd id pw s
    | cmd_response text ↦ ([], s)
    | cmd_say room_id text ↦ execute_say db t.fd room_id text t.user_id s
    | cmd_nick nick ↦ execute_nick db t.fd nick t.user_id s
    | cmd_friend_request to_user_id ↦ execute_friend_request db t.fd to_user_id t.user_id s
    | cmd_friend_accept from_user_id ↦ execute_friend_accept db t.fd from_user_id t.user_id s
    | cmd_friend_reject from_user_id ↦ execute_friend_reject db t.fd from_user_id t.user_id s
    | cmd_friend_remove friend_user_id ↦ execute_friend_remove db t.fd friend_user_id t.user_id s
    | cmd_list_friend ↦ execute_list_friend db t.fd t.user_id s
    | cmd_list_friend_request ↦ execute_list_friend_request db t.fd t.user_id s
    | cmd_create_room room_name ↦ execute_create_room db t.fd room_name t.user_id s
    | cmd_delete_room room_id ↦ execute_delete_room db t.fd room_id t.user_id s
    | cmd_invite_room room_id friend_user_id ↦
        execute_invite_room db t.fd room_id friend_user_id t.user_id s
    | cmd_leave_room room_id ↦ execute_leave_room db t.fd room_id t.user_id s
    | cmd_list_room ↦ execute_list_room db t.fd t.user_id s
    | cmd_history room_id limit ↦ execute_history db t.fd room_id limit t.user_id s
  ]

  -- One turn of `worker_loop` with a task on the queue: the oldest is taken and executed, and its
  -- requests go to the queue of the registry.
  unfoldable pub worker_step : Executor → Registry → S → Executor × Registry × S
  unfolding execute request_all
  worker_step ex reg s = elim ex.tasks [
    | [] ↦ (ex, reg, s)
    | t ∷ ts ↦
        let (requests, s') = execute t s in (record ex { tasks = ts }, request_all requests reg, s')
  ]
