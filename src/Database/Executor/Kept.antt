-- ===== src/Database/Executor/Kept.antt =====
-- What the operations of the database keep, the handlers of the executor keep.
use socket_prac.Prelude.{List, [], ◌∷◌, text_eq}
use socket_prac.Protocol.Codec.{
  Command, cmd_say, cmd_nick, cmd_response, cmd_login, cmd_register, cmd_friend_request,
  cmd_friend_accept, cmd_friend_reject, cmd_friend_remove, cmd_list_friend, cmd_list_friend_request,
  cmd_create_room, cmd_delete_room, cmd_invite_room, cmd_leave_room, cmd_list_room, cmd_history,
}
use socket_prac.Database.Service.{DbService}
use socket_prac.Database.Account.{execute_login}
use socket_prac.Database.Executor.{Task, execute}
use socket_prac.Database.Executor.Queue.{execute_in_order}
use socket_prac.Database.Executor.Keeps.{Keeps}
use socket_prac.Database.Executor.KeptHandlers.{
  login_answer-kept, say-kept, register-kept, nick-kept, friend_request-kept, friend_accept-kept,
  friend_reject-kept, friend_remove-kept, list_friend-kept, list_friend_request-kept,
  create_room-kept, delete_room-kept, invite_room-kept, leave_room-kept, list_room-kept,
  history-kept,
}

module _ {S : Type 0} (I : S → Type 0) (db : DbService S) (keeps : Keeps I db) where
  -- What every operation of the database keeps, every task keeps.
  pub execute-kept : (t : Task) (s : S) → I s → I (execute db t s).1
  unfolding execute execute_login
  execute-kept t s h = go t.cmd
    where
      go : (cmd : Command) → I (execute db (record t { cmd = cmd }) s).1
      go (cmd_say room_id text) = say-kept I db t.fd keeps room_id text t.user_id s h
      go (cmd_nick nick) = nick-kept I db t.fd keeps nick t.user_id s h
      go (cmd_response text) = h
      go (cmd_login id pw) =
          login_answer-kept I db t.fd keeps id (db.login id pw s).0 (db.login id pw s).1
            (keeps.login id pw s h)
      go (cmd_register id pw) = register-kept I db t.fd keeps id pw s h
      go (cmd_friend_request user_id) = friend_request-kept I db t.fd keeps user_id t.user_id s h
      go (cmd_friend_accept user_id) = friend_accept-kept I db t.fd keeps user_id t.user_id s h
      go (cmd_friend_reject user_id) = friend_reject-kept I db t.fd keeps user_id t.user_id s h
      go (cmd_friend_remove user_id) = friend_remove-kept I db t.fd keeps user_id t.user_id s h
      go cmd_list_friend = list_friend-kept I db t.fd keeps t.user_id s h
      go cmd_list_friend_request = list_friend_request-kept I db t.fd keeps t.user_id s h
      go (cmd_create_room room_name) = create_room-kept I db t.fd keeps room_name t.user_id s h
      go (cmd_delete_room room_id) = delete_room-kept I db t.fd keeps room_id t.user_id s h
      go (cmd_invite_room room_id user_id) =
          invite_room-kept I db t.fd keeps room_id user_id t.user_id s h
      go (cmd_leave_room room_id) = leave_room-kept I db t.fd keeps room_id t.user_id s h
      go cmd_list_room = list_room-kept I db t.fd keeps t.user_id s h
      go (cmd_history room_id limit) = history-kept I db t.fd keeps room_id limit t.user_id s h

  -- So do all tasks of a queue.
  pub execute_in_order-kept : (ts : List Task) (s : S) → I s → I (execute_in_order db ts s).1
  execute_in_order-kept [] s h = h
  execute_in_order-kept (t ∷ ts) s h = execute_in_order-kept ts _ (execute-kept t s h)
