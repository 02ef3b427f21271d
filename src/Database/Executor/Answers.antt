-- ===== src/Database/Executor/Answers.antt =====
-- What the requests of a task may do, whatever the database answers.
use socket_prac.Prelude.{arith, ℤ, ◌≡◌, refl, Bool, true, false, [], ◌∷◌, Text, codes, text_eq}
use socket_prac.Protocol.Codec.{
  Command, cmd_say, cmd_nick, cmd_response, cmd_login, cmd_register, cmd_friend_request,
  cmd_friend_accept, cmd_friend_reject, cmd_friend_remove, cmd_list_friend, cmd_list_friend_request,
  cmd_create_room, cmd_delete_room, cmd_invite_room, cmd_leave_room, cmd_list_room, cmd_history,
}
use socket_prac.Database.Service.{DbService}
use socket_prac.Database.Reply.{reply, logged_in}
use socket_prac.Database.Account.{execute_nick}
use socket_prac.Database.Friends.{
  execute_friend_request, execute_friend_accept, execute_friend_reject, execute_friend_remove,
  execute_list_friend, execute_list_friend_request,
}
use socket_prac.Database.Rooms.{
  execute_say, execute_create_room, execute_delete_room, execute_invite_room, execute_leave_room,
  execute_list_room, execute_history,
}
use socket_prac.Database.Executor.{Task, execute}

-- The commands that only a logged-in user may give.
abbrev pub needs_login : Command → Bool
needs_login (cmd_login id pw) = false
needs_login (cmd_register id pw) = false
needs_login (cmd_response text) = false
needs_login cmd = true

module _ {S : Type 0} (db : DbService S) where
  -- A task of a connection without a user, whose command is not login, register or a response, gets
  -- the single reply "login first", and the database is left as it is.
  pub execute_anonymous :
      (t : Task) (s : S)
      → needs_login t.cmd ≡ true
      → t.user_id ≡ []
      → execute db t s ≡ (reply t.fd (codes "login first") ∷ [], s)
  unfolding execute execute_nick execute_friend_request execute_friend_accept execute_friend_reject
      execute_friend_remove execute_list_friend execute_list_friend_request execute_say
      execute_create_room execute_delete_room execute_invite_room execute_leave_room
      execute_list_room execute_history logged_in
  execute_anonymous t s needs anonymous = go t.cmd t.fd t.user_id needs anonymous
    where
      go :
          (cmd : Command) (fd : ℤ) (user_id : Text)
          → needs_login cmd ≡ true
          → user_id ≡ []
          → execute db (record { cmd = cmd; fd = fd; user_id = user_id }) s
            ≡ (reply fd (codes "login first") ∷ [], s)
      go (cmd_say room_id text) fd user_id n e = rw e refl
      go (cmd_nick nick) fd user_id n e = rw e refl
      go (cmd_response text) fd user_id n e = absurd (ground arith)
      go (cmd_login id pw) fd user_id n e = absurd (ground arith)
      go (cmd_register id pw) fd user_id n e = absurd (ground arith)
      go (cmd_friend_request to_user_id) fd user_id n e = rw e refl
      go (cmd_friend_accept from_user_id) fd user_id n e = rw e refl
      go (cmd_friend_reject from_user_id) fd user_id n e = rw e refl
      go (cmd_friend_remove friend_user_id) fd user_id n e = rw e refl
      go cmd_list_friend fd user_id n e = rw e refl
      go cmd_list_friend_request fd user_id n e = rw e refl
      go (cmd_create_room room_name) fd user_id n e = rw e refl
      go (cmd_delete_room room_id) fd user_id n e = rw e refl
      go (cmd_invite_room room_id friend_user_id) fd user_id n e = rw e refl
      go (cmd_leave_room room_id) fd user_id n e = rw e refl
      go cmd_list_room fd user_id n e = rw e refl
      go (cmd_history room_id limit) fd user_id n e = rw e refl
