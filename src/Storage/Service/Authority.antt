-- ===== src/Storage/Service/Authority.antt =====
-- What the requests of a task may ask of the registry, in terms of the rows of the database.
use socket_prac.Prelude.{
  ◌≡◌, ◌⊎◌, inl, inr, ℤ, true, some, ◌&&◌, [], Text, ◌==◌, text_eq, Each, arith,
}
use socket_prac.Core.Number.{parse_room_id}
use socket_prac.Protocol.Codec.{cmd_login, cmd_invite_room}
use socket_prac.Reactor.Registry.State.{
  Request, register_command, unregister_command, send_one_command, broadcast_command,
  change_nickname_command, set_user_id_command, set_joined_rooms_command,
  set_joined_rooms_for_user_command, send_friend_list_command, room_broadcast_command,
}
use socket_prac.Storage.Select.{exists, exists-imp, Each-imp}
use socket_prac.Storage.Tables.{User, has_member}
use socket_prac.Storage.Transaction.{Server, Database}
use socket_prac.Storage.Friends.{are_friends}
use socket_prac.Storage.Service.{db_service}
use socket_prac.Storage.Service.Membership.{
  create_room_message-member, invite_room-member, login-password,
}
use socket_prac.Database.Executor.{Task, execute}
use socket_prac.Database.Executor.Authority.{Justified}
use socket_prac.Database.Executor.Authority.Rooms.{execute-Justified}

module _ (server : Server) (t : Task) (db : Database) where
  abbrev pub Authorised : Request → Type 0
  Authorised (send_one_command fd cmd) = fd ≡ t.fd
  Authorised (change_nickname_command fd nick) = fd ≡ t.fd
  Authorised (set_user_id_command fd user_id) =
      (fd ≡ t.fd)
      × ((user_id ≡ [])
          ⊎ ((pw : Text) × (t.cmd ≡ cmd_login user_id pw)
              × (exists (λ (u : User). u.id == user_id && u.pw == pw) db.tables.users ≡ true)))
  Authorised (set_joined_rooms_command fd room_ids) = fd ≡ t.fd
  Authorised (set_joined_rooms_for_user_command user_id room_ids) =
      (user_id ≡ t.user_id)
      ⊎ ((text : Text) × (id : ℤ) × (t.cmd ≡ cmd_invite_room text user_id)
          × (parse_room_id text ≡ some id)
          × (has_member id t.user_id db.tables ≡ true)
          × (are_friends server.collation t.user_id user_id db.tables ≡ true))
  Authorised (send_friend_list_command fd friend_ids) = fd ≡ t.fd
  Authorised (room_broadcast_command sender_fd room_id cmd) =
      (sender_fd ≡ t.fd) × (has_member room_id t.user_id db.tables ≡ true)
  Authorised (register_command fd interest) = ⊥
  Authorised (unregister_command fd) = ⊥
  Authorised (broadcast_command fd cmd) = ⊥

  authorised : (r : Request) → Justified (db_service server) t db r → Authorised r
  authorised (send_one_command fd cmd) j = j
  authorised (change_nickname_command fd nick) j = j
  authorised (set_user_id_command fd user_id) (own, inl nobody) = (own, inl nobody)
  authorised (set_user_id_command fd user_id) (own, inr (pw, nick, cmd, accepts)) = (
    own,
    inr (
      pw,
      cmd,
      exists-imp (λ (u : User). u.id == user_id && u.pw == pw && u.nickname == nick)
          (λ (u : User). u.id == user_id && u.pw == pw) db.tables.users (λ u e. ground arith)
          (login-password server user_id pw db nick accepts),
    ),
  )
  authorised (set_joined_rooms_command fd room_ids) j = j
  authorised (set_joined_rooms_for_user_command user_id room_ids) (named, inl own) = inl own
  authorised (set_joined_rooms_for_user_command user_id room_ids)
        (named, inr (text, id, cmd, read, accepts)) =
      (let (in_room, friends) = invite_room-member server t.user_id id user_id db accepts in
        inr (text, id, cmd, read, in_room, friends))
  authorised (send_friend_list_command fd friend_ids) j = j.0
  authorised (room_broadcast_command sender_fd room_id cmd)
        (own, named, (text, body, id, said, sends, read, stores)) =
      (own, create_room_message-member server room_id t.user_id body db id stores)
  authorised (register_command fd interest) j = j
  authorised (unregister_command fd) j = j
  authorised (broadcast_command fd cmd) j = j

  -- Each request that a task puts on the registry's queue is covered by the rows that the database
  -- holds when the task starts: it is for the task's own connection; or it gives that connection no
  -- user, or the user of the task's login, who has a row with that password; or it refreshes the
  -- rooms of the task's own user, or of a friend of theirs whom the task invites to a room that they
  -- are a member of; or it sends a message to a room that the task's user is a member of. No task asks to register or
  -- unregister a connection or to broadcast to all.
  pub execute-Authorised : Each Authorised (execute (db_service server) t db).0
  execute-Authorised =
      Each-imp _ Authorised (execute (db_service server) t db).0 authorised
        (execute-Justified (db_service server) t db)
