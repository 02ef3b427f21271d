-- ===== src/Database/Executor/Authority/Rooms.antt =====
-- The requests of the room commands, and those of every task.
use socket_prac.Prelude.{
  ℤ, ◌≡◌, refl, ap, ◌∙◌, inl, inr, false, some, Text, is_empty, ◌==◌, text_eq, Each, Each-append,
  Each-map,
}
use socket_prac.Core.ErrorCode.{ok}
use socket_prac.Core.Number.{parse_room_id, parse_limit}
use socket_prac.Protocol.Codec.{
  Command, cmd_say, cmd_nick, cmd_response, cmd_login, cmd_register, cmd_friend_request,
  cmd_friend_accept, cmd_friend_reject, cmd_friend_remove, cmd_list_friend, cmd_list_friend_request,
  cmd_create_room, cmd_delete_room, cmd_invite_room, cmd_leave_room, cmd_list_room, cmd_history,
}
use socket_prac.Reactor.Registry.State.{
  Request, set_joined_rooms_command, set_joined_rooms_for_user_command,
}
use socket_prac.Database.Service.{
  DbService, InviteRoomResult, invited, already_member, not_friend, room_not_found_or_no_permission,
  LeaveRoomResult, left, not_member_or_room_not_found, owner_cannot_leave,
}
use socket_prac.Database.Reply.{Acts, replies, load_joined_room_ids}
use socket_prac.Database.Reply.Cases.{
  logged_in-cases, test-cases, checked-cases, accepted-cases, found-cases, with_room_id-cases,
}
use socket_prac.Database.Account.{execute_login}
use socket_prac.Database.Rooms.{
  execute_say, execute_create_room, execute_delete_room, invite_answer, execute_invite_room,
  leave_answer, execute_leave_room, execute_list_room, execute_history,
}
use socket_prac.Database.Executor.{Task, execute}
use socket_prac.Database.Executor.Authority.{
  Justified, JustifiedActs, replied, refresh-Justified, login_answer-Justified, register-Justified,
  nick-Justified, friend_request-Justified, friend_accept-Justified, friend_reject-Justified,
  friend_remove-Justified, list_friend-Justified, list_friend_request-Justified,
}

module _ {S : Type 0} (db : DbService S) (t : Task) (s : S) where
  abbrev J : Request → Type 0
  J = Justified db t s

  abbrev Q : Acts S → Type 0
  Q = JustifiedActs db t s

  at_reply : (text : Text) (s' : S) → Q (replies t.fd text s')
  at_reply = replied db t s

  say-Justified :
      (text body : Text) → t.cmd ≡ cmd_say text body → Q (execute_say db t.fd text body t.user_id s)
  unfolding execute_say
  say-Justified text body own = logged_in-cases t.fd Q at_reply t.user_id s _ (λ user.
      with_room_id-cases t.fd Q at_reply text s _ (λ id parsed.
        checked-cases t.fd Q at_reply _ (db.create_room_message id t.user_id body s) _
          (λ msg s' made. found-cases t.fd Q at_reply _ msg s' _ (λ row there. (
            (refl, user, (text, body, row, own, refl, parsed, ap (λ r. r.0) made ∙ ap ok there)),
            tt,
          )))))

  create_room-Justified : (room_name : Text) → Q (execute_create_room db t.fd room_name t.user_id s)
  unfolding execute_create_room
  create_room-Justified room_name = logged_in-cases t.fd Q at_reply t.user_id s _ (λ _.
      test-cases t.fd Q at_reply (is_empty room_name) _ s _ (λ _.
        checked-cases t.fd Q at_reply _ (db.create_room t.user_id room_name s) _ (λ id s' _. (
          refl,
          refresh-Justified db t s (set_joined_rooms_command t.fd)
              (load_joined_room_ids db t.user_id s').0 (λ _. refl),
        ))))

  delete_room-Justified : (text : Text) → Q (execute_delete_room db t.fd text t.user_id s)
  unfolding execute_delete_room
  delete_room-Justified text = logged_in-cases t.fd Q at_reply t.user_id s _ (λ _.
      with_room_id-cases t.fd Q at_reply text s _ (λ id _.
        checked-cases t.fd Q at_reply _ (db.delete_room t.user_id id s) _ (λ done s' _.
          accepted-cases t.fd Q at_reply _ done s' _ (λ _.
            Each-append J _ _
              (refresh-Justified db t s (set_joined_rooms_command t.fd)
                (load_joined_room_ids db t.user_id s').0 (λ _. refl))
              (refl, tt)))))

  invite_answer-Justified :
      (text friend_user_id : Text) (id : ℤ) (r : InviteRoomResult) (s' : S)
      → t.cmd ≡ cmd_invite_room text friend_user_id
      → is_empty t.user_id ≡ false
      → parse_room_id text ≡ some id
      → (db.invite_room t.user_id id friend_user_id s).0 ≡ ok r
      → Q (invite_answer db t.fd id friend_user_id t.user_id r s')
  unfolding invite_answer
  invite_answer-Justified text friend_user_id id invited s' own user parsed done =
      let s1 = (load_joined_room_ids db t.user_id s').1 in
      Each-append J _ _
        (refresh-Justified db t s (set_joined_rooms_for_user_command t.user_id)
          (load_joined_room_ids db t.user_id s').0 (λ _. (user, inl refl)))
        (Each-append J _ _
          (refresh-Justified db t s (set_joined_rooms_for_user_command friend_user_id)
            (load_joined_room_ids db friend_user_id s1).0
            (λ _. (user, inr (text, id, own, parsed, done))))
          (refl, tt))
  invite_answer-Justified text friend_user_id id already_member s' own user parsed done = (refl, tt)
  invite_answer-Justified text friend_user_id id not_friend s' own user parsed done = (refl, tt)
  invite_answer-Justified text friend_user_id id room_not_found_or_no_permission s' own user parsed
        done =
      (refl, tt)

  invite_room-Justified :
      (text friend_user_id : Text)
      → t.cmd ≡ cmd_invite_room text friend_user_id
      → Q (execute_invite_room db t.fd text friend_user_id t.user_id s)
  unfolding execute_invite_room
  invite_room-Justified text friend_user_id own =
      logged_in-cases t.fd Q at_reply t.user_id s _ (λ user.
        test-cases t.fd Q at_reply (t.user_id == friend_user_id) _ s _ (λ _.
          with_room_id-cases t.fd Q at_reply text s _ (λ id parsed.
            checked-cases t.fd Q at_reply _ (db.invite_room t.user_id id friend_user_id s) _
              (λ r s' done.
                invite_answer-Justified text friend_user_id id r s' own user parsed
                  (ap (λ r. r.0) done)))))

  leave_answer-Justified :
      (id : ℤ) (r : LeaveRoomResult) (s' : S)
      → is_empty t.user_id ≡ false
      → Q (leave_answer db t.fd id t.user_id r s')
  unfolding leave_answer
  leave_answer-Justified id left s' user =
      Each-append J _ _
        (refresh-Justified db t s (set_joined_rooms_for_user_command t.user_id)
          (load_joined_room_ids db t.user_id s').0 (λ _. (user, inl refl)))
        (refl, tt)
  leave_answer-Justified id not_member_or_room_not_found s' user = (refl, tt)
  leave_answer-Justified id owner_cannot_leave s' user = (refl, tt)

  leave_room-Justified : (text : Text) → Q (execute_leave_room db t.fd text t.user_id s)
  unfolding execute_leave_room
  leave_room-Justified text = logged_in-cases t.fd Q at_reply t.user_id s _ (λ user.
      with_room_id-cases t.fd Q at_reply text s _ (λ id _.
        checked-cases t.fd Q at_reply _ (db.leave_room t.user_id id s) _
          (λ r s' _. leave_answer-Justified id r s' user)))

  list_room-Justified : Q (execute_list_room db t.fd t.user_id s)
  unfolding execute_list_room
  list_room-Justified = logged_in-cases t.fd Q at_reply t.user_id s _ (λ _.
      checked-cases t.fd Q at_reply _ (db.list_rooms t.user_id s) _ (λ rooms s' _.
        test-cases t.fd Q at_reply (is_empty rooms) _ s' _
          (λ _. (refl, Each-map J _ rooms (λ _. refl)))))

  history-Justified : (text limit : Text) → Q (execute_history db t.fd text limit t.user_id s)
  unfolding execute_history
  history-Justified text limit = logged_in-cases t.fd Q at_reply t.user_id s _ (λ _.
      with_room_id-cases t.fd Q at_reply text s _ (λ id _.
        found-cases t.fd Q at_reply _ (parse_limit limit) s _ (λ n _.
          checked-cases t.fd Q at_reply _ (db.list_room_messages t.user_id id n s) _
            (λ history_opt s' _.
              found-cases t.fd Q at_reply _ history_opt s' _
                (λ history _. (refl, Each-map J _ history (λ _. refl)))))))

  -- Whatever the database answers, each request that a task puts on the registry's queue is of one
  -- of these kinds. A reply, a nickname or rooms for the task's own connection. The user of that
  -- connection, which is none, or the one of the task's login if the database accepts its password.
  -- Rooms of the task's user, or of one whom the database lets it invite. The friend list of a
  -- task that has a user. A message to the room that `say` names, from a task with a user, with the
  -- text of the command, once the database has stored it. No task asks to register or unregister a
  -- connection or to broadcast to all.
  pub execute-Justified : Each (Justified db t s) (execute db t s).0
  unfolding execute execute_login
  execute-Justified = go t.cmd refl
    where
      go : (cmd : Command) → t.cmd ≡ cmd → Each J (execute db (record t { cmd = cmd }) s).0
      go (cmd_say text body) own = say-Justified text body own
      go (cmd_nick nick) own = nick-Justified db t s nick
      go (cmd_response text) own = tt
      go (cmd_login id pw) own =
          login_answer-Justified db t s id pw own (db.login id pw s).0 (db.login id pw s).1 refl
      go (cmd_register id pw) own = register-Justified db t s id pw
      go (cmd_friend_request to_user_id) own = friend_request-Justified db t s to_user_id
      go (cmd_friend_accept from_user_id) own = friend_accept-Justified db t s from_user_id
      go (cmd_friend_reject from_user_id) own = friend_reject-Justified db t s from_user_id
      go (cmd_friend_remove friend_user_id) own = friend_remove-Justified db t s friend_user_id
      go cmd_list_friend own = list_friend-Justified db t s
      go cmd_list_friend_request own = list_friend_request-Justified db t s
      go (cmd_create_room room_name) own = create_room-Justified room_name
      go (cmd_delete_room text) own = delete_room-Justified text
      go (cmd_invite_room text friend_user_id) own = invite_room-Justified text friend_user_id own
      go (cmd_leave_room text) own = leave_room-Justified text
      go cmd_list_room own = list_room-Justified
      go (cmd_history text limit) own = history-Justified text limit
