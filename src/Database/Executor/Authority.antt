-- ===== src/Database/Executor/Authority.antt =====
-- What the requests of a task may ask of the registry, whatever the database answers.
pub mod Rooms
use socket_prac.Prelude.{
  arith, ℤ, ◌≡◌, refl, sym, ap, ◌∙◌, ◌⊎◌, inl, inr, Bool, true, false, ◌||◌, Option, none, some,
  List, [], ◌∷◌, ◌++◌, Text, codes, is_empty, length, ◌==◌, text_eq, Each, Each-append, Each-map,
  if◌then◌else◌, map,
}
use socket_prac.Core.ErrorCode.{Expected, ok, unexpected}
use socket_prac.Core.Number.{parse_room_id, parse_limit, to_string, to_string_ℕ}
use socket_prac.Protocol.Codec.{
  Command, cmd_say, cmd_nick, cmd_response, cmd_login, cmd_register, cmd_friend_request,
  cmd_friend_accept, cmd_friend_reject, cmd_friend_remove, cmd_list_friend, cmd_list_friend_request,
  cmd_create_room, cmd_delete_room, cmd_invite_room, cmd_leave_room, cmd_list_room, cmd_history,
}
use socket_prac.Reactor.Registry.State.{
  Request, register_command, unregister_command, send_one_command, broadcast_command,
  change_nickname_command, set_user_id_command, set_joined_rooms_command,
  set_joined_rooms_for_user_command, send_friend_list_command, room_broadcast_command,
}
use socket_prac.Database.Service.{
  DbService, InviteRoomResult, invited, already_member, not_friend, room_not_found_or_no_permission,
  LeaveRoomResult, left, not_member_or_room_not_found, owner_cannot_leave,
}
use socket_prac.Database.Reply.{Acts, reply, replies, logged_in, load_joined_room_ids}
use socket_prac.Database.Reply.Cases.{
  logged_in-cases, test-cases, checked-cases, accepted-cases, found-cases, with_room_id-cases,
}
use socket_prac.Database.Account.{
  identity, login_rooms, login_answer, execute_login, execute_register, execute_nick,
}
use socket_prac.Database.Friends.{
  execute_friend_request, execute_friend_accept, execute_friend_reject, execute_friend_remove,
  execute_list_friend, execute_list_friend_request,
}
use socket_prac.Database.Rooms.{
  refresh, room_line, message_line, execute_say, execute_create_room, execute_delete_room,
  invite_answer, execute_invite_room, leave_answer, execute_leave_room, execute_list_room,
  execute_history,
}
use socket_prac.Database.Executor.{Task, is_db_command, execute}

module _ {S : Type 0} (db : DbService S) (t : Task) (s : S) where
  -- What justifies a request of the task in the state of the database where it starts: a reply, a
  -- nickname and rooms are the task's own connection's; a user is the one whose password the
  -- database has accepted, or none; rooms are set for the task's user and for a user that has
  -- been invited; a message goes to the room that the command names, once the database holds it.
  abbrev pub Justified : Request → Type 0
  Justified (send_one_command fd cmd) = fd ≡ t.fd
  Justified (change_nickname_command fd nick) = fd ≡ t.fd
  Justified (set_user_id_command fd user_id) =
      (fd ≡ t.fd)
      × ((user_id ≡ [])
          ⊎ ((pw : Text) × (nick : Text) × (t.cmd ≡ cmd_login user_id pw)
              × ((db.login user_id pw s).0 ≡ ok (some nick))))
  Justified (set_joined_rooms_command fd room_ids) = fd ≡ t.fd
  Justified (set_joined_rooms_for_user_command user_id room_ids) =
      (is_empty t.user_id ≡ false)
      × ((user_id ≡ t.user_id)
          ⊎ ((text : Text) × (id : ℤ) × (t.cmd ≡ cmd_invite_room text user_id)
              × (parse_room_id text ≡ some id)
              × ((db.invite_room t.user_id id user_id s).0 ≡ ok invited)))
  Justified (send_friend_list_command fd friend_ids) = (fd ≡ t.fd) × (is_empty t.user_id ≡ false)
  Justified (room_broadcast_command sender_fd room_id cmd) =
      (sender_fd ≡ t.fd)
      × (is_empty t.user_id ≡ false)
      × ((text : Text) × (body : Text) × (id : ℤ) × (t.cmd ≡ cmd_say text body)
          × (cmd ≡ cmd_response body)
          × (parse_room_id text ≡ some room_id)
          × ((db.create_room_message room_id t.user_id body s).0 ≡ ok (some id)))
  Justified (register_command fd interest) = ⊥
  Justified (unregister_command fd) = ⊥
  Justified (broadcast_command fd cmd) = ⊥

  abbrev pub JustifiedActs : Acts S → Type 0
  JustifiedActs r = Each Justified r.0

  pub replied : (text : Text) (s' : S) → JustifiedActs (replies t.fd text s')
  replied text s' = (refl, tt)

  pub refresh-Justified :
      (act : List ℤ → Request) (r : Expected (List ℤ))
      → ((room_ids : List ℤ) → Justified (act room_ids))
      → Each Justified (refresh act r)
  refresh-Justified act (ok room_ids) h = (h room_ids, tt)
  refresh-Justified act (unexpected ec) h = tt

  login_rooms-Justified :
      (id pw nick : Text)
      → t.cmd ≡ cmd_login id pw
      → (db.login id pw s).0 ≡ ok (some nick)
      → (r : Expected (List ℤ)) (s' : S) → JustifiedActs (login_rooms db t.fd id nick r s')
  unfolding login_rooms
  login_rooms-Justified id pw nick own accepts (ok room_ids) s' =
      ((refl, inr (pw, nick, own, accepts)), (refl, (refl, (refl, tt))))
  login_rooms-Justified id pw nick own accepts (unexpected ec) s' =
      (refl, ((refl, inl refl), (refl, (refl, tt))))

  pub login_answer-Justified :
      (id pw : Text)
      → t.cmd ≡ cmd_login id pw
      → (r : Expected (Option Text)) (s' : S) → (db.login id pw s).0 ≡ r
      → JustifiedActs (login_answer db t.fd id r s')
  unfolding login_answer
  login_answer-Justified id pw own (ok (some nick)) s' e =
      login_rooms-Justified id pw nick own e (load_joined_room_ids db id s').0
        (load_joined_room_ids db id s').1
  login_answer-Justified id pw own (ok none) s' e = ((refl, inl refl), (refl, (refl, (refl, tt))))
  login_answer-Justified id pw own (unexpected ec) s' e =
      (refl, ((refl, inl refl), (refl, (refl, tt))))

  pub register-Justified : (id pw : Text) → JustifiedActs (execute_register db t.fd id pw s)
  unfolding execute_register
  register-Justified id pw =
      checked-cases t.fd JustifiedActs replied _ (db.signup id pw s) _ (λ made s' _. (refl, tt))

  pub nick-Justified : (nick : Text) → JustifiedActs (execute_nick db t.fd nick t.user_id s)
  unfolding execute_nick
  nick-Justified nick = logged_in-cases t.fd JustifiedActs replied t.user_id s _ (λ _.
      checked-cases t.fd JustifiedActs replied _ (db.change_nickname t.user_id nick s) _
        (λ changed s' _.
          accepted-cases t.fd JustifiedActs replied _ changed s' _ (λ _. (refl, (refl, tt)))))

  pub friend_request-Justified :
      (to_user_id : Text) → JustifiedActs (execute_friend_request db t.fd to_user_id t.user_id s)
  unfolding execute_friend_request
  friend_request-Justified to_user_id =
      logged_in-cases t.fd JustifiedActs replied t.user_id s _ (λ _.
        test-cases t.fd JustifiedActs replied (t.user_id == to_user_id) _ s _ (λ _.
          checked-cases t.fd JustifiedActs replied _ (db.request_friend t.user_id to_user_id s) _
            (λ made s' _. accepted-cases t.fd JustifiedActs replied _ made s' _ (λ _. (refl, tt)))))

  pub friend_accept-Justified :
      (from_user_id : Text) → JustifiedActs (execute_friend_accept db t.fd from_user_id t.user_id s)
  unfolding execute_friend_accept
  friend_accept-Justified from_user_id =
      logged_in-cases t.fd JustifiedActs replied t.user_id s _ (λ _.
        checked-cases t.fd JustifiedActs replied _
          (db.accept_friend_request from_user_id t.user_id s) _
          (λ done s' _. accepted-cases t.fd JustifiedActs replied _ done s' _ (λ _. (refl, tt))))

  pub friend_reject-Justified :
      (from_user_id : Text) → JustifiedActs (execute_friend_reject db t.fd from_user_id t.user_id s)
  unfolding execute_friend_reject
  friend_reject-Justified from_user_id =
      logged_in-cases t.fd JustifiedActs replied t.user_id s _ (λ _.
        checked-cases t.fd JustifiedActs replied _
          (db.reject_friend_request from_user_id t.user_id s) _
          (λ done s' _. accepted-cases t.fd JustifiedActs replied _ done s' _ (λ _. (refl, tt))))

  pub friend_remove-Justified :
      (friend_user_id : Text)
      → JustifiedActs (execute_friend_remove db t.fd friend_user_id t.user_id s)
  unfolding execute_friend_remove
  friend_remove-Justified friend_user_id =
      logged_in-cases t.fd JustifiedActs replied t.user_id s _ (λ _.
        test-cases t.fd JustifiedActs replied (t.user_id == friend_user_id) _ s _ (λ _.
          checked-cases t.fd JustifiedActs replied _ (db.remove_friend t.user_id friend_user_id s) _
            (λ done s' _. accepted-cases t.fd JustifiedActs replied _ done s' _ (λ _. (refl, tt)))))

  pub list_friend-Justified : JustifiedActs (execute_list_friend db t.fd t.user_id s)
  unfolding execute_list_friend
  list_friend-Justified = logged_in-cases t.fd JustifiedActs replied t.user_id s _ (λ user.
      checked-cases t.fd JustifiedActs replied _ (db.list_friends t.user_id s) _ (λ friends s' _.
        test-cases t.fd JustifiedActs replied (is_empty friends) _ s' _ (λ _. ((refl, user), tt))))

  pub list_friend_request-Justified :
      JustifiedActs (execute_list_friend_request db t.fd t.user_id s)
  unfolding execute_list_friend_request
  list_friend_request-Justified = logged_in-cases t.fd JustifiedActs replied t.user_id s _ (λ _.
      checked-cases t.fd JustifiedActs replied _ (db.list_friend_requests t.user_id s) _
        (λ from_user_ids s' _.
          test-cases t.fd JustifiedActs replied (is_empty from_user_ids) _ s' _
            (λ _. (refl, Each-map Justified _ from_user_ids (λ _. refl)))))
