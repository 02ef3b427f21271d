-- ===== src/Database/Executor/KeptHandlers.antt =====
-- The execute_command overloads of src/database/db_executor.cpp over a service that keeps a
-- property of its state.
use socket_prac.Prelude.{ℤ, Option, none, some, List, Text, is_empty, ◌==◌, text_eq}
use socket_prac.Core.ErrorCode.{Expected, ok, unexpected}
use socket_prac.Core.Number.{parse_limit}
use socket_prac.Database.Service.{
  DbService, InviteRoomResult, invited, already_member, not_friend, room_not_found_or_no_permission,
  LeaveRoomResult, left, not_member_or_room_not_found, owner_cannot_leave,
}
use socket_prac.Database.Reply.{load_joined_room_ids}
use socket_prac.Database.Account.{login_rooms, login_answer, execute_register, execute_nick}
use socket_prac.Database.Friends.{
  execute_friend_request, execute_friend_accept, execute_friend_reject, execute_friend_remove,
  execute_list_friend, execute_list_friend_request,
}
use socket_prac.Database.Rooms.{
  execute_say, execute_create_room, execute_delete_room, invite_answer, execute_invite_room,
  leave_answer, execute_leave_room, execute_list_room, execute_history,
}
use socket_prac.Database.Executor.Keeps.{
  Keeps, logged_in-kept, test-kept, checked-kept, accepted-kept, found-kept, with_room_id-kept,
  loaded-kept,
}

module _ {S : Type 0} (I : S → Type 0) (db : DbService S) (fd : ℤ) (keeps : Keeps I db) where
  pub login_answer-kept :
      (id : Text) (r : Expected (Option Text)) (s : S) → I s → I (login_answer db fd id r s).1
  unfolding login_answer login_rooms
  login_answer-kept id (unexpected ec) s h = h
  login_answer-kept id (ok none) s h = h
  login_answer-kept id (ok (some nickname)) s h =
      go (load_joined_room_ids db id s) (loaded-kept I db fd keeps id s h)
    where
      go : (r : Expected (List ℤ) × S) → I r.1 → I (login_rooms db fd id nickname r.0 r.1).1
      go (ok room_ids, s') k = k
      go (unexpected ec, s') k = k

  invite_answer-kept :
      (id : ℤ) (friend_user_id user_id : Text) (r : InviteRoomResult) (s : S)
      → I s
      → I (invite_answer db fd id friend_user_id user_id r s).1
  unfolding invite_answer
  invite_answer-kept id friend_user_id user_id invited s h =
      loaded-kept I db fd keeps friend_user_id _ (loaded-kept I db fd keeps user_id s h)
  invite_answer-kept id friend_user_id user_id already_member s h = h
  invite_answer-kept id friend_user_id user_id not_friend s h = h
  invite_answer-kept id friend_user_id user_id room_not_found_or_no_permission s h = h

  leave_answer-kept :
      (id : ℤ) (user_id : Text) (r : LeaveRoomResult) (s : S)
      → I s
      → I (leave_answer db fd id user_id r s).1
  unfolding leave_answer
  leave_answer-kept id user_id left s h = loaded-kept I db fd keeps user_id s h
  leave_answer-kept id user_id not_member_or_room_not_found s h = h
  leave_answer-kept id user_id owner_cannot_leave s h = h

  pub say-kept :
      (room_id text user_id : Text) (s : S) → I s → I (execute_say db fd room_id text user_id s).1
  unfolding execute_say
  say-kept room_id text user_id s h = logged_in-kept I fd user_id s _ h (
      with_room_id-kept I fd room_id s _ h (λ id.
        checked-kept I fd _ (db.create_room_message id user_id text s) _
          (keeps.create_room_message id user_id text s h)
          (λ msg s' h'. found-kept I fd _ msg s' _ h' (λ _. h'))))

  pub register-kept : (id pw : Text) (s : S) → I s → I (execute_register db fd id pw s).1
  unfolding execute_register
  register-kept id pw s h =
      checked-kept I fd _ (db.signup id pw s) _ (keeps.signup id pw s h) (λ _ s' h'. h')

  pub nick-kept : (nick user_id : Text) (s : S) → I s → I (execute_nick db fd nick user_id s).1
  unfolding execute_nick
  nick-kept nick user_id s h = logged_in-kept I fd user_id s _ h (
      checked-kept I fd _ (db.change_nickname user_id nick s) _
        (keeps.change_nickname user_id nick s h)
        (λ changed s' h'. accepted-kept I fd _ changed s' _ h' h'))

  pub friend_request-kept :
      (to_user_id user_id : Text) (s : S)
      → I s
      → I (execute_friend_request db fd to_user_id user_id s).1
  unfolding execute_friend_request
  friend_request-kept to_user_id user_id s h = logged_in-kept I fd user_id s _ h (
      test-kept I fd (user_id == to_user_id) _ s _ h (
        checked-kept I fd _ (db.request_friend user_id to_user_id s) _
          (keeps.request_friend user_id to_user_id s h)
          (λ made s' h'. accepted-kept I fd _ made s' _ h' h')))

  pub friend_accept-kept :
      (from_user_id user_id : Text) (s : S)
      → I s
      → I (execute_friend_accept db fd from_user_id user_id s).1
  unfolding execute_friend_accept
  friend_accept-kept from_user_id user_id s h = logged_in-kept I fd user_id s _ h (
      checked-kept I fd _ (db.accept_friend_request from_user_id user_id s) _
        (keeps.accept_friend_request from_user_id user_id s h)
        (λ done s' h'. accepted-kept I fd _ done s' _ h' h'))

  pub friend_reject-kept :
      (from_user_id user_id : Text) (s : S)
      → I s
      → I (execute_friend_reject db fd from_user_id user_id s).1
  unfolding execute_friend_reject
  friend_reject-kept from_user_id user_id s h = logged_in-kept I fd user_id s _ h (
      checked-kept I fd _ (db.reject_friend_request from_user_id user_id s) _
        (keeps.reject_friend_request from_user_id user_id s h)
        (λ done s' h'. accepted-kept I fd _ done s' _ h' h'))

  pub friend_remove-kept :
      (friend_user_id user_id : Text) (s : S)
      → I s
      → I (execute_friend_remove db fd friend_user_id user_id s).1
  unfolding execute_friend_remove
  friend_remove-kept friend_user_id user_id s h = logged_in-kept I fd user_id s _ h (
      test-kept I fd (user_id == friend_user_id) _ s _ h (
        checked-kept I fd _ (db.remove_friend user_id friend_user_id s) _
          (keeps.remove_friend user_id friend_user_id s h)
          (λ done s' h'. accepted-kept I fd _ done s' _ h' h')))

  pub list_friend-kept : (user_id : Text) (s : S) → I s → I (execute_list_friend db fd user_id s).1
  unfolding execute_list_friend
  list_friend-kept user_id s h = logged_in-kept I fd user_id s _ h (
      checked-kept I fd _ (db.list_friends user_id s) _ (keeps.list_friends user_id s h)
        (λ friends s' h'. test-kept I fd (is_empty friends) _ s' _ h' h'))

  pub list_friend_request-kept :
      (user_id : Text) (s : S) → I s → I (execute_list_friend_request db fd user_id s).1
  unfolding execute_list_friend_request
  list_friend_request-kept user_id s h = logged_in-kept I fd user_id s _ h (
      checked-kept I fd _ (db.list_friend_requests user_id s) _
        (keeps.list_friend_requests user_id s h)
        (λ from_user_ids s' h'. test-kept I fd (is_empty from_user_ids) _ s' _ h' h'))

  pub create_room-kept :
      (room_name user_id : Text) (s : S) → I s → I (execute_create_room db fd room_name user_id s).1
  unfolding execute_create_room
  create_room-kept room_name user_id s h = logged_in-kept I fd user_id s _ h (
      test-kept I fd (is_empty room_name) _ s _ h (
        checked-kept I fd _ (db.create_room user_id room_name s) _
          (keeps.create_room user_id room_name s h)
          (λ id s' h'. loaded-kept I db fd keeps user_id s' h')))

  pub delete_room-kept :
      (room_id user_id : Text) (s : S) → I s → I (execute_delete_room db fd room_id user_id s).1
  unfolding execute_delete_room
  delete_room-kept room_id user_id s h = logged_in-kept I fd user_id s _ h (
      with_room_id-kept I fd room_id s _ h (λ id.
        checked-kept I fd _ (db.delete_room user_id id s) _ (keeps.delete_room user_id id s h)
          (λ done s' h'.
            accepted-kept I fd _ done s' _ h' (loaded-kept I db fd keeps user_id s' h'))))

  pub invite_room-kept :
      (room_id friend_user_id user_id : Text) (s : S)
      → I s
      → I (execute_invite_room db fd room_id friend_user_id user_id s).1
  unfolding execute_invite_room
  invite_room-kept room_id friend_user_id user_id s h = logged_in-kept I fd user_id s _ h (
      test-kept I fd (user_id == friend_user_id) _ s _ h (
        with_room_id-kept I fd room_id s _ h (λ id.
          checked-kept I fd _ (db.invite_room user_id id friend_user_id s) _
            (keeps.invite_room user_id id friend_user_id s h)
            (invite_answer-kept id friend_user_id user_id))))

  pub leave_room-kept :
      (room_id user_id : Text) (s : S) → I s → I (execute_leave_room db fd room_id user_id s).1
  unfolding execute_leave_room
  leave_room-kept room_id user_id s h = logged_in-kept I fd user_id s _ h (
      with_room_id-kept I fd room_id s _ h (λ id.
        checked-kept I fd _ (db.leave_room user_id id s) _ (keeps.leave_room user_id id s h)
          (leave_answer-kept id user_id)))

  pub list_room-kept : (user_id : Text) (s : S) → I s → I (execute_list_room db fd user_id s).1
  unfolding execute_list_room
  list_room-kept user_id s h = logged_in-kept I fd user_id s _ h (
      checked-kept I fd _ (db.list_rooms user_id s) _ (keeps.list_rooms user_id s h)
        (λ rooms s' h'. test-kept I fd (is_empty rooms) _ s' _ h' h'))

  pub history-kept :
      (room_id limit user_id : Text) (s : S)
      → I s
      → I (execute_history db fd room_id limit user_id s).1
  unfolding execute_history
  history-kept room_id limit user_id s h = logged_in-kept I fd user_id s _ h (
      with_room_id-kept I fd room_id s _ h (λ id. found-kept I fd _ (parse_limit limit) s _ h (λ n.
        checked-kept I fd _ (db.list_room_messages user_id id n s) _
          (keeps.list_room_messages user_id id n s h)
          (λ history_opt s' h'. found-kept I fd _ history_opt s' _ h' (λ _. h')))))
