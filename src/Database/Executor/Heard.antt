-- ===== src/Database/Executor/Heard.antt =====
-- The answers that the handlers of src/database/db_executor.cpp put on the queue of the registry.
pub mod Turns
use socket_prac.Prelude.{
  ℤ, Bool, true, false, Option, none, some, List, [], ◌∷◌, ◌++◌, Text, is_empty, ◌==◌, text_eq,
}
use socket_prac.Core.ErrorCode.{Expected, ok, unexpected}
use socket_prac.Core.Number.{parse_limit}
use socket_prac.Protocol.Codec.{Command}
use socket_prac.Reactor.Registry.State.{
  Request, send_one_command, send_friend_list_command, room_broadcast_command,
}
use socket_prac.Database.Service.{
  DbService, InviteRoomResult, invited, already_member, not_friend, room_not_found_or_no_permission,
  LeaveRoomResult, left, not_member_or_room_not_found, owner_cannot_leave,
}
use socket_prac.Database.Reply.{Acts, replies, load_joined_room_ids}
use socket_prac.Database.Reply.Cases.{
  logged_in-cases, test-cases, checked-cases, accepted-cases, found-cases, with_room_id-cases,
}
use socket_prac.Database.Account.{login_rooms, login_answer, execute_register, execute_nick}
use socket_prac.Database.Friends.{
  execute_friend_request, execute_friend_accept, execute_friend_reject, execute_friend_remove,
  execute_list_friend, execute_list_friend_request,
}
use socket_prac.Database.Rooms.{
  execute_say, execute_create_room, execute_delete_room, invite_answer, execute_invite_room,
  leave_answer, execute_leave_room, execute_list_room, execute_history,
}

-- Among some requests there is an answer to a connection: a reply, its friend list, or its message to
-- a room.
pub data Heard (fd : ℤ) : List Request → Type 0 where
  replied : {cmd : Command} {rs : List Request} → Heard fd (send_one_command fd cmd ∷ rs)
  listed : {ids : List Text} {rs : List Request} → Heard fd (send_friend_list_command fd ids ∷ rs)
  said :
      {room_id : ℤ} {cmd : Command} {rs : List Request}
      → Heard fd (room_broadcast_command fd room_id cmd ∷ rs)
  later : {r : Request} {rs : List Request} → Heard fd rs → Heard fd (r ∷ rs)

pub Heard-behind : (fd : ℤ) (rs qs : List Request) → Heard fd qs → Heard fd (rs ++ qs)
Heard-behind fd [] qs h = h
Heard-behind fd (r ∷ rs) qs h = later (Heard-behind fd rs qs h)

pub Heard-before : (fd : ℤ) (rs qs : List Request) → Heard fd rs → Heard fd (rs ++ qs)
Heard-before fd [] qs h = elim h [ ]
Heard-before fd (r ∷ rs) qs replied = replied
Heard-before fd (r ∷ rs) qs listed = listed
Heard-before fd (r ∷ rs) qs said = said
Heard-before fd (r ∷ rs) qs (later h) = later (Heard-before fd rs qs h)

module _ {S : Type 0} (db : DbService S) (fd : ℤ) where
  abbrev HeardActs : Acts S → Type 0
  HeardActs r = Heard fd r.0

  answers : (text : Text) (s : S) → HeardActs (replies fd text s)
  answers text s = replied

  pub login_answer-Heard :
      (id : Text) (r : Expected (Option Text)) (s : S) → HeardActs (login_answer db fd id r s)
  unfolding login_answer
  login_answer-Heard id (unexpected ec) s = replied
  login_answer-Heard id (ok none) s = later (later (later replied))
  login_answer-Heard id (ok (some nickname)) s =
      go (load_joined_room_ids db id s).0 (load_joined_room_ids db id s).1
    where
      go : (r : Expected (List ℤ)) (s' : S) → HeardActs (login_rooms db fd id nickname r s')
      go (ok room_ids) s' = later (later (later replied))
      go (unexpected ec) s' = replied

  pub register-Heard : (id pw : Text) (s : S) → HeardActs (execute_register db fd id pw s)
  unfolding execute_register
  register-Heard id pw s =
      checked-cases fd HeardActs answers _ (db.signup id pw s) _ (λ made s' _. replied)

  pub nick-Heard : (nick user_id : Text) (s : S) → HeardActs (execute_nick db fd nick user_id s)
  unfolding execute_nick
  nick-Heard nick user_id s = logged_in-cases fd HeardActs answers user_id s _ (λ _.
      checked-cases fd HeardActs answers _ (db.change_nickname user_id nick s) _
        (λ changed s' _. accepted-cases fd HeardActs answers _ changed s' _ (λ _. later replied)))

  pub friend_request-Heard :
      (to_user_id user_id : Text) (s : S)
      → HeardActs (execute_friend_request db fd to_user_id user_id s)
  unfolding execute_friend_request
  friend_request-Heard to_user_id user_id s = logged_in-cases fd HeardActs answers user_id s _ (λ _.
      test-cases fd HeardActs answers (user_id == to_user_id) _ s _ (λ _.
        checked-cases fd HeardActs answers _ (db.request_friend user_id to_user_id s) _
          (λ made s' _. accepted-cases fd HeardActs answers _ made s' _ (λ _. replied))))

  pub friend_accept-Heard :
      (from_user_id user_id : Text) (s : S)
      → HeardActs (execute_friend_accept db fd from_user_id user_id s)
  unfolding execute_friend_accept
  friend_accept-Heard from_user_id user_id s =
      logged_in-cases fd HeardActs answers user_id s _ (λ _.
        checked-cases fd HeardActs answers _ (db.accept_friend_request from_user_id user_id s) _
          (λ done s' _. accepted-cases fd HeardActs answers _ done s' _ (λ _. replied)))

  pub friend_reject-Heard :
      (from_user_id user_id : Text) (s : S)
      → HeardActs (execute_friend_reject db fd from_user_id user_id s)
  unfolding execute_friend_reject
  friend_reject-Heard from_user_id user_id s =
      logged_in-cases fd HeardActs answers user_id s _ (λ _.
        checked-cases fd HeardActs answers _ (db.reject_friend_request from_user_id user_id s) _
          (λ done s' _. accepted-cases fd HeardActs answers _ done s' _ (λ _. replied)))

  pub friend_remove-Heard :
      (friend_user_id user_id : Text) (s : S)
      → HeardActs (execute_friend_remove db fd friend_user_id user_id s)
  unfolding execute_friend_remove
  friend_remove-Heard friend_user_id user_id s =
      logged_in-cases fd HeardActs answers user_id s _ (λ _.
        test-cases fd HeardActs answers (user_id == friend_user_id) _ s _ (λ _.
          checked-cases fd HeardActs answers _ (db.remove_friend user_id friend_user_id s) _
            (λ done s' _. accepted-cases fd HeardActs answers _ done s' _ (λ _. replied))))

  pub list_friend-Heard : (user_id : Text) (s : S) → HeardActs (execute_list_friend db fd user_id s)
  unfolding execute_list_friend
  list_friend-Heard user_id s = logged_in-cases fd HeardActs answers user_id s _ (λ _.
      checked-cases fd HeardActs answers _ (db.list_friends user_id s) _
        (λ friends s' _. test-cases fd HeardActs answers (is_empty friends) _ s' _ (λ _. listed)))

  pub list_friend_request-Heard :
      (user_id : Text) (s : S) → HeardActs (execute_list_friend_request db fd user_id s)
  unfolding execute_list_friend_request
  list_friend_request-Heard user_id s = logged_in-cases fd HeardActs answers user_id s _ (λ _.
      checked-cases fd HeardActs answers _ (db.list_friend_requests user_id s) _
        (λ from_user_ids s' _.
          test-cases fd HeardActs answers (is_empty from_user_ids) _ s' _ (λ _. replied)))

  pub say-Heard :
      (room_id text user_id : Text) (s : S) → HeardActs (execute_say db fd room_id text user_id s)
  unfolding execute_say
  say-Heard room_id text user_id s = logged_in-cases fd HeardActs answers user_id s _ (λ _.
      with_room_id-cases fd HeardActs answers room_id s _ (λ id _.
        checked-cases fd HeardActs answers _ (db.create_room_message id user_id text s) _
          (λ msg s' _. found-cases fd HeardActs answers _ msg s' _ (λ _ _. said))))

  pub create_room-Heard :
      (room_name user_id : Text) (s : S) → HeardActs (execute_create_room db fd room_name user_id s)
  unfolding execute_create_room
  create_room-Heard room_name user_id s = logged_in-cases fd HeardActs answers user_id s _ (λ _.
      test-cases fd HeardActs answers (is_empty room_name) _ s _ (λ _.
        checked-cases fd HeardActs answers _ (db.create_room user_id room_name s) _
          (λ id s' _. replied)))

  pub delete_room-Heard :
      (room_id user_id : Text) (s : S) → HeardActs (execute_delete_room db fd room_id user_id s)
  unfolding execute_delete_room
  delete_room-Heard room_id user_id s = logged_in-cases fd HeardActs answers user_id s _ (λ _.
      with_room_id-cases fd HeardActs answers room_id s _ (λ id _.
        checked-cases fd HeardActs answers _ (db.delete_room user_id id s) _ (λ done s' _.
          accepted-cases fd HeardActs answers _ done s' _ (λ _. Heard-behind fd _ _ replied))))

  invite_answer-Heard :
      (id : ℤ) (friend_user_id user_id : Text) (r : InviteRoomResult) (s : S)
      → HeardActs (invite_answer db fd id friend_user_id user_id r s)
  unfolding invite_answer
  invite_answer-Heard id friend_user_id user_id invited s =
      Heard-behind fd _ _ (Heard-behind fd _ _ replied)
  invite_answer-Heard id friend_user_id user_id already_member s = replied
  invite_answer-Heard id friend_user_id user_id not_friend s = replied
  invite_answer-Heard id friend_user_id user_id room_not_found_or_no_permission s = replied

  pub invite_room-Heard :
      (room_id friend_user_id user_id : Text) (s : S)
      → HeardActs (execute_invite_room db fd room_id friend_user_id user_id s)
  unfolding execute_invite_room
  invite_room-Heard room_id friend_user_id user_id s =
      logged_in-cases fd HeardActs answers user_id s _ (λ _.
        test-cases fd HeardActs answers (user_id == friend_user_id) _ s _ (λ _.
          with_room_id-cases fd HeardActs answers room_id s _ (λ id _.
            checked-cases fd HeardActs answers _ (db.invite_room user_id id friend_user_id s) _
              (λ r s' _. invite_answer-Heard id friend_user_id user_id r s'))))

  leave_answer-Heard :
      (id : ℤ) (user_id : Text) (r : LeaveRoomResult) (s : S)
      → HeardActs (leave_answer db fd id user_id r s)
  unfolding leave_answer
  leave_answer-Heard id user_id left s = Heard-behind fd _ _ replied
  leave_answer-Heard id user_id not_member_or_room_not_found s = replied
  leave_answer-Heard id user_id owner_cannot_leave s = replied

  pub leave_room-Heard :
      (room_id user_id : Text) (s : S) → HeardActs (execute_leave_room db fd room_id user_id s)
  unfolding execute_leave_room
  leave_room-Heard room_id user_id s = logged_in-cases fd HeardActs answers user_id s _ (λ _.
      with_room_id-cases fd HeardActs answers room_id s _ (λ id _.
        checked-cases fd HeardActs answers _ (db.leave_room user_id id s) _
          (λ r s' _. leave_answer-Heard id user_id r s')))

  pub list_room-Heard : (user_id : Text) (s : S) → HeardActs (execute_list_room db fd user_id s)
  unfolding execute_list_room
  list_room-Heard user_id s = logged_in-cases fd HeardActs answers user_id s _ (λ _.
      checked-cases fd HeardActs answers _ (db.list_rooms user_id s) _
        (λ rooms s' _. test-cases fd HeardActs answers (is_empty rooms) _ s' _ (λ _. replied)))

  pub history-Heard :
      (room_id limit user_id : Text) (s : S)
      → HeardActs (execute_history db fd room_id limit user_id s)
  unfolding execute_history
  history-Heard room_id limit user_id s = logged_in-cases fd HeardActs answers user_id s _ (λ _.
      with_room_id-cases fd HeardActs answers room_id s _ (λ id _.
        found-cases fd HeardActs answers _ (parse_limit limit) s _ (λ n _.
          checked-cases fd HeardActs answers _ (db.list_room_messages user_id id n s) _
            (λ history_opt s' _.
              found-cases fd HeardActs answers _ history_opt s' _ (λ history _. replied)))))
