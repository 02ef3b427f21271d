-- ===== src/Database/Rooms.antt =====
-- The handlers of src/database/db_executor.cpp for rooms and their messages.
use socket_prac.Prelude.{
  ℤ, List, [], ◌∷◌, ◌++◌, map, Text, codes, is_empty, length, ◌==◌, text_eq, if◌then◌else◌,
}
use socket_prac.Core.ErrorCode.{Expected, ok, unexpected}
use socket_prac.Core.Number.{to_string, to_string_ℕ, parse_limit}
use socket_prac.Protocol.Codec.{cmd_response}
use socket_prac.Reactor.Registry.State.{
  Request, set_joined_rooms_command, set_joined_rooms_for_user_command, room_broadcast_command,
}
use socket_prac.Database.Service.{
  MessageInfo, RoomInfo, InviteRoomResult, invited, already_member, not_friend,
  room_not_found_or_no_permission, LeaveRoomResult, left, not_member_or_room_not_found,
  owner_cannot_leave, DbService,
}
use socket_prac.Database.Reply.{
  Acts, reply, replies, logged_in, checked, accepted, found, with_room_id, load_joined_room_ids,
}

-- The refresh of an index, left out when its rooms could not be loaded.
abbrev pub refresh : (List ℤ → Request) → Expected (List ℤ) → List Request
refresh act (unexpected ec) = []
refresh act (ok room_ids) = act room_ids ∷ []

abbrev pub room_line : RoomInfo → Text
room_line room =
    codes "room: id="
    ++ (to_string room.id
        ++ (codes " name="
            ++ (room.name
                ++ (codes " owner="
                    ++ (room.owner_user_id
                        ++ (codes " members=" ++ to_string room.member_count))))))

abbrev pub message_line : MessageInfo → Text
message_line msg =
    codes "history: id="
    ++ (to_string msg.id
        ++ (codes " at="
            ++ (msg.created_at
                ++ (codes " from=" ++ (msg.sender_user_id ++ (codes " text=" ++ msg.body))))))

module _ {S : Type 0} (db : DbService S) (fd : ℤ) where
  unfoldable pub execute_say : Text → Text → Text → S → Acts S
  unfolding logged_in with_room_id checked found
  execute_say room_id text user_id s = logged_in fd user_id s (
      with_room_id fd room_id s (λ id.
        checked fd (codes "send failed") (db.create_room_message id user_id text s) (λ msg s'.
          found fd (codes "room not found or no permission") msg s'
            (λ _. (room_broadcast_command fd id (cmd_response text) ∷ [], s')))))

  unfoldable pub execute_create_room : Text → Text → S → Acts S
  unfolding logged_in checked load_joined_room_ids
  execute_create_room room_name user_id s = logged_in fd user_id s (
      if is_empty room_name
      then replies fd (codes "room name is empty") s
      else checked fd (codes "create room failed") (db.create_room user_id room_name s) (λ id s1.
        let (joined_room_ids_exp, s2) = load_joined_room_ids db user_id s1 in
        (
          reply fd (
                codes "room created: "
                ++ (to_string id ++ (codes " (" ++ (room_name ++ codes ")"))))
              ∷ refresh (set_joined_rooms_command fd) joined_room_ids_exp,
          s2,
        )))

  unfoldable pub execute_delete_room : Text → Text → S → Acts S
  unfolding logged_in with_room_id checked accepted load_joined_room_ids
  execute_delete_room room_id user_id s = logged_in fd user_id s (
      with_room_id fd room_id s (λ id.
        checked fd (codes "delete room failed") (db.delete_room user_id id s) (λ done s1.
          accepted fd (codes "room not found or no permission") done s1 (
            let (joined_room_ids_exp, s2) = load_joined_room_ids db user_id s1 in
            (
              refresh (set_joined_rooms_command fd) joined_room_ids_exp
                  ++ reply fd (codes "room deleted: " ++ to_string id) ∷ [],
              s2,
            )))))

  -- The answer to an invitation. Both users' rooms are loaded again when it was accepted.
  unfoldable pub invite_answer : ℤ → Text → Text → InviteRoomResult → S → Acts S
  unfolding load_joined_room_ids
  invite_answer id friend_user_id user_id invited s =
      let (inviter_rooms_exp, s1) = load_joined_room_ids db user_id s in
      let (invitee_rooms_exp, s2) = load_joined_room_ids db friend_user_id s1 in
      (
        refresh (set_joined_rooms_for_user_command user_id) inviter_rooms_exp
            ++ (refresh (set_joined_rooms_for_user_command friend_user_id) invitee_rooms_exp
                ++ reply fd (
                    codes "room invite sent: room="
                    ++ (to_string id ++ (codes " user=" ++ friend_user_id)))
                  ∷ []),
        s2,
      )
  invite_answer id friend_user_id user_id already_member s =
      replies fd (codes "user already in room") s
  invite_answer id friend_user_id user_id not_friend s =
      replies fd (codes "can invite friends only") s
  invite_answer id friend_user_id user_id room_not_found_or_no_permission s =
      replies fd (codes "room not found or no permission") s

  unfoldable pub execute_invite_room : Text → Text → Text → S → Acts S
  unfolding logged_in with_room_id checked invite_answer
  execute_invite_room room_id friend_user_id user_id s = logged_in fd user_id s (
      if user_id == friend_user_id
      then replies fd (codes "cannot invite yourself") s
      else with_room_id fd room_id s (λ id.
        checked fd (codes "invite room failed") (db.invite_room user_id id friend_user_id s)
          (invite_answer id friend_user_id user_id)))

  unfoldable pub leave_answer : ℤ → Text → LeaveRoomResult → S → Acts S
  unfolding load_joined_room_ids
  leave_answer id user_id left s =
      let (joined_room_ids_exp, s1) = load_joined_room_ids db user_id s in
      (
        refresh (set_joined_rooms_for_user_command user_id) joined_room_ids_exp
            ++ reply fd (codes "left room: " ++ to_string id) ∷ [],
        s1,
      )
  leave_answer id user_id not_member_or_room_not_found s =
      replies fd (codes "room not found or not joined") s
  leave_answer id user_id owner_cannot_leave s =
      replies fd (codes "room owner cannot leave (delete room instead)") s

  unfoldable pub execute_leave_room : Text → Text → S → Acts S
  unfolding logged_in with_room_id checked leave_answer
  execute_leave_room room_id user_id s = logged_in fd user_id s (
      with_room_id fd room_id s (λ id.
        checked fd (codes "leave room failed") (db.leave_room user_id id s)
          (leave_answer id user_id)))

  unfoldable pub execute_list_room : Text → S → Acts S
  unfolding logged_in checked
  execute_list_room user_id s = logged_in fd user_id s (
      checked fd (codes "list room failed") (db.list_rooms user_id s) (λ rooms s'.
        if is_empty rooms then replies fd (codes "no rooms") s' else (
          reply fd (codes "rooms: " ++ to_string_ℕ (length rooms))
              ∷ map (λ room. reply fd (room_line room)) rooms,
          s',
        )))

  unfoldable pub execute_history : Text → Text → Text → S → Acts S
  unfolding logged_in with_room_id checked found
  execute_history room_id limit user_id s = logged_in fd user_id s (
      with_room_id fd room_id s (λ id.
        found fd (codes "invalid limit (1-100)") (parse_limit limit) s (λ n.
          checked fd (codes "history query failed") (db.list_room_messages user_id id n s)
            (λ history_opt s'.
              found fd (codes "room not found or no permission") history_opt s' (λ history. (
                reply fd (
                      codes "history: room="
                      ++ (to_string id ++ (codes " count=" ++ to_string_ℕ (length history))))
                    ∷ map (λ msg. reply fd (message_line msg)) history,
                s',
              ))))))
