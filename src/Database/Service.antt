-- ===== src/Database/Service.antt =====
-- The public operations of `db_service` (include/database/db_service.hpp), as the executor calls them.
-- An operation may fail, and may change the state of the database, which is a parameter.
use socket_prac.Prelude.{ℤ, Bool, Option, List, Text}
use socket_prac.Core.ErrorCode.{Expected}

pub record MessageInfo : Type 0 where
  pub id : ℤ
  pub sender_user_id : Text
  pub body : Text
  pub created_at : Text

pub record RoomInfo : Type 0 where
  pub id : ℤ
  pub name : Text
  pub owner_user_id : Text
  pub member_count : ℤ

pub data InviteRoomResult : Type 0 where
  invited : InviteRoomResult
  already_member : InviteRoomResult
  not_friend : InviteRoomResult
  room_not_found_or_no_permission : InviteRoomResult

pub data LeaveRoomResult : Type 0 where
  left : LeaveRoomResult
  not_member_or_room_not_found : LeaveRoomResult
  owner_cannot_leave : LeaveRoomResult

pub record DbService (S : Type 0) : Type 0 where
  pub login : Text → Text → S → Expected (Option Text) × S
  pub signup : Text → Text → S → Expected Bool × S
  pub change_nickname : Text → Text → S → Expected Bool × S
  pub remove_friend : Text → Text → S → Expected Bool × S
  pub list_friends : Text → S → Expected (List Text) × S
  pub request_friend : Text → Text → S → Expected Bool × S
  pub accept_friend_request : Text → Text → S → Expected Bool × S
  pub reject_friend_request : Text → Text → S → Expected Bool × S
  pub list_friend_requests : Text → S → Expected (List Text) × S
  pub create_room : Text → Text → S → Expected ℤ × S
  pub delete_room : Text → ℤ → S → Expected Bool × S
  pub invite_room : Text → ℤ → Text → S → Expected InviteRoomResult × S
  pub create_room_message : ℤ → Text → Text → S → Expected (Option ℤ) × S
  pub leave_room : Text → ℤ → S → Expected LeaveRoomResult × S
  pub list_rooms : Text → S → Expected (List RoomInfo) × S
  pub list_room_messages : Text → ℤ → ℤ → S → Expected (Option (List MessageInfo)) × S
