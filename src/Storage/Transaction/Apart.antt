-- ===== src/Storage/Transaction/Apart.antt =====
-- Statements on users, friends and requests leave the tables of rooms alone, and the other way.
use socket_prac.Prelude.{◌≡◌, ℕ, ◌≤◌, ℤ, Text, text_eq, arith}
use socket_prac.Storage.Tables.{Role, Status, Tables, Collation}
use socket_prac.Storage.Users.{insert_user, update_nickname}
use socket_prac.Storage.Friends.{
  insert_friendship, delete_friendship, insert_request, settle_request,
}
use socket_prac.Storage.Rooms.{
  insert_room, insert_member, delete_rooms, delete_member, insert_message,
}

pub record SameRooms (t t' : Tables) : Type 0 where
  pub rooms : t'.rooms ≡ t.rooms
  pub room_members : t'.room_members ≡ t.room_members
  pub messages : t'.messages ≡ t.messages
  pub room_seq : t'.room_seq ≡ t.room_seq
  pub message_seq : t'.message_seq ≡ t.message_seq

pub record SameFriends (t t' : Tables) : Type 0 where
  pub friendships : t'.friendships ≡ t.friendships
  pub friend_requests : t'.friend_requests ≡ t.friend_requests
  pub room_seq : t.room_seq ≤ t'.room_seq
  pub message_seq : t.message_seq ≤ t'.message_seq

pub insert_user-SameRooms :
    (id pw nickname : Text) (t : Tables) → SameRooms t (insert_user id pw nickname t).1
unfolding insert_user
insert_user-SameRooms id pw nickname t = ground arith

pub update_nickname-SameRooms :
    (id nickname : Text) (t : Tables) → SameRooms t (update_nickname id nickname t).1
unfolding update_nickname
update_nickname-SameRooms id nickname t = ground arith

pub insert_friendship-SameRooms :
    (c : Collation) (a b : Text) (t : Tables) → SameRooms t (insert_friendship c a b t).1
unfolding insert_friendship
insert_friendship-SameRooms c a b t = ground arith

pub delete_friendship-SameRooms :
    (c : Collation) (a b : Text) (t : Tables) → SameRooms t (delete_friendship c a b t).1
unfolding delete_friendship
delete_friendship-SameRooms c a b t = ground arith

pub insert_request-SameRooms :
    (c : Collation) (now : ℕ) (a b : Text) (t : Tables) → SameRooms t (insert_request c now a b t).1
unfolding insert_request
insert_request-SameRooms c now a b t = ground arith

pub settle_request-SameRooms :
    (now : ℕ) (status : Status) (a b : Text) (t : Tables)
    → SameRooms t (settle_request now status a b t).1
unfolding settle_request
settle_request-SameRooms now status a b t = ground arith

pub insert_user-SameFriends :
    (id pw nickname : Text) (t : Tables) → SameFriends t (insert_user id pw nickname t).1
unfolding insert_user
insert_user-SameFriends id pw nickname t = ground arith

pub update_nickname-SameFriends :
    (id nickname : Text) (t : Tables) → SameFriends t (update_nickname id nickname t).1
unfolding update_nickname
update_nickname-SameFriends id nickname t = ground arith

pub insert_room-SameFriends :
    (name owner_user_id : Text) (t : Tables) → SameFriends t (insert_room name owner_user_id t).1
unfolding insert_room
insert_room-SameFriends name owner_user_id t = ground arith

pub insert_member-SameFriends :
    (room_id : ℤ) (user_id : Text) (role : Role) (t : Tables)
    → SameFriends t (insert_member room_id user_id role t).1
unfolding insert_member
insert_member-SameFriends room_id user_id role t = ground arith

pub delete_rooms-SameFriends :
    (owner_user_id : Text) (room_id : ℤ) (t : Tables)
    → SameFriends t (delete_rooms owner_user_id room_id t).1
unfolding delete_rooms
delete_rooms-SameFriends owner_user_id room_id t = ground arith

pub delete_member-SameFriends :
    (room_id : ℤ) (user_id : Text) (t : Tables) → SameFriends t (delete_member room_id user_id t).1
unfolding delete_member
delete_member-SameFriends room_id user_id t = ground arith

pub insert_message-SameFriends :
    (now : ℕ) (room_id : ℤ) (sender_user_id body : Text) (t : Tables)
    → SameFriends t (insert_message now room_id sender_user_id body t).1
unfolding insert_message
insert_message-SameFriends now room_id sender_user_id body t = ground arith
