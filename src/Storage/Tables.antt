-- ===== src/Storage/Tables.antt =====
-- The tables that scripts/migrate_db_schema.sh makes, with the columns that
-- src/database/db_service.cpp reads or writes, and the order of texts in the database.
use socket_prac.Prelude.{
  ℕ, ◌≡◌, ◌⊎◌, ℤ, pos, negsuc, Bool, true, false, ◌&&◌, List, Text, ◌==◌, text_eq, int_eq, ltb,
  if◌then◌else◌,
}
use socket_prac.Storage.Select.{exists}

-- auth.users
pub record User : Type 0 where
  pub id : Text
  pub pw : Text
  pub nickname : Text

-- social.friendships
pub record Friendship : Type 0 where
  pub user_a_id : Text
  pub user_b_id : Text

pub data Status : Type 0 where
  pending accepted rejected canceled : Status

-- social.friend_requests
pub record FriendRequest : Type 0 where
  pub from_user_id : Text
  pub to_user_id : Text
  pub status : Status
  pub created_at : ℕ
  pub updated_at : ℕ

-- chat.rooms
pub record Room : Type 0 where
  pub id : ℤ
  pub name : Text
  pub owner_user_id : Text

pub data Role : Type 0 where
  owner admin member : Role

-- chat.room_members
pub record RoomMember : Type 0 where
  pub room_id : ℤ
  pub user_id : Text
  pub role : Role

-- chat.messages
pub record Message : Type 0 where
  pub id : ℤ
  pub room_id : ℤ
  pub sender_user_id : Text
  pub body : Text
  pub created_at : ℕ

-- The last two are the sequences behind the identity columns: the next id of a room and of a
-- message.
pub record Tables : Type 0 where
  pub users : List User
  pub friendships : List Friendship
  pub friend_requests : List FriendRequest
  pub rooms : List Room
  pub room_members : List RoomMember
  pub messages : List Message
  pub room_seq : ℕ
  pub message_seq : ℕ

-- The database's collation orders texts; two different texts are always ordered.
pub record Collation : Type 0 where
  pub before : Text → Text → Bool
  pub irreflexive : (a : Text) → before a a ≡ false
  pub asymmetric : (a b : Text) → before a b ≡ true → before b a ≡ false
  pub trichotomous : (a b : Text) → (before a b ≡ true) ⊎ (before b a ≡ true) ⊎ (a ≡ b)

module _ (c : Collation) where
  unfoldable pub least : Text → Text → Text
  least a b = if c.before b a then b else a

  unfoldable pub greatest : Text → Text → Text
  greatest a b = if c.before b a then a else b

abbrev pub is_user : Text → User → Bool
is_user id u = u.id == id

abbrev pub is_pair : Text → Text → Friendship → Bool
is_pair a b f = f.user_a_id == a && f.user_b_id == b

abbrev pub is_request : Text → Text → FriendRequest → Bool
is_request from_user_id to_user_id r = r.from_user_id == from_user_id && r.to_user_id == to_user_id

abbrev pub is_room : ℤ → Room → Bool
is_room id r = r.id == id

abbrev pub is_member : ℤ → Text → RoomMember → Bool
is_member room_id user_id m = m.room_id == room_id && m.user_id == user_id

-- PRIMARY KEY and REFERENCES look rows up by their keys.
unfoldable pub has_user : Text → Tables → Bool
unfolding exists
has_user id t = exists (is_user id) t.users

unfoldable pub has_room : ℤ → Tables → Bool
unfolding exists
has_room id t = exists (is_room id) t.rooms

unfoldable pub has_member : ℤ → Text → Tables → Bool
unfolding exists
has_member room_id user_id t = exists (is_member room_id user_id) t.room_members

-- An id that the sequence has handed out.
abbrev pub is_drawn : ℕ → ℤ → Bool
is_drawn next (pos n) = ltb n next
is_drawn next (negsuc n) = false
