-- ===== src/Storage/Rooms.antt =====
-- The operations of src/database/db_service.cpp on rooms, their members and their messages.
pub mod Sound
use socket_prac.Prelude.{
  ◌≡◌, ℕ, suc, ◌+◌, ℤ, pos, negsuc, Bool, true, false, not, ◌&&◌, Option, none, some, List, [], ◌∷◌,
  ◌++◌, map, Text, is_empty, length, take, ltb, eqb, ◌==◌, text_eq, int_eq, if◌then◌else◌,
}
use socket_prac.Core.ErrorCode.{Expected, ok, unexpected, from_errno, eio}
use socket_prac.Storage.Select.{exists, select, order_by}
use socket_prac.Storage.Tables.{
  Room, Role, owner, member, RoomMember, Message, Tables, is_room, is_member, has_user, has_room,
  has_member,
}
use socket_prac.Storage.Transaction.{Sql, ◌>>=◌, pure, query, violates, Server, Database, run}
use socket_prac.Storage.Users.{any_row, front}
use socket_prac.Storage.Friends.{are_friends}
use socket_prac.Database.Service.{
  MessageInfo, RoomInfo, InviteRoomResult, invited, already_member, not_friend,
  room_not_found_or_no_permission, LeaveRoomResult, left, not_member_or_room_not_found,
  owner_cannot_leave,
}

abbrev pub lt_ℤ : ℤ → ℤ → Bool
lt_ℤ (pos a) (pos b) = ltb a b
lt_ℤ (pos a) (negsuc b) = false
lt_ℤ (negsuc a) (pos b) = true
lt_ℤ (negsuc a) (negsuc b) = ltb b a

-- INSERT INTO chat.rooms (name, owner_user_id) VALUES ($1, $2) RETURNING id. The identity column
-- draws its value before the reference to the owner is checked.
unfoldable pub insert_room : Text → Text → Sql (List ℤ)
unfolding has_user
insert_room name owner_user_id t =
    let id = pos t.room_seq in
    let drawn : Tables = record t { room_seq = suc t.room_seq } in
    if has_user owner_user_id t
    then (
      some (id ∷ []),
      record drawn {
        rooms = t.rooms ++ record { id = id; name = name; owner_user_id = owner_user_id } ∷ [];
      },
    )
    else violates drawn

-- INSERT INTO chat.room_members (room_id, user_id, role) … ON CONFLICT … DO NOTHING RETURNING user_id
unfoldable pub insert_member : ℤ → Text → Role → Sql (List Text)
unfolding has_member has_room has_user
insert_member room_id user_id role t =
    if has_member room_id user_id t
    then (some [], t)
    else if has_room room_id t && has_user user_id t
    then (
      some (user_id ∷ []),
      record t {
        room_members =
            t.room_members ++ record { room_id = room_id; user_id = user_id; role = role } ∷ [];
      },
    )
    else violates t

-- DELETE FROM chat.rooms WHERE id = $1 AND owner_user_id = $2 RETURNING id. ON DELETE CASCADE takes
-- the members and the messages of a deleted room with it.
unfoldable pub delete_rooms : Text → ℤ → Sql (List ℤ)
unfolding exists select
delete_rooms owner_user_id room_id t =
    let doomed = λ (r : Room). r.id == room_id && r.owner_user_id == owner_user_id in
    let deleted = select doomed t.rooms in
    let gone = λ (id : ℤ). exists (is_room id) deleted in
    (
      some (map (λ (r : Room). r.id) deleted),
      record t {
        rooms = select (λ r. not (doomed r)) t.rooms;
        room_members = select (λ m. not (gone m.room_id)) t.room_members;
        messages = select (λ m. not (gone m.room_id)) t.messages;
      },
    )

-- DELETE FROM chat.room_members WHERE room_id = $1 AND user_id = $2 RETURNING room_id
unfoldable pub delete_member : ℤ → Text → Sql (List ℤ)
unfolding select
delete_member room_id user_id t = (
  some (map (λ (m : RoomMember). m.room_id) (select (is_member room_id user_id) t.room_members)),
  record t { room_members = select (λ m. not (is_member room_id user_id m)) t.room_members },
)

-- INSERT INTO chat.messages … SELECT $1, $2, $3 WHERE EXISTS (…) RETURNING id
unfoldable pub insert_message : ℕ → ℤ → Text → Text → Sql (List ℤ)
unfolding has_member has_room has_user
insert_message now room_id sender_user_id body t =
    let id = pos t.message_seq in
    let drawn : Tables = record t { message_seq = suc t.message_seq } in
    if not (has_member room_id sender_user_id t)
    then (some [], t)
    else if has_room room_id t && has_user sender_user_id t
    then (
      some (id ∷ []),
      record drawn {
        messages =
            t.messages
            ++ record {
              id = id;
              room_id = room_id;
              sender_user_id = sender_user_id;
              body = body;
              created_at = now;
            }
              ∷ [];
      },
    )
    else violates drawn

-- SELECT owner_user_id FROM chat.rooms WHERE id = $1 LIMIT 1
unfoldable pub select_owner : ℤ → Tables → List Text
unfolding select
select_owner room_id t =
    take 1 (map (λ (r : Room). r.owner_user_id) (select (is_room room_id) t.rooms))

abbrev pub room_info : Tables → Room → RoomInfo
room_info t r = record {
  id = r.id;
  name = r.name;
  owner_user_id = r.owner_user_id;
  member_count = pos (length (select (λ (m : RoomMember). m.room_id == r.id) t.room_members));
}

-- SELECT r.id, r.name, r.owner_user_id, COUNT(all_m.user_id) … ORDER BY r.id ASC. The primary keys let
-- the join with `scope_m` keep each room of the user once.
unfoldable pub select_rooms : Text → Tables → List RoomInfo
unfolding select order_by has_member
select_rooms user_id t =
    order_by (λ (r r' : RoomInfo). lt_ℤ r.id r'.id)
      (map (room_info t) (select (λ r. has_member r.id user_id t) t.rooms))

-- created_at DESC, id DESC
abbrev pub is_newer : Message → Message → Bool
is_newer m m' =
    if eqb m.created_at m'.created_at then lt_ℤ m'.id m.id else ltb m'.created_at m.created_at

-- SELECT … FROM (SELECT … WHERE room_id = $1 ORDER BY created_at DESC, id DESC LIMIT $2) h ORDER BY id
-- ASC. A negative limit is refused.
unfoldable pub select_messages : ℤ → ℤ → Sql (List Message)
unfolding select order_by
select_messages room_id (negsuc n) t = violates t
select_messages room_id (pos n) t = (
  some (
      order_by (λ (m m' : Message). lt_ℤ m.id m'.id)
        (take n (order_by is_newer (select (λ m. m.room_id == room_id) t.messages)))),
  t,
)

abbrev pub message_info : (ℕ → Text) → Message → MessageInfo
message_info timestamp m = record {
  id = m.id;
  sender_user_id = m.sender_user_id;
  body = m.body;
  created_at = timestamp m.created_at;
}

-- The statements between `tx` and `tx.commit()`.
unfoldable pub add_owner : Text → List ℤ → Sql (Expected ℤ)
unfolding insert_member
add_owner owner_user_id [] = pure (unexpected (from_errno eio))
add_owner owner_user_id (room_id ∷ _) =
    insert_member room_id owner_user_id owner >>= λ _. pure (ok room_id)

unfoldable pub create_body : Text → Text → Sql (Expected ℤ)
unfolding insert_room add_owner
create_body owner_user_id room_name =
    insert_room room_name owner_user_id >>= add_owner owner_user_id

unfoldable pub invite_body : Server → Text → ℤ → Text → Sql (Expected InviteRoomResult)
unfolding has_member are_friends insert_member
invite_body server inviter_user_id room_id friend_user_id =
    query (has_member room_id inviter_user_id) >>= λ inviter_member.
    if not inviter_member
    then pure (ok room_not_found_or_no_permission)
    else query (are_friends server.collation inviter_user_id friend_user_id) >>= λ friendship.
        if not friendship
        then pure (ok not_friend)
        else insert_member room_id friend_user_id member >>= λ insert_rows.
            pure (ok (if is_empty insert_rows then already_member else invited))

unfoldable pub leave_unless_owner : Text → ℤ → List Text → Sql (Expected LeaveRoomResult)
unfolding delete_member
leave_unless_owner user_id room_id [] = pure (ok not_member_or_room_not_found)
leave_unless_owner user_id room_id (owner_user_id ∷ _) =
    if owner_user_id == user_id
    then pure (ok owner_cannot_leave)
    else delete_member room_id user_id >>= λ leave_rows.
        pure (ok (if is_empty leave_rows then not_member_or_room_not_found else left))

unfoldable pub leave_body : Text → ℤ → Sql (Expected LeaveRoomResult)
unfolding select_owner leave_unless_owner
leave_body user_id room_id = query (select_owner room_id) >>= leave_unless_owner user_id room_id

unfoldable pub history_body : Server → Text → ℤ → ℤ → Sql (Expected (Option (List MessageInfo)))
unfolding has_member select_messages
history_body server user_id room_id limit = query (has_member room_id user_id) >>= λ is_in.
    if not is_in
    then pure (ok none)
    else select_messages room_id limit >>= λ rows.
        pure (ok (some (map (message_info server.timestamp) rows)))

module _ (server : Server) where
  unfoldable pub create_room : Text → Text → Database → Expected ℤ × Database
  unfolding run create_body
  create_room owner_user_id room_name = run server (create_body owner_user_id room_name)

  unfoldable pub delete_room : Text → ℤ → Database → Expected Bool × Database
  unfolding run delete_rooms
  delete_room owner_user_id room_id = run server (delete_rooms owner_user_id room_id >>= any_row)

  unfoldable pub invite_room : Text → ℤ → Text → Database → Expected InviteRoomResult × Database
  unfolding run invite_body
  invite_room inviter_user_id room_id friend_user_id =
      run server (invite_body server inviter_user_id room_id friend_user_id)

  unfoldable pub create_room_message : ℤ → Text → Text → Database → Expected (Option ℤ) × Database
  unfolding run insert_message
  create_room_message room_id sender_user_id body db =
      run server
        (insert_message (server.now db.transactions) room_id sender_user_id body >>= λ rows.
          pure (ok (front rows)))
        db

  unfoldable pub leave_room : Text → ℤ → Database → Expected LeaveRoomResult × Database
  unfolding run leave_body
  leave_room user_id room_id = run server (leave_body user_id room_id)

  unfoldable pub list_rooms : Text → Database → Expected (List RoomInfo) × Database
  unfolding run select_rooms
  list_rooms user_id = run server (query (λ t. ok (select_rooms user_id t)))

  unfoldable pub list_room_messages :
      Text → ℤ → ℤ → Database → Expected (Option (List MessageInfo)) × Database
  unfolding run history_body
  list_room_messages user_id room_id limit = run server (history_body server user_id room_id limit)
