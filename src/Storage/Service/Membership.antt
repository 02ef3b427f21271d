-- ===== src/Storage/Service/Membership.antt =====
-- What the rooms of db_service tell: who is a member, what they hold, and what a task of the executor
-- may ask for because of it.
use socket_prac.Prelude.{
  ◌≡◌, refl, sym, ap, ◌∙◌, inl, inr, ℕ, ℤ, Bool, true, false, ◌&&◌, Option, none, some, List, [],
  ◌∷◌, Each, map, Text, take, ◌==◌, text_eq, int_eq, contains, Bool-cases, arith,
}
use socket_prac.Core.ErrorCode.{Expected, ok}
use socket_prac.Storage.Select.{
  exists, select, exists-order_by, exists-map, exists-select, contains-exists,
}
use socket_prac.Storage.Tables.{User, Room, RoomMember, Tables, is_room, is_member, has_member}
use socket_prac.Storage.Transaction.{Server, Database, query, pure, ◌>>=◌}
use socket_prac.Storage.Transaction.Kept.{>>=-some}
use socket_prac.Storage.Transaction.Committed.{run-ok}
use socket_prac.Storage.Users.{front, select_nickname, login}
use socket_prac.Storage.Friends.{are_friends}
use socket_prac.Storage.Rooms.{
  insert_message, select_rooms, room_info, invite_body, create_room_message, invite_room,
}
use socket_prac.Storage.Rooms.Sound.{IsSound}
use socket_prac.Database.Service.{RoomInfo, invited}

module _ (user_id : Text) where
  -- Each member row belongs to a room.
  at_home :
      (id : ℤ) (rooms : List Room) (members : List RoomMember)
      → Each (λ (m : RoomMember). exists (is_room m.room_id) rooms ≡ true) members
      → exists (is_member id user_id) members ≡ true
      → exists (is_room id) rooms ≡ true
  unfolding exists
  at_home id rooms [] h e = ground arith
  at_home id rooms (m ∷ ms) h e = elim (Bool-cases (is_member id user_id m)) [
    | inl here ↦ moved m.room_id h.0 (ground (arith, int_eq.equals_iff m.room_id id))
    | inr there ↦ at_home id rooms ms h.1 (ground arith)
  ]
    where
      moved :
          (room_id : ℤ)
          → exists (is_room room_id) rooms ≡ true
          → room_id ≡ id
          → exists (is_room id) rooms ≡ true
      moved room_id e same = rw (sym same) e

  joined_rooms :
      (id : ℤ) (t : Tables) (rooms : List Room)
      → exists (λ (r : Room). has_member r.id user_id t && r.id == id) rooms
        ≡ (has_member id user_id t && exists (is_room id) rooms)
  unfolding exists
  joined_rooms id t [] = ground arith
  joined_rooms id t (r ∷ rs) =
      ground (arith, joined_rooms id t rs, int_eq.equals_iff r.id id, same r.id)
    where
      same : (room_id : ℤ) → room_id ≡ id → has_member room_id user_id t ≡ has_member id user_id t
      same room_id e = ap (λ i. has_member i user_id t) e

  -- Over sound tables the listed rooms are exactly those that the user is a member of.
  pub select_rooms_lem :
      (id : ℤ) (t : Tables)
      → IsSound t
      → contains id (map (λ (r : RoomInfo). r.id) (select_rooms user_id t))
        ≡ has_member id user_id t
  unfolding select_rooms has_member
  select_rooms_lem id t s =
      contains-exists id (map (λ (r : RoomInfo). r.id) (select_rooms user_id t))
      ∙ exists-map (λ x. x == id) (λ (r : RoomInfo). r.id) (select_rooms user_id t)
      ∙ exists-order_by (λ (r : RoomInfo). r.id == id) _ _
      ∙ exists-map (λ (r : RoomInfo). r.id == id) (room_info t) _
      ∙ exists-select (is_room id) (λ r. has_member r.id user_id t) t.rooms
      ∙ joined_rooms id t t.rooms
      ∙ housed (has_member id user_id t) (at_home id t.rooms t.room_members s.homes)
    where
      housed :
          (b : Bool)
          → (b ≡ true → exists (is_room id) t.rooms ≡ true)
          → (b && exists (is_room id) t.rooms) ≡ b
      housed true h = h refl
      housed false h = refl

-- A message whose statement gives an id is a member's.
stored :
    (now : ℕ) (room_id : ℤ) (user_id body : Text) (id : ℤ) (t t' : Tables)
    → (insert_message now room_id user_id body >>= λ rows. pure (ok (front rows))) t
      ≡ (some (ok (some id)), t')
    → has_member room_id user_id t ≡ true
unfolding insert_message
stored now room_id user_id body id t t' e = elim (Bool-cases (has_member room_id user_id t)) [
  | inl in_room ↦ in_room
  | inr stranger ↦
      let refused : (insert_message now room_id user_id body >>= λ rows. pure (ok (front rows))) t
          ≡ (some (ok none), t) =
        >>=-some (insert_message now room_id user_id body) (λ rows. pure (ok (front rows))) t t []
          (rw stranger refl) in
      absurd (none_stored (sym refused ∙ e))
]
  where
    none_stored :
        ◌≡◌ {A = Option (Expected (Option ℤ)) × Tables}
          (some (ok none), t)
          (some (ok (some id)), t')
        → ⊥
    none_stored h = ground arith

module _ (server : Server) where
  -- A message is stored only for a member of the room.
  pub create_room_message-member :
      (room_id : ℤ) (user_id body : Text) (db : Database) (id : ℤ)
      → (create_room_message server room_id user_id body db).0 ≡ ok (some id)
      → has_member room_id user_id db.tables ≡ true
  unfolding create_room_message
  create_room_message-member room_id user_id body db id e =
      stored (server.now db.transactions) room_id user_id body id db.tables _ (
        run-ok server
          (insert_message (server.now db.transactions) room_id user_id body >>= λ rows.
            pure (ok (front rows)))
          db (some id) e)

  invited_by :
      (user_id : Text) (room_id : ℤ) (friend_user_id : Text) (t t' : Tables)
      → invite_body server user_id room_id friend_user_id t ≡ (some (ok invited), t')
      → (has_member room_id user_id t ≡ true)
        × (are_friends server.collation user_id friend_user_id t ≡ true)
  unfolding invite_body
  invited_by user_id room_id friend_user_id t t' e =
      elim (Bool-cases (has_member room_id user_id t)) [
        | inr stranger ↦ absurd (ground (arith, rw stranger at e))
        | inl in_room ↦ elim (Bool-cases (are_friends server.collation user_id friend_user_id t)) [
          | inr apart ↦ absurd (ground (arith, rw apart at (rw in_room at e)))
          | inl friends ↦ (in_room, friends)
        ]
      ]

  -- A user is invited only by a member who is a friend.
  pub invite_room-member :
      (user_id : Text) (room_id : ℤ) (friend_user_id : Text) (db : Database)
      → (invite_room server user_id room_id friend_user_id db).0 ≡ ok invited
      → (has_member room_id user_id db.tables ≡ true)
        × (are_friends server.collation user_id friend_user_id db.tables ≡ true)
  unfolding invite_room
  invite_room-member user_id room_id friend_user_id db e =
      invited_by user_id room_id friend_user_id db.tables _
        (run-ok server (invite_body server user_id room_id friend_user_id) db invited e)

  -- The row that a login finds.
  nickname_of :
      (id pw nick : Text) (us : List User)
      → front (take 1 (map (λ (u : User). u.nickname) (select (λ u. u.id == id && u.pw == pw) us)))
        ≡ some nick
      → exists (λ (u : User). u.id == id && u.pw == pw && u.nickname == nick) us ≡ true
  unfolding exists select
  nickname_of id pw nick [] e = ground arith
  nickname_of id pw nick (u ∷ us) e =
      ground (arith, nickname_of id pw nick us, text_eq.equals_iff u.nickname nick)

  -- A login is accepted only with the password of the user, and gives the user's nickname.
  pub login-password :
      (id pw : Text) (db : Database) (nick : Text)
      → (login server id pw db).0 ≡ ok (some nick)
      → exists (λ (u : User). u.id == id && u.pw == pw && u.nickname == nick) db.tables.users ≡ true
  unfolding login select_nickname
  login-password id pw db nick e =
      nickname_of id pw nick db.tables.users
        (cc (run-ok server (query (λ t. ok (front (select_nickname id pw t)))) db (some nick) e))
