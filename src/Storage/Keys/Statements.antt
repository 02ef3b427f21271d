-- ===== src/Storage/Keys/Statements.antt =====
-- The statements of src/database/db_service.cpp over tables with their keys.
use socket_prac.Prelude.{
  ◌≡◌, refl, ℕ, suc, ℤ, pos, negsuc, Bool, true, false, not, ◌&&◌, List, [], ◌∷◌, ◌++◌, Each,
  Each-append, Text, ◌==◌, text_eq, int_eq, inl, inr, Bool-cases, arith,
}
use socket_prac.Storage.Select.{exists, select, update, Each-imp, Each-select, Each-update}
use socket_prac.Storage.Tables.{
  User, Friendship, Status, pending, FriendRequest, Room, Role, RoomMember, Message, Tables,
  Collation, least, greatest, is_user, is_pair, is_request, is_room, is_member, has_user, has_room,
  has_member, is_drawn,
}
use socket_prac.Storage.Transaction.Kept.{Advances, Advances-refl, Maintains}
use socket_prac.Storage.Users.{insert_user, update_nickname}
use socket_prac.Storage.Friends.{
  are_friends, is_pending, is_closed, insert_friendship, delete_friendship, insert_request,
  settle_request,
}
use socket_prac.Storage.Rooms.{
  insert_room, insert_member, delete_rooms, delete_member, insert_message,
}
use socket_prac.Storage.Rooms.Sound.{is_drawn-le, is_drawn-next, exists-more}
use socket_prac.Storage.Keys.{
  Keyed-last, Keyed-select, Keyed-update, same_user, same_pair, same_request, same_member,
  same_message, IsKeyed, with_users, with_friendships, with_requests, with_rooms, with_members,
  with_messages,
}

-- Tables with the same sequences.
still :
    {t t' : Tables}
    → t'.room_seq ≡ t.room_seq
    → t'.message_seq ≡ t.message_seq
    → IsKeyed t'
    → Advances IsKeyed t t'
still r m h = record { kept = h; room_seq = omega (arith, r); message_seq = omega (arith, m) }

left_of : (a b : Bool) → (a && b) ≡ true → a ≡ true
left_of a b e = ground arith

right_of : (a b : Bool) → (a && b) ≡ true → b ≡ true
right_of a b e = ground arith

pub insert_user-IsKeyed : (id pw nickname : Text) → Maintains IsKeyed (insert_user id pw nickname)
unfolding insert_user has_user
insert_user-IsKeyed id pw nickname = record {
  at = λ t h. elim (Bool-cases (has_user id t)) [
    | inl there ↦ rw there (Advances-refl h)
    | inr new ↦ rw new (
        let row : User = record { id = id; pw = pw; nickname = nickname } in
        still refl refl (
          with_users t (t.users ++ row ∷ [])
            (Keyed-last same_user
              (λ u v e. ground (arith, text_eq.equals_iff u.id v.id, text_eq.equals_iff v.id u.id))
              t.users row h.users new)
            (λ id' e. exists-more (is_user id') t.users (row ∷ []) e) h))
  ];
}

pub update_nickname-IsKeyed : (id nickname : Text) → Maintains IsKeyed (update_nickname id nickname)
unfolding update_nickname update exists
update_nickname-IsKeyed id nickname = record {
  at = λ t h.
      let f = λ (u : User). record u { nickname = nickname } in
      still refl refl (
        with_users t (update (is_user id) f t.users)
          (Keyed-update same_user (is_user id) f (λ u v. refl) (λ u v. refl) t.users h.users)
          (λ id' e. renamed id' id nickname t.users e) h);
}
  where
    renamed :
        (id' id nickname : Text) (us : List User)
        → exists (is_user id') us ≡ true
        → exists (is_user id') (update (is_user id) (λ u. record u { nickname = nickname }) us)
          ≡ true
    renamed id' id nickname [] e = e
    renamed id' id nickname (u ∷ us) e = ground (arith, renamed id' id nickname us)

pub delete_friendship-IsKeyed :
    (c : Collation) (a b : Text) → Maintains IsKeyed (delete_friendship c a b)
unfolding delete_friendship
delete_friendship-IsKeyed c a b = record {
  at = λ t h.
      let p = λ (f : Friendship). not (is_pair (least c a b) (greatest c a b) f) in
      still refl refl (
        with_friendships t (select p t.friendships)
          (Keyed-select same_pair p t.friendships h.friendships)
          (Each-select _ p t.friendships h.friends) h);
}

pub insert_friendship-IsKeyed :
    (c : Collation) (a b : Text) → Maintains IsKeyed (insert_friendship c a b)
unfolding insert_friendship are_friends has_user
insert_friendship-IsKeyed c a b = record {
  at = λ t h.
      let low = least c a b in
      let high = greatest c a b in
      elim (Bool-cases (c.before low high)) [
        | inr self ↦ rw self (Advances-refl h)
        | inl ordered ↦ rw ordered (elim (Bool-cases (are_friends c a b t)) [
          | inl friends ↦ rw friends (Advances-refl h)
          | inr new ↦ rw new (elim (Bool-cases (has_user low t && has_user high t)) [
            | inr unknown ↦ rw unknown (Advances-refl h)
            | inl known ↦ rw known (
                let row : Friendship = record { user_a_id = low; user_b_id = high } in
                still refl refl (
                  with_friendships t (t.friendships ++ row ∷ [])
                    (Keyed-last same_pair pair_comm t.friendships row h.friendships new)
                    (Each-append _ t.friendships (row ∷ []) h.friends
                      ((left_of _ _ known, right_of _ _ known), tt))
                    h))
          ])
        ])
      ];
}
  where
    pair_comm : (f g : Friendship) → same_pair f g ≡ true → same_pair g f ≡ true
    pair_comm f g e = ground (
      arith,
      text_eq.equals_iff f.user_a_id g.user_a_id,
      text_eq.equals_iff g.user_a_id f.user_a_id,
      text_eq.equals_iff f.user_b_id g.user_b_id,
      text_eq.equals_iff g.user_b_id f.user_b_id,
    )

request_comm : (r q : FriendRequest) → same_request r q ≡ true → same_request q r ≡ true
request_comm r q e = ground (
  arith,
  text_eq.equals_iff r.from_user_id q.from_user_id,
  text_eq.equals_iff q.from_user_id r.from_user_id,
  text_eq.equals_iff r.to_user_id q.to_user_id,
  text_eq.equals_iff q.to_user_id r.to_user_id,
)

-- A change of status leaves the users of a request.
with_status :
    (t : Tables) (p : FriendRequest → Bool) (now : ℕ) (status : Status)
    → IsKeyed t
    → IsKeyed (record t {
      friend_requests =
          update p (λ r. record r { status = status; updated_at = now }) t.friend_requests;
    })
with_status t p now status h =
    let f = λ (r : FriendRequest). record r { status = status; updated_at = now } in
    with_requests t (update p f t.friend_requests)
      (Keyed-update same_request p f (λ r q. refl) (λ r q. refl) t.friend_requests
        h.friend_requests)
      (Each-update _ p f t.friend_requests (λ r e. e) h.requesters) h

pub settle_request-IsKeyed :
    (now : ℕ) (status : Status) (a b : Text) → Maintains IsKeyed (settle_request now status a b)
unfolding settle_request
settle_request-IsKeyed now status a b = record {
  at = λ t h.
      still refl refl (with_status t (λ r. is_request a b r && is_pending r.status) now status h);
}

pub insert_request-IsKeyed :
    (c : Collation) (now : ℕ) (a b : Text) → Maintains IsKeyed (insert_request c now a b)
unfolding insert_request has_user
insert_request-IsKeyed c now a b = record {
  at = λ t h. elim (Bool-cases (are_friends c a b t)) [
    | inl friends ↦ rw friends (Advances-refl h)
    | inr apart ↦ rw apart (elim (Bool-cases (a == b)) [
      | inl self ↦ rw self (Advances-refl h)
      | inr two ↦ rw two (elim (Bool-cases (exists (is_request a b) t.friend_requests)) [
        | inl before ↦ rw before (
            still refl refl
              (with_status t (λ r. is_request a b r && is_closed r.status) now pending h))
        | inr new ↦ rw new (elim (Bool-cases (has_user a t && has_user b t)) [
          | inr unknown ↦ rw unknown (Advances-refl h)
          | inl known ↦ rw known (
              let row : FriendRequest = record {
                from_user_id = a;
                to_user_id = b;
                status = pending;
                created_at = now;
                updated_at = now;
              } in
              still refl refl (
                with_requests t (t.friend_requests ++ row ∷ [])
                  (Keyed-last same_request request_comm t.friend_requests row h.friend_requests new)
                  (Each-append _ t.friend_requests (row ∷ []) h.requesters
                    ((left_of _ _ known, right_of _ _ known), tt))
                  h))
        ])
      ])
    ])
  ];
}

pub insert_room-IsKeyed : (name owner : Text) → Maintains IsKeyed (insert_room name owner)
unfolding insert_room has_user
insert_room-IsKeyed name owner = record {
  at = λ t h. elim (Bool-cases (has_user owner t)) [
    | inr unknown ↦ rw unknown (record {
      kept = with_rooms t t.rooms (suc t.room_seq) h.owners h;
      room_seq = omega arith;
      message_seq = omega arith;
    })
    | inl known ↦ rw known (
        let row : Room = record { id = pos t.room_seq; name = name; owner_user_id = owner } in
        record {
          kept =
              with_rooms t (t.rooms ++ row ∷ []) (suc t.room_seq)
                (Each-append _ t.rooms (row ∷ []) h.owners (known, tt)) h;
          room_seq = omega arith;
          message_seq = omega arith;
        })
  ];
}

pub insert_member-IsKeyed :
    (room_id : ℤ) (user_id : Text) (role : Role)
    → Maintains IsKeyed (insert_member room_id user_id role)
unfolding insert_member has_member has_user
insert_member-IsKeyed room_id user_id role = record {
  at = λ t h. elim (Bool-cases (has_member room_id user_id t)) [
    | inl there ↦ rw there (Advances-refl h)
    | inr new ↦ rw new (elim (Bool-cases (has_room room_id t && has_user user_id t)) [
      | inr unknown ↦ rw unknown (Advances-refl h)
      | inl known ↦ rw known (
          let row : RoomMember = record { room_id = room_id; user_id = user_id; role = role } in
          still refl refl (
            with_members t (t.room_members ++ row ∷ [])
              (Keyed-last same_member member_comm t.room_members row h.room_members new)
              (Each-append _ t.room_members (row ∷ []) h.joined (right_of _ _ known, tt)) h))
    ])
  ];
}
  where
    member_comm : (m n : RoomMember) → same_member m n ≡ true → same_member n m ≡ true
    member_comm m n e = ground (
      arith,
      int_eq.equals_iff m.room_id n.room_id,
      int_eq.equals_iff n.room_id m.room_id,
      text_eq.equals_iff m.user_id n.user_id,
      text_eq.equals_iff n.user_id m.user_id,
    )

pub delete_rooms-IsKeyed : (a : Text) (id : ℤ) → Maintains IsKeyed (delete_rooms a id)
unfolding delete_rooms
delete_rooms-IsKeyed a id = record {
  at = λ t h.
      let doomed = λ (r : Room). r.id == id && r.owner_user_id == a in
      let gone = λ (i : ℤ). exists (is_room i) (select doomed t.rooms) in
      let stays = λ (m : RoomMember). not (gone m.room_id) in
      let kept = λ (m : Message). not (gone m.room_id) in
      let rooms = select (λ r. not (doomed r)) t.rooms in
      let members = select stays t.room_members in
      let t1 : Tables = record t { rooms = rooms } in
      let t2 : Tables = record t1 { room_members = members } in
      let h1 =
        with_rooms t rooms t.room_seq (Each-select _ (λ r. not (doomed r)) t.rooms h.owners) h in
      let h2 =
        with_members t1 members (Keyed-select same_member stays t.room_members h.room_members)
          (Each-select _ stays t.room_members h.joined) h1 in
      still refl refl (
        with_messages t2 (select kept t.messages) t.message_seq
          (Keyed-select same_message kept t.messages h.messages)
          (Each-select _ kept t.messages h.numbered) (Each-select _ kept t.messages h.senders) h2);
}

pub delete_member-IsKeyed : (id : ℤ) (a : Text) → Maintains IsKeyed (delete_member id a)
unfolding delete_member
delete_member-IsKeyed id a = record {
  at = λ t h.
      let stays = λ (m : RoomMember). not (is_member id a m) in
      still refl refl (
        with_members t (select stays t.room_members)
          (Keyed-select same_member stays t.room_members h.room_members)
          (Each-select _ stays t.room_members h.joined) h);
}

-- No message has the id that comes next.
new_message :
    (n : ℕ) (row : Message) (ms : List Message)
    → row.id ≡ pos n
    → Each (λ (m : Message). is_drawn n m.id ≡ true) ms
    → exists (same_message row) ms ≡ false
unfolding exists
new_message n row [] e h = refl
new_message n row (m ∷ ms) e h = ground (arith, new_message n row ms e h.1, other m.id row.id e h.0)
  where
    other : (id next : ℤ) → next ≡ pos n → is_drawn n id ≡ true → (id == next) ≡ false
    other (pos i) next e h = rw e (ground arith)
    other (negsuc i) next e h = rw e (ground arith)

pub insert_message-IsKeyed :
    (now : ℕ) (id : ℤ) (a text : Text) → Maintains IsKeyed (insert_message now id a text)
unfolding insert_message has_user
insert_message-IsKeyed now id a text = record {
  at = λ t h. elim (Bool-cases (has_member id a t)) [
    | inr stranger ↦ rw stranger (Advances-refl h)
    | inl in_room ↦ rw in_room (elim (Bool-cases (has_room id t && has_user a t)) [
      | inr unknown ↦ rw unknown (record {
        kept =
            with_messages t t.messages (suc t.message_seq) h.messages
              (later t t.messages h.numbered) h.senders h;
        room_seq = omega arith;
        message_seq = omega arith;
      })
      | inl known ↦ rw known (
          let row : Message = record {
            id = pos t.message_seq;
            room_id = id;
            sender_user_id = a;
            body = text;
            created_at = now;
          } in
          record {
            kept =
                with_messages t (t.messages ++ row ∷ []) (suc t.message_seq)
                  (Keyed-last same_message message_comm t.messages row h.messages
                    (new_message t.message_seq row t.messages refl h.numbered))
                  (Each-append _ t.messages (row ∷ []) (later t t.messages h.numbered)
                    (is_drawn-next t.message_seq, tt))
                  (Each-append _ t.messages (row ∷ []) h.senders (right_of _ _ known, tt)) h;
            room_seq = omega arith;
            message_seq = omega arith;
          })
    ])
  ];
}
  where
    message_comm : (m n : Message) → same_message m n ≡ true → same_message n m ≡ true
    message_comm m n e = ground (arith, int_eq.equals_iff m.id n.id, int_eq.equals_iff n.id m.id)

    later :
        (t : Tables) (ms : List Message)
        → Each (λ (m : Message). is_drawn t.message_seq m.id ≡ true) ms
        → Each (λ (m : Message). is_drawn (suc t.message_seq) m.id ≡ true) ms
    later t ms h =
        Each-imp _ _ ms
          (λ (m : Message) e. is_drawn-le t.message_seq (suc t.message_seq) m.id e (omega arith)) h
