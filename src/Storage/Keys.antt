-- ===== src/Storage/Keys.antt =====
-- The primary keys of the tables of scripts/migrate_db_schema.sh, and their references to users.
pub mod Statements
use socket_prac.Prelude.{
  ◌≡◌, refl, sym, ap, ◌∙◌, ℕ, suc, ◌≤◌, ℤ, pos, Bool, true, false, ◌&&◌, ◌||◌, List, [], ◌∷◌, ◌++◌,
  Each, Text, ◌==◌, text_eq, int_eq, if◌then◌else◌, inl, inr, Bool-cases, arith,
}
use socket_prac.Storage.Select.{exists, select, update, exists-append, Each-imp}
use socket_prac.Storage.Tables.{
  User, Friendship, FriendRequest, Room, RoomMember, Message, Tables, is_user, is_pair, is_request,
  is_member, is_drawn,
}
use socket_prac.Storage.Transaction.{roll_back}
use socket_prac.Storage.Transaction.Kept.{Advances, RollsBack}
use socket_prac.Storage.Rooms.Sound.{is_drawn-le}

module _ {A : Type 0} (same : A → A → Bool) where
  -- No two rows have the same key.
  abbrev pub Keyed : List A → Type 0
  Keyed [] = Unit
  Keyed (x ∷ xs) = (exists (same x) xs ≡ false) × Keyed xs

  pub Keyed-last :
      ((x y : A) → same x y ≡ true → same y x ≡ true)
      → (xs : List A) (y : A) → Keyed xs
      → exists (same y) xs ≡ false
      → Keyed (xs ++ y ∷ [])
  unfolding exists
  Keyed-last comm [] y k new = (refl, tt)
  Keyed-last comm (x ∷ xs) y k new = (
    exists-append (same x) xs (y ∷ []) ∙ ground (arith, comm x y, k.0),
    Keyed-last comm xs y k.1 (ground arith),
  )

  pub Keyed-select : (p : A → Bool) (xs : List A) → Keyed xs → Keyed (select p xs)
  unfolding select exists
  Keyed-select p [] k = tt
  Keyed-select p (x ∷ xs) k =
      let rest = Keyed-select p xs k.1 in
      elim (Bool-cases (p x)) [ inl e ↦ rw e (fewer (same x) xs k.0, rest) | inr e ↦ rw e rest ]
    where
      fewer : (q : A → Bool) (xs : List A) → exists q xs ≡ false → exists q (select p xs) ≡ false
      fewer q [] e = e
      fewer q (x ∷ xs) e = ground (arith, fewer q xs)

  -- An update that does not touch the key.
  pub Keyed-update :
      (p : A → Bool) (f : A → A)
      → ((x y : A) → same (f x) y ≡ same x y)
      → ((x y : A) → same x (f y) ≡ same x y)
      → (xs : List A) → Keyed xs
      → Keyed (update p f xs)
  unfolding update exists
  Keyed-update p f left right [] k = tt
  Keyed-update p f left right (x ∷ xs) k = (
    elim (Bool-cases (p x)) [
      | inl e ↦ rw e (unmet (f x) xs (first (f x) (left x) xs k.0))
      | inr e ↦ rw e (unmet x xs k.0)
    ],
    Keyed-update p f left right xs k.1,
  )
    where
      first :
          (z : A)
          → ((y : A) → same z y ≡ same x y)
          → (xs : List A) → exists (same x) xs ≡ false
          → exists (same z) xs ≡ false
      first z h [] e = e
      first z h (y ∷ ys) e = ground (arith, h y, first z h ys)

      unmet :
          (z : A) (xs : List A)
          → exists (same z) xs ≡ false
          → exists (same z) (update p f xs) ≡ false
      unmet z [] e = e
      unmet z (y ∷ ys) e = ground (arith, right z y, unmet z ys)

abbrev pub same_user : User → User → Bool
same_user u v = is_user u.id v

abbrev pub same_pair : Friendship → Friendship → Bool
same_pair f g = is_pair f.user_a_id f.user_b_id g

abbrev pub same_request : FriendRequest → FriendRequest → Bool
same_request r q = is_request r.from_user_id r.to_user_id q

abbrev pub same_member : RoomMember → RoomMember → Bool
same_member m n = is_member m.room_id m.user_id n

abbrev pub same_message : Message → Message → Bool
same_message m n = n.id == m.id

abbrev pub Known : List User → Text → Type 0
Known users id = exists (is_user id) users ≡ true

-- The keys of all tables but that of the rooms, which `IsSound` has, are those of one row each, and
-- every column that refers to a user has the id of one.
pub record IsKeyed (t : Tables) : Type 0 where
  pub users : Keyed same_user t.users
  pub friendships : Keyed same_pair t.friendships
  pub friend_requests : Keyed same_request t.friend_requests
  pub room_members : Keyed same_member t.room_members
  pub messages : Keyed same_message t.messages
  pub numbered : Each (λ (m : Message). is_drawn t.message_seq m.id ≡ true) t.messages
  pub friends :
      Each (λ (f : Friendship). Known t.users f.user_a_id × Known t.users f.user_b_id) t.friendships
  pub requesters :
      Each
        (λ (r : FriendRequest). Known t.users r.from_user_id × Known t.users r.to_user_id)
        t.friend_requests
  pub owners : Each (λ (r : Room). Known t.users r.owner_user_id) t.rooms
  pub joined : Each (λ (m : RoomMember). Known t.users m.user_id) t.room_members
  pub senders : Each (λ (m : Message). Known t.users m.sender_user_id) t.messages

pub IsKeyed-RollsBack : RollsBack IsKeyed
unfolding roll_back
IsKeyed-RollsBack = record {
  rolls = λ t t' h r m. record {
    users = h.users;
    friendships = h.friendships;
    friend_requests = h.friend_requests;
    room_members = h.room_members;
    messages = h.messages;
    numbered =
        Each-imp _ _ t.messages
          (λ (x : Message) e. is_drawn-le t.message_seq t'.message_seq x.id e m) h.numbered;
    friends = h.friends;
    requesters = h.requesters;
    owners = h.owners;
    joined = h.joined;
    senders = h.senders;
  };
}

-- Users may be added and changed as long as none goes.
pub with_users :
    (t : Tables) (us : List User)
    → Keyed same_user us
    → ((id : Text) → Known t.users id → Known us id)
    → IsKeyed t
    → IsKeyed (record t { users = us })
with_users t us keyed stays h = record {
  users = keyed;
  friendships = h.friendships;
  friend_requests = h.friend_requests;
  room_members = h.room_members;
  messages = h.messages;
  numbered = h.numbered;
  friends =
      Each-imp _ _ t.friendships
        (λ (f : Friendship) e. (stays f.user_a_id e.0, stays f.user_b_id e.1)) h.friends;
  requesters =
      Each-imp _ _ t.friend_requests
        (λ (r : FriendRequest) e. (stays r.from_user_id e.0, stays r.to_user_id e.1)) h.requesters;
  owners = Each-imp _ _ t.rooms (λ (r : Room) e. stays r.owner_user_id e) h.owners;
  joined = Each-imp _ _ t.room_members (λ (m : RoomMember) e. stays m.user_id e) h.joined;
  senders = Each-imp _ _ t.messages (λ (m : Message) e. stays m.sender_user_id e) h.senders;
}

pub with_friendships :
    (t : Tables) (fs : List Friendship)
    → Keyed same_pair fs
    → Each (λ (f : Friendship). Known t.users f.user_a_id × Known t.users f.user_b_id) fs
    → IsKeyed t
    → IsKeyed (record t { friendships = fs })
with_friendships t fs keyed known h = record {
  users = h.users;
  friendships = keyed;
  friend_requests = h.friend_requests;
  room_members = h.room_members;
  messages = h.messages;
  numbered = h.numbered;
  friends = known;
  requesters = h.requesters;
  owners = h.owners;
  joined = h.joined;
  senders = h.senders;
}

pub with_requests :
    (t : Tables) (rs : List FriendRequest)
    → Keyed same_request rs
    → Each (λ (r : FriendRequest). Known t.users r.from_user_id × Known t.users r.to_user_id) rs
    → IsKeyed t
    → IsKeyed (record t { friend_requests = rs })
with_requests t rs keyed known h = record {
  users = h.users;
  friendships = h.friendships;
  friend_requests = keyed;
  room_members = h.room_members;
  messages = h.messages;
  numbered = h.numbered;
  friends = h.friends;
  requesters = known;
  owners = h.owners;
  joined = h.joined;
  senders = h.senders;
}

pub with_rooms :
    (t : Tables) (rooms : List Room) (room_seq : ℕ)
    → Each (λ (r : Room). Known t.users r.owner_user_id) rooms
    → IsKeyed t
    → IsKeyed (record t { rooms = rooms; room_seq = room_seq })
with_rooms t rooms room_seq known h = record {
  users = h.users;
  friendships = h.friendships;
  friend_requests = h.friend_requests;
  room_members = h.room_members;
  messages = h.messages;
  numbered = h.numbered;
  friends = h.friends;
  requesters = h.requesters;
  owners = known;
  joined = h.joined;
  senders = h.senders;
}

pub with_members :
    (t : Tables) (ms : List RoomMember)
    → Keyed same_member ms
    → Each (λ (m : RoomMember). Known t.users m.user_id) ms
    → IsKeyed t
    → IsKeyed (record t { room_members = ms })
with_members t ms keyed known h = record {
  users = h.users;
  friendships = h.friendships;
  friend_requests = h.friend_requests;
  room_members = keyed;
  messages = h.messages;
  numbered = h.numbered;
  friends = h.friends;
  requesters = h.requesters;
  owners = h.owners;
  joined = known;
  senders = h.senders;
}

pub with_messages :
    (t : Tables) (ms : List Message) (message_seq : ℕ)
    → Keyed same_message ms
    → Each (λ (m : Message). is_drawn message_seq m.id ≡ true) ms
    → Each (λ (m : Message). Known t.users m.sender_user_id) ms
    → IsKeyed t
    → IsKeyed (record t { messages = ms; message_seq = message_seq })
with_messages t ms message_seq keyed drawn known h = record {
  users = h.users;
  friendships = h.friendships;
  friend_requests = h.friend_requests;
  room_members = h.room_members;
  messages = keyed;
  numbered = drawn;
  friends = h.friends;
  requesters = h.requesters;
  owners = h.owners;
  joined = h.joined;
  senders = known;
}
