-- ===== src/Storage/Service/Valid.antt =====
-- The invariant of all tables, for the bodies of the transactions of src/database/db_service.cpp.
use socket_prac.Prelude.{
  some, Bool, true, false, not, List, map, is_empty, ◌==◌, text_eq, inl, inr, Bool-cases, [], ◌∷◌,
  Text, ℕ, ℤ, pos, negsuc, arith, if◌then◌else◌,
}
use socket_prac.Core.ErrorCode.{Expected, ok, unexpected, from_errno, eio}
use socket_prac.Storage.Tables.{Role, Tables, Collation, accepted, member, owner, has_member}
use socket_prac.Storage.Transaction.{Sql, ◌>>=◌, pure, query, Server, Database, run}
use socket_prac.Storage.Transaction.Kept.{
  Advances-refl, Maintains, RollsBack, query-Maintains, >>=-Maintains, run-kept,
}
use socket_prac.Storage.Transaction.Apart.{
  SameRooms, SameFriends, insert_friendship-SameRooms, settle_request-SameRooms,
  insert_room-SameFriends, insert_member-SameFriends, delete_member-SameFriends,
}
use socket_prac.Storage.Users.{any_row}
use socket_prac.Storage.Friends.{
  insert_friendship, settle_request, befriend, accept_body, are_friends,
}
use socket_prac.Storage.Friends.Requests.{IsConsented, IsConsented-RollsBack}
use socket_prac.Storage.Friends.Consent.{accept_body-Maintains}
use socket_prac.Storage.Rooms.{
  insert_room, insert_member, delete_member, select_messages, add_owner, create_body, invite_body,
  leave_unless_owner, leave_body, history_body, select_owner, message_info,
}
use socket_prac.Storage.Rooms.Sound.{IsSound, IsSound-RollsBack}
use socket_prac.Storage.Rooms.Sound.Members.{insert_member-Maintains}
use socket_prac.Storage.Rooms.Sound.Additions.{create_body-Maintains}
use socket_prac.Storage.Rooms.Sound.Deletions.{leave_body-Maintains}
use socket_prac.Storage.Keys.{IsKeyed, IsKeyed-RollsBack}
use socket_prac.Storage.Keys.Statements.{
  insert_friendship-IsKeyed, settle_request-IsKeyed, insert_room-IsKeyed, insert_member-IsKeyed,
  delete_member-IsKeyed,
}
use socket_prac.Database.Service.{
  left, not_member_or_room_not_found, owner_cannot_leave, invited, already_member,
}

-- The invariants of the rooms, of the friendships, and of the keys and the references to users.
pub record IsValid (c : Collation) (t : Tables) : Type 0 where
  pub sound : IsSound t
  pub consented : IsConsented c t
  pub keyed : IsKeyed t

-- What leaves the rooms alone keeps them sound.
pub IsSound-of_same :
    {A : Type 0} (m : Sql A) → ((t : Tables) → SameRooms t (m t).1) → Maintains IsSound m
IsSound-of_same {A} m same = record {
  at = λ t h. record {
    kept = moved t (m t).1 (same t) h;
    room_seq = omega (arith, (same t).room_seq);
    message_seq = omega (arith, (same t).message_seq);
  };
}
  where
    moved : (t t' : Tables) → SameRooms t t' → IsSound t → IsSound t'
    moved t t' s h = record {
      owners = rw (s.rooms, s.room_members) h.owners;
      homes = rw (s.rooms, s.room_members) h.homes;
      threads = rw (s.rooms, s.messages) h.threads;
      drawn = rw (s.rooms, s.room_seq) h.drawn;
      numbered = rw (s.messages, s.message_seq) h.numbered;
      distinct = rw s.rooms h.distinct;
    }

if-Maintains :
    {I : Tables → Type 0} {A : Type 0} (b : Bool) {m n : Sql A}
    → Maintains I m
    → Maintains I n
    → Maintains I (if b then m else n)
if-Maintains true p q = p
if-Maintains false p q = q

module _ (c : Collation) where
  pub consent_of_same :
      {A : Type 0} (m : Sql A)
      → ((t : Tables) → SameFriends t (m t).1)
      → Maintains (IsConsented c) m
  consent_of_same {A} m same = record {
    at = λ t h. record {
      kept = moved t (m t).1 (same t) h;
      room_seq = (same t).room_seq;
      message_seq = (same t).message_seq;
    };
  }
    where
      moved : (t t' : Tables) → SameFriends t t' → IsConsented c t → IsConsented c t'
      moved t t' s h = record {
        consent = rw (s.friendships, s.friend_requests) h.consent;
        ordered = rw s.friendships h.ordered;
      }

  IsValid-RollsBack : RollsBack (IsValid c)
  IsValid-RollsBack = record {
    rolls = λ t t' h r m. record {
      sound = IsSound-RollsBack.rolls t t' h.sound r m;
      consented = (IsConsented-RollsBack c).rolls t t' h.consented r m;
      keyed = IsKeyed-RollsBack.rolls t t' h.keyed r m;
    };
  }

  pub together :
      {A : Type 0} {m : Sql A}
      → Maintains IsSound m
      → Maintains (IsConsented c) m
      → Maintains IsKeyed m
      → Maintains (IsValid c) m
  together p q k = record {
    at = λ t h.
        let a = p.at t h.sound in
        record {
          kept = record {
            sound = a.kept;
            consented = (q.at t h.consented).kept;
            keyed = (k.at t h.keyed).kept;
          };
          room_seq = a.room_seq;
          message_seq = a.message_seq;
        };
  }

  -- A statement and the answer that is made of its rows.
  pub answered :
      {A B : Type 0} (m : Sql A) (f : A → B)
      → Maintains (IsValid c) m
      → Maintains (IsValid c) (m >>= λ a. pure (f a))
  answered m f p = >>=-Maintains m (λ a. pure (f a)) p (λ a. query-Maintains (λ _. f a))

  insert_member-valid :
      (room_id : ℤ) (user_id : Text) (role : Role)
      → Maintains (IsValid c) (insert_member room_id user_id role)
  insert_member-valid room_id user_id role =
      together (insert_member-Maintains room_id user_id role)
        (consent_of_same (insert_member room_id user_id role)
          (insert_member-SameFriends room_id user_id role))
        (insert_member-IsKeyed room_id user_id role)

  -- What befriends after a request is settled, for an invariant that the insert keeps.
  befriend-Maintains :
      {I : Tables → Type 0} (a b : Text) (rows : List Text)
      → Maintains I (insert_friendship c a b)
      → Maintains I (befriend c a b rows)
  unfolding befriend
  befriend-Maintains a b rows inserts =
      if-Maintains (is_empty rows) (query-Maintains (λ _. ok false)) (
        >>=-Maintains (insert_friendship c a b) (λ _. pure (ok true)) inserts
          (λ _. query-Maintains (λ _. ok true)))

  -- What makes the owner of a new room a member, for an invariant that the insert keeps.
  add_owner-Maintains :
      {I : Tables → Type 0} (a : Text) (rows : List ℤ)
      → ((id : ℤ) → Maintains I (insert_member id a owner))
      → Maintains I (add_owner a rows)
  unfolding add_owner
  add_owner-Maintains a [] inserts = query-Maintains (λ _. unexpected (from_errno eio))
  add_owner-Maintains a (id ∷ ids) inserts =
      >>=-Maintains (insert_member id a owner) (λ _. pure (ok id)) (inserts id)
        (λ _. query-Maintains (λ _. ok id))

  -- What lets a user leave a room, for an invariant that the delete keeps.
  leave_unless_owner-Maintains :
      {I : Tables → Type 0} (a : Text) (id : ℤ) (owners : List Text)
      → Maintains I (delete_member id a)
      → Maintains I (leave_unless_owner a id owners)
  unfolding leave_unless_owner
  leave_unless_owner-Maintains a id [] deletes =
      query-Maintains (λ _. ok not_member_or_room_not_found)
  leave_unless_owner-Maintains a id (o ∷ os) deletes =
      if-Maintains (o == a) (query-Maintains (λ _. ok owner_cannot_leave)) (
        >>=-Maintains (delete_member id a)
          (λ rows. pure (ok (if is_empty rows then not_member_or_room_not_found else left))) deletes
          (λ rows.
            query-Maintains
              (λ _. ok (if is_empty rows then not_member_or_room_not_found else left))))

  pub accept-valid : (now : ℕ) (a b : Text) → Maintains (IsValid c) (accept_body c now a b)
  unfolding accept_body
  accept-valid now a b =
      together
        (>>=-Maintains (settle_request now accepted a b) (befriend c a b)
          (IsSound-of_same (settle_request now accepted a b)
            (settle_request-SameRooms now accepted a b))
          (λ rows.
            befriend-Maintains a b rows
              (IsSound-of_same (insert_friendship c a b) (insert_friendship-SameRooms c a b))))
        (accept_body-Maintains c now a b)
        (>>=-Maintains (settle_request now accepted a b) (befriend c a b)
          (settle_request-IsKeyed now accepted a b)
          (λ rows. befriend-Maintains a b rows (insert_friendship-IsKeyed c a b)))

  pub create-valid : (a name : Text) → Maintains (IsValid c) (create_body a name)
  unfolding create_body
  create-valid a name =
      together (create_body-Maintains a name)
        (>>=-Maintains (insert_room name a) (add_owner a)
          (consent_of_same (insert_room name a) (insert_room-SameFriends name a))
          (λ rows. add_owner-Maintains a rows (λ id.
            consent_of_same (insert_member id a owner) (insert_member-SameFriends id a owner))))
        (>>=-Maintains (insert_room name a) (add_owner a) (insert_room-IsKeyed name a)
          (λ rows. add_owner-Maintains a rows (λ id. insert_member-IsKeyed id a owner)))

  pub leave-valid : (a : Text) (id : ℤ) → Maintains (IsValid c) (leave_body a id)
  unfolding leave_body
  leave-valid a id =
      together (leave_body-Maintains a id)
        (>>=-Maintains (query (select_owner id)) (leave_unless_owner a id)
          (query-Maintains (select_owner id))
          (λ owners.
            leave_unless_owner-Maintains a id owners
              (consent_of_same (delete_member id a) (delete_member-SameFriends id a))))
        (>>=-Maintains (query (select_owner id)) (leave_unless_owner a id)
          (query-Maintains (select_owner id))
          (λ owners. leave_unless_owner-Maintains a id owners (delete_member-IsKeyed id a)))

module _ (server : Server) where
  pub run_valid :
      {A : Type 0} (body : Sql (Expected A)) (db : Database)
      → Maintains (IsValid server.collation) body
      → IsValid server.collation db.tables
      → IsValid server.collation (run server body db).1.tables
  run_valid body db m h = run-kept (IsValid-RollsBack server.collation) server body db m h

  pub invite-valid :
      (a : Text) (id : ℤ) (b : Text)
      → Maintains (IsValid server.collation) (invite_body server a id b)
  unfolding invite_body
  invite-valid a id b = record {
    at = λ t h. elim (Bool-cases (has_member id a t)) [
      | inr stranger ↦ rw stranger (Advances-refl h)
      | inl in_room ↦ rw in_room (elim (Bool-cases (are_friends server.collation a b t)) [
        | inr apart ↦ rw apart (Advances-refl h)
        | inl friends ↦ rw friends (
            (answered server.collation (insert_member id b member)
                (λ insert_rows. ok (if is_empty insert_rows then already_member else invited))
                (insert_member-valid server.collation id b member)).at
              t h)
      ])
    ];
  }

  select_messages-valid : (id n : ℤ) → Maintains (IsValid server.collation) (select_messages id n)
  unfolding select_messages
  select_messages-valid id (pos n) = record { at = λ t h. Advances-refl h }
  select_messages-valid id (negsuc n) = record { at = λ t h. Advances-refl h }

  pub history-valid :
      (a : Text) (id n : ℤ) → Maintains (IsValid server.collation) (history_body server a id n)
  unfolding history_body
  history-valid a id n = record {
    at = λ t h. elim (Bool-cases (has_member id a t)) [
      | inr stranger ↦ rw stranger (Advances-refl h)
      | inl in_room ↦ rw in_room (
          (answered server.collation (select_messages id n)
              (λ rows. ok (some (map (message_info server.timestamp) rows)))
              (select_messages-valid id n)).at
            t h)
    ];
  }

  pub any-valid :
      {A : Type 0} (m : Sql (List A))
      → Maintains (IsValid server.collation) m
      → Maintains (IsValid server.collation) (m >>= any_row)
  any-valid m p = answered server.collation m (λ rows. ok (not (is_empty rows))) p
