-- ===== src/Storage/Rooms/Sound/Members.antt =====
-- Members and messages that are added to the tables of rooms.
use socket_prac.Prelude.{
  ◌≡◌, refl, sym, ℕ, suc, ℤ, pos, true, false, List, [], ◌∷◌, ◌++◌, Each, Each-append, Text,
  text_eq, int_eq, inl, inr, Bool-cases, arith,
}
use socket_prac.Storage.Select.{exists, Each-imp}
use socket_prac.Storage.Tables.{
  Room, Role, RoomMember, Message, Tables, is_room, is_member, has_user, has_room, has_member,
  is_drawn,
}
use socket_prac.Storage.Transaction.Kept.{Advances-refl, Maintains}
use socket_prac.Storage.Rooms.{insert_member, insert_message}
use socket_prac.Storage.Rooms.Sound.{IsSound, is_drawn-le, is_drawn-next, exists-more}

-- A row is added for a member of a room that exists.
module _ (room_id : ℤ) (user_id : Text) (role : Role) where
  unfoldable pub new_member : RoomMember
  new_member = record { room_id = room_id; user_id = user_id; role = role }

  unfoldable pub with_member : Tables → Tables
  with_member t = record t { room_members = t.room_members ++ new_member ∷ [] }

  with_member-IsSound :
      (t : Tables) → has_room room_id t ≡ true → IsSound t → IsSound (with_member t)
  unfolding with_member new_member has_room
  with_member-IsSound t home s = record {
    owners =
        Each-imp _ _ t.rooms
          (λ (r : Room) e. exists-more (is_member r.id r.owner_user_id) t.room_members _ e)
          s.owners;
    homes =
        Each-append (λ (m : RoomMember). exists (is_room m.room_id) t.rooms ≡ true) t.room_members
          (new_member ∷ []) s.homes (home, tt);
    threads = s.threads;
    drawn = s.drawn;
    numbered = s.numbered;
    distinct = s.distinct;
  }

  pub insert_member-Maintains : Maintains IsSound (insert_member room_id user_id role)
  unfolding insert_member with_member new_member
  insert_member-Maintains = record {
    at = λ t s. elim (Bool-cases (has_member room_id user_id t)) [
      | inl there ↦ rw there (Advances-refl s)
      | inr new ↦ rw new (elim (Bool-cases (has_room room_id t)) [
        | inl home ↦ rw home (elim (Bool-cases (has_user user_id t)) [
          | inl known ↦ rw known (record {
            kept = with_member-IsSound t home s;
            room_seq = omega arith;
            message_seq = omega arith;
          })
          | inr unknown ↦ rw unknown (Advances-refl s)
        ])
        | inr homeless ↦ rw homeless (Advances-refl s)
      ])
    ];
  }

-- A message of a room that exists.
module _ (now : ℕ) (room_id : ℤ) (sender_user_id body : Text) where
  drawn-IsSound : (t : Tables) → IsSound t → IsSound (record t { message_seq = suc t.message_seq })
  drawn-IsSound t s = record {
    owners = s.owners;
    homes = s.homes;
    threads = s.threads;
    drawn = s.drawn;
    numbered =
        Each-imp _ _ t.messages
          (λ (m : Message) e. is_drawn-le t.message_seq (suc t.message_seq) m.id e (omega arith))
          s.numbered;
    distinct = s.distinct;
  }

  with_message-IsSound :
      (t : Tables) (m : Message)
      → exists (is_room m.room_id) t.rooms ≡ true
      → m.id ≡ pos t.message_seq
      → IsSound t
      → IsSound (record t { messages = t.messages ++ m ∷ []; message_seq = suc t.message_seq })
  with_message-IsSound t m home id s =
      let d = drawn-IsSound t s in
      record {
        owners = s.owners;
        homes = s.homes;
        threads =
            Each-append (λ (m : Message). exists (is_room m.room_id) t.rooms ≡ true) t.messages
              (m ∷ []) s.threads (home, tt);
        drawn = s.drawn;
        numbered =
            Each-append (λ (m : Message). is_drawn (suc t.message_seq) m.id ≡ true) t.messages
              (m ∷ []) d.numbered (rw id (is_drawn-next t.message_seq), tt);
        distinct = s.distinct;
      }

  pub insert_message-Maintains : Maintains IsSound (insert_message now room_id sender_user_id body)
  unfolding insert_message has_room
  insert_message-Maintains = record {
    at = λ t s. elim (Bool-cases (has_member room_id sender_user_id t)) [
      | inr stranger ↦ rw stranger (Advances-refl s)
      | inl in_room ↦ rw in_room (elim (Bool-cases (has_room room_id t)) [
        | inr homeless ↦
            rw homeless (record {
              kept = drawn-IsSound t s;
              room_seq = omega arith;
              message_seq = omega arith;
            })
        | inl home ↦ rw home (elim (Bool-cases (has_user sender_user_id t)) [
          | inr unknown ↦ rw unknown (record {
            kept = drawn-IsSound t s;
            room_seq = omega arith;
            message_seq = omega arith;
          })
          | inl known ↦ rw known (record {
            kept = with_message-IsSound t _ home refl s;
            room_seq = omega arith;
            message_seq = omega arith;
          })
        ])
      ])
    ];
  }

-- A room that does not exist has no member.
pub not_member :
    (id : ℤ) (user_id : Text) (rooms : List Room) (members : List RoomMember)
    → Each (λ (m : RoomMember). exists (is_room m.room_id) rooms ≡ true) members
    → exists (is_room id) rooms ≡ false
    → exists (is_member id user_id) members ≡ false
unfolding exists
not_member id user_id rooms [] h e = refl
not_member id user_id rooms (m ∷ ms) h e = ground (
  arith,
  not_member id user_id rooms ms h.1 e,
  int_eq.equals_iff m.room_id id,
  λ (same : m.room_id ≡ id). same_room m.room_id same h.0,
)
  where
    same_room :
        (room_id : ℤ)
        → room_id ≡ id
        → exists (is_room room_id) rooms ≡ true
        → exists (is_room id) rooms ≡ true
    same_room room_id same home = rw (sym same) home
