-- ===== src/Storage/Rooms/Sound/Additions.antt =====
-- Rooms that are added to the tables of rooms, with their owners.
use socket_prac.Prelude.{
  ◌≡◌, refl, ◌∙◌, suc, ℤ, pos, true, false, none, some, [], ◌∷◌, ◌++◌, Each-append, Text, text_eq,
  int_eq, inl, inr, Bool-cases, arith, beq_refl,
}
use socket_prac.Core.ErrorCode.{ok}
use socket_prac.Storage.Select.{exists, Each-imp}
use socket_prac.Storage.Tables.{
  Room, owner, RoomMember, Message, Tables, is_room, is_member, has_user, has_room, has_member,
  is_drawn,
}
use socket_prac.Storage.Transaction.{pure}
use socket_prac.Storage.Transaction.Kept.{>>=-some, >>=-none, Advances, Maintains}
use socket_prac.Storage.Rooms.{insert_room, insert_member, add_owner, create_body}
use socket_prac.Storage.Rooms.Sound.{
  IsSound, is_drawn-le, is_drawn-next, not_drawn, Distinct-append, exists-more, exists-last,
}
use socket_prac.Storage.Rooms.Sound.Members.{new_member, with_member, not_member}

module _ (owner_user_id name : Text) where
  pub new_room : Tables → Room
  new_room t = record { id = pos t.room_seq; name = name; owner_user_id = owner_user_id }

  pub with_room : Tables → Tables
  with_room t = record t { rooms = t.rooms ++ new_room t ∷ []; room_seq = suc t.room_seq }

  pub created : Tables → Tables
  created t = with_member (pos t.room_seq) owner_user_id owner (with_room t)

  -- A new room is made together with its owner's membership.
  pub create_body_lem :
      (t : Tables)
      → IsSound t
      → has_user owner_user_id t ≡ true
      → create_body owner_user_id name t ≡ (some (ok (pos t.room_seq)), created t)
  unfolding create_body add_owner insert_room insert_member created with_room new_room with_member
      new_member has_user has_member has_room
  create_body_lem t s known =
      let fresh = not_drawn t.room_seq t.rooms s.drawn in
      let made : insert_room name owner_user_id t ≡ (some (pos t.room_seq ∷ []), with_room t) =
        rw known refl in
      let joined : insert_member (pos t.room_seq) owner_user_id owner (with_room t)
          ≡ (some (owner_user_id ∷ []), created t) =
        rw
          (
            not_member (pos t.room_seq) owner_user_id t.rooms t.room_members s.homes fresh,
            exists-last (is_room (pos t.room_seq)) t.rooms (new_room t) (beq_refl (pos t.room_seq)),
            known,
          )
          refl in
      >>=-some (insert_room name owner_user_id) (add_owner owner_user_id) t (with_room t) _ made
      ∙ >>=-some (insert_member (pos t.room_seq) owner_user_id owner)
          (λ _. pure (ok (pos t.room_seq))) (with_room t) (created t) _ joined

  created-IsSound : (t : Tables) → IsSound t → IsSound (created t)
  unfolding created with_room new_room with_member new_member
  created-IsSound t s =
      let id = pos t.room_seq in
      let fresh = not_drawn t.room_seq t.rooms s.drawn in
      let room = new_room t in
      let more = λ (room_id : ℤ) (e : exists (is_room room_id) t.rooms ≡ true).
        exists-more (is_room room_id) t.rooms (room ∷ []) e in
      record {
        owners =
            Each-append
              (λ r.
                exists (is_member r.id r.owner_user_id)
                  (t.room_members ++ new_member id owner_user_id owner ∷ [])
                ≡ true)
              t.rooms (room ∷ [])
              (Each-imp _ _ t.rooms
                (λ (r : Room) e. exists-more (is_member r.id r.owner_user_id) t.room_members _ e)
                s.owners)
              (
                exists-last (is_member id owner_user_id) t.room_members
                    (new_member id owner_user_id owner)
                    (rw (beq_refl id, beq_refl owner_user_id) refl),
                tt,
              );
        homes =
            Each-append
              (λ (m : RoomMember). exists (is_room m.room_id) (t.rooms ++ room ∷ []) ≡ true)
              t.room_members (new_member id owner_user_id owner ∷ [])
              (Each-imp _ _ t.room_members (λ (m : RoomMember) e. more m.room_id e) s.homes)
              (exists-last (is_room id) t.rooms room (beq_refl id), tt);
        threads = Each-imp _ _ t.messages (λ (m : Message) e. more m.room_id e) s.threads;
        drawn =
            Each-append (λ (r : Room). is_drawn (suc t.room_seq) r.id ≡ true) t.rooms (room ∷ [])
              (Each-imp _ _ t.rooms
                (λ (r : Room) e. is_drawn-le t.room_seq (suc t.room_seq) r.id e (omega arith))
                s.drawn)
              (is_drawn-next t.room_seq, tt);
        numbered = s.numbered;
        distinct = Distinct-append t.rooms room s.distinct fresh;
      }

  created-Advances : (t : Tables) → IsSound t → Advances IsSound t (created t)
  unfolding created with_room with_member
  created-Advances t s = record {
    kept = created-IsSound t s;
    room_seq = omega arith;
    message_seq = omega arith;
  }

  -- A room of an unknown owner is refused, and its id is lost.
  drawn_room : Tables → Tables
  drawn_room t = record t { room_seq = suc t.room_seq }

  refused :
      (t : Tables)
      → has_user owner_user_id t ≡ false
      → create_body owner_user_id name t ≡ (none, drawn_room t)
  unfolding create_body add_owner insert_room drawn_room
  refused t unknown =
      let e : insert_room name owner_user_id t ≡ (none, drawn_room t) = rw unknown refl in
      >>=-none (insert_room name owner_user_id) (add_owner owner_user_id) t (drawn_room t) e

  drawn_room-Advances : (t : Tables) → IsSound t → Advances IsSound t (drawn_room t)
  unfolding drawn_room
  drawn_room-Advances t s = record {
    kept = record {
      owners = s.owners;
      homes = s.homes;
      threads = s.threads;
      drawn =
          Each-imp _ _ t.rooms
            (λ (r : Room) e. is_drawn-le t.room_seq (suc t.room_seq) r.id e (omega arith)) s.drawn;
      numbered = s.numbered;
      distinct = s.distinct;
    };
    room_seq = omega arith;
    message_seq = omega arith;
  }

  pub create_body-Maintains : Maintains IsSound (create_body owner_user_id name)
  create_body-Maintains = record {
    at = λ t s. elim (Bool-cases (has_user owner_user_id t)) [
      | inl known ↦ rw (create_body_lem t s known) (created-Advances t s)
      | inr unknown ↦ rw (refused t unknown) (drawn_room-Advances t s)
    ];
  }
