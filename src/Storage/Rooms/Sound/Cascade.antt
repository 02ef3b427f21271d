-- ===== src/Storage/Rooms/Sound/Cascade.antt =====
-- Rooms that are deleted, and their members and messages with them.
use socket_prac.Prelude.{
  ◌≡◌, refl, ◌∙◌, ℤ, Bool, true, false, not, ◌&&◌, List, [], ◌∷◌, Each, Text, ◌==◌, text_eq, int_eq,
  if◌then◌else◌, arith,
}
use socket_prac.Storage.Select.{
  exists, select, exists-select, exists-split, exists-Each, exists-false, Each-select,
  Each-selected, Each-imp, Each-both,
}
use socket_prac.Storage.Tables.{Room, RoomMember, Message, Tables, is_room, is_member}
use socket_prac.Storage.Transaction.Kept.{Maintains}
use socket_prac.Storage.Rooms.{delete_rooms}
use socket_prac.Storage.Rooms.Sound.{Distinct, IsSound}

-- Where no room has the id, none that is selected has it.
none_with :
    (id : ℤ) (p : Room → Bool) (rs : List Room)
    → exists (is_room id) rs ≡ false
    → exists (is_room id) (select p rs) ≡ false
unfolding exists select
none_with id p [] e = refl
none_with id p (r ∷ rs) e = ground (arith, none_with id p rs)

select-Distinct : (p : Room → Bool) (rs : List Room) → Distinct rs → Distinct (select p rs)
unfolding select
select-Distinct p [] d = tt
select-Distinct p (r ∷ rs) d =
    let rest = select-Distinct p rs d.1 in
    elim (p r) as (λ b. Distinct (if b then r ∷ select p rs else select p rs)) [
      | true ↦ (none_with r.id p rs d.0, rest)
      | false ↦ rest
    ]

-- A room that is not selected shares its id with none that is.
apart :
    (p : Room → Bool) (rs : List Room)
    → Distinct rs
    → Each (λ r. not (p r) ≡ true → exists (is_room r.id) (select p rs) ≡ false) rs
unfolding exists select
apart p [] d = tt
apart p (r ∷ rs) d = (
  λ kept. ground (arith, none_with r.id p rs d.0),
  Each-imp _ _ rs (λ (x : Room) h kept. ground (arith, h.0 kept, differ x.id r.id h.1))
      (Each-both _ _ rs (apart p rs d.1) (exists-false (is_room r.id) rs d.0)),
)
  where
    differ : (a b : ℤ) → (a == b) ≡ false → (b == a) ≡ false
    differ a b e = ground (arith, int_eq.equals_iff a b, int_eq.equals_iff b a)

module _ (owner_user_id : Text) (room_id : ℤ) where
  doomed : Room → Bool
  doomed r = r.id == room_id && r.owner_user_id == owner_user_id

  gone : Tables → ℤ → Bool
  gone t id = exists (is_room id) (select doomed t.rooms)

  -- What is left is of a room that is left.
  home_left :
      (t : Tables) (id : ℤ)
      → not (gone t id) ≡ true
      → exists (is_room id) t.rooms ≡ true
      → exists (is_room id) (select (λ r. not (doomed r)) t.rooms) ≡ true
  unfolding gone
  home_left t id left home = ground (arith, exists-split (is_room id) doomed t.rooms)

  delete_rooms-IsSound : (t : Tables) → IsSound t → IsSound (delete_rooms owner_user_id room_id t).1
  unfolding delete_rooms gone doomed
  delete_rooms-IsSound t s = record {
    owners =
        Each-selected _ (λ r. not (doomed r)) t.rooms
          (Each-imp _ _ t.rooms
            (λ (r : Room) h kept.
              exists-select (is_member r.id r.owner_user_id)
                (λ (m : RoomMember). not (gone t m.room_id)) t.room_members
              ∙ exists-Each (is_member r.id r.owner_user_id)
                  (λ m. not (gone t m.room_id) && is_member r.id r.owner_user_id m) t.room_members
                  (member_left t r (h.0 kept) t.room_members) h.1)
            (Each-both _ _ t.rooms (apart doomed t.rooms s.distinct) s.owners));
    homes =
        Each-selected _ (λ (m : RoomMember). not (gone t m.room_id)) t.room_members
          (Each-imp _ _ t.room_members
            (λ (m : RoomMember) home left. home_left t m.room_id left home) s.homes);
    threads =
        Each-selected _ (λ (m : Message). not (gone t m.room_id)) t.messages
          (Each-imp _ _ t.messages (λ (m : Message) home left. home_left t m.room_id left home)
            s.threads);
    drawn = Each-select _ (λ r. not (doomed r)) t.rooms s.drawn;
    numbered = Each-select _ (λ (m : Message). not (gone t m.room_id)) t.messages s.numbered;
    distinct = select-Distinct (λ r. not (doomed r)) t.rooms s.distinct;
  }
    where
      same_room : (t : Tables) (a b : ℤ) → (a == b) ≡ true → gone t b ≡ false → gone t a ≡ false
      same_room t a b e = rw ((int_eq.equals_iff a b).0 e) (λ h. h)

      member_left :
          (t : Tables) (r : Room)
          → gone t r.id ≡ false
          → (ms : List RoomMember)
          → Each
              (λ m.
                is_member r.id r.owner_user_id m ≡ true
                → (not (gone t m.room_id) && is_member r.id r.owner_user_id m) ≡ true)
              ms
      member_left t r h [] = tt
      member_left t r h (m ∷ ms) =
          (λ e. ground (arith, same_room t m.room_id r.id), member_left t r h ms)

  pub delete_rooms-Maintains : Maintains IsSound (delete_rooms owner_user_id room_id)
  unfolding delete_rooms
  delete_rooms-Maintains = record {
    at = λ t s. record {
      kept = delete_rooms-IsSound t s;
      room_seq = omega arith;
      message_seq = omega arith;
    };
  }
