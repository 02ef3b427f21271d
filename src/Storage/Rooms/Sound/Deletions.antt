-- ===== src/Storage/Rooms/Sound/Deletions.antt =====
-- Members that leave a room.
-- Members that leave a room.
use socket_prac.Prelude.{
  ◌≡◌, refl, ap, ◌∙◌, ℤ, true, false, not, ◌&&◌, List, [], ◌∷◌, Each, Text, map, take, ◌==◌,
  text_eq, int_eq, inl, inr, Bool-cases, arith,
}
use socket_prac.Storage.Select.{
  exists, select, exists-select, exists-Each, exists-false, Each-select, Each-imp, Each-both,
}
use socket_prac.Storage.Tables.{Room, RoomMember, Tables, is_room, is_member}
use socket_prac.Storage.Transaction.Kept.{Advances, Advances-refl, Maintains}
use socket_prac.Storage.Rooms.{delete_member, select_owner, leave_unless_owner, leave_body}
use socket_prac.Storage.Rooms.Sound.{Distinct, IsSound}

-- Members that leave a room.
owner_of :
    (room_id : ℤ) (owner_user_id : Text) (rest : List Text) (rs : List Room)
    → Distinct rs
    → take 1 (map (λ (r : Room). r.owner_user_id) (select (is_room room_id) rs))
      ≡ owner_user_id ∷ rest
    → Each (λ (r : Room). (r.id == room_id) ≡ true → r.owner_user_id ≡ owner_user_id) rs
unfolding exists select
owner_of room_id owner_user_id rest [] d e = tt
owner_of room_id owner_user_id rest (r ∷ rs) d e = elim (Bool-cases (r.id == room_id)) [
  | inl same ↦ (
    λ _. ground arith,
    Each-imp _ _ rs (λ (x : Room) other it. absurd (differ r.id x.id other same it))
        (exists-false (is_room r.id) rs d.0),
  )
  | inr other ↦ (λ it. ground arith, owner_of room_id owner_user_id rest rs d.1 (rw other at e))
]
  where
    differ : (a b : ℤ) → (b == a) ≡ false → (a == room_id) ≡ true → (b == room_id) ≡ true → ⊥
    differ a b h p q =
        ground
          (arith, int_eq.equals_iff a room_id, int_eq.equals_iff b room_id, int_eq.equals_iff b a)

module _ (user_id : Text) (room_id : ℤ) where
  left_behind : Tables → Tables
  left_behind t = record t {
    room_members = select (λ m. not (is_member room_id user_id m)) t.room_members;
  }

  -- A member that does not own the room may go.
  left_behind-IsSound :
      (t : Tables)
      → Each (λ (r : Room). (r.id == room_id) ≡ true → (r.owner_user_id == user_id) ≡ false) t.rooms
      → IsSound t
      → IsSound (left_behind t)
  unfolding left_behind
  left_behind-IsSound t others s = record {
    owners =
        Each-imp _ _ t.rooms
          (λ (r : Room) h.
            exists-select (is_member r.id r.owner_user_id) (λ m. not (is_member room_id user_id m))
              t.room_members
            ∙ exists-Each (is_member r.id r.owner_user_id)
                (λ m. not (is_member room_id user_id m) && is_member r.id r.owner_user_id m)
                t.room_members (stays r.id r.owner_user_id h.0 t.room_members) h.1)
          (Each-both _ _ t.rooms others s.owners);
    homes = Each-select _ (λ m. not (is_member room_id user_id m)) t.room_members s.homes;
    threads = s.threads;
    drawn = s.drawn;
    numbered = s.numbered;
    distinct = s.distinct;
  }
    where
      stays :
          (id : ℤ) (owner_user_id : Text)
          → ((id == room_id) ≡ true → (owner_user_id == user_id) ≡ false)
          → (ms : List RoomMember)
          → Each
              (λ m.
                is_member id owner_user_id m ≡ true
                → (not (is_member room_id user_id m) && is_member id owner_user_id m) ≡ true)
              ms
      stays id owner_user_id h [] = tt
      stays id owner_user_id h (m ∷ ms) = (
        λ e. ground (
          arith,
          h,
          int_eq.equals_iff m.room_id id,
          int_eq.equals_iff m.room_id room_id,
          int_eq.equals_iff id room_id,
          text_eq.equals_iff m.user_id owner_user_id,
          text_eq.equals_iff m.user_id user_id,
          text_eq.equals_iff owner_user_id user_id,
        ),
        stays id owner_user_id h ms,
      )

  leave_unless_owner-kept :
      (owners : List Text) (t : Tables)
      → select_owner room_id t ≡ owners
      → IsSound t
      → Advances IsSound t (leave_unless_owner user_id room_id owners t).1
  unfolding leave_unless_owner delete_member left_behind select_owner
  leave_unless_owner-kept [] t e s = Advances-refl s
  leave_unless_owner-kept (o ∷ os) t e s = elim (Bool-cases (o == user_id)) [
    | inl own ↦ rw own (Advances-refl s)
    | inr other ↦ rw other (record {
      kept = left_behind-IsSound t (others o other os t e s) s;
      room_seq = omega arith;
      message_seq = omega arith;
    })
  ]
    where
      others :
          (o : Text)
          → (o == user_id) ≡ false
          → (os : List Text) (t : Tables)
          → take 1 (map (λ (r : Room). r.owner_user_id) (select (is_room room_id) t.rooms)) ≡ o ∷ os
          → IsSound t
          → Each
              (λ (r : Room). (r.id == room_id) ≡ true → (r.owner_user_id == user_id) ≡ false)
              t.rooms
      others o other os t e s =
          Each-imp _ _ t.rooms (λ (r : Room) own it. ap (λ w. w == user_id) (own it) ∙ other)
            (owner_of room_id o os t.rooms s.distinct e)

  pub leave_body-Maintains : Maintains IsSound (leave_body user_id room_id)
  unfolding leave_body
  leave_body-Maintains = record {
    at = λ t s. leave_unless_owner-kept (select_owner room_id t) t refl s;
  }
