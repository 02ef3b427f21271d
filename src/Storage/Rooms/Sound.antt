-- ===== src/Storage/Rooms/Sound.antt =====
-- The invariant of the tables of rooms, and the statements that add to them.
pub mod Members
pub mod Additions
pub mod Cascade
pub mod Deletions
use socket_prac.Prelude.{
  ◌≡◌, refl, sym, ap, ◌∙◌, ℕ, suc, ◌≤◌, ℤ, pos, negsuc, Bool, true, false, not, ◌&&◌, ◌||◌, Option,
  none, some, List, [], ◌∷◌, ◌++◌, Each, Each-append, Text, ltb, ◌==◌, text_eq, int_eq,
  if◌then◌else◌, inl, inr, Bool-cases, arith, beq_refl,
}
use socket_prac.Core.ErrorCode.{ok}
use socket_prac.Storage.Select.{exists, exists-append, exists-imp, exists-Each, Each-imp}
use socket_prac.Storage.Tables.{
  User, Room, Role, owner, RoomMember, Message, Tables, is_user, is_room, is_member, has_user,
  has_room, has_member, is_drawn,
}
use socket_prac.Storage.Transaction.{Sql, roll_back}
use socket_prac.Storage.Transaction.Kept.{
  Advances, Advances-refl, Maintains, RollsBack, query-Maintains, >>=-Maintains,
}
use socket_prac.Storage.Rooms.{insert_room, insert_member, insert_message, create_body}

-- No two rooms have the same id.
abbrev pub Distinct : List Room → Type 0
Distinct [] = Unit
Distinct (r ∷ rs) = (exists (is_room r.id) rs ≡ false) × Distinct rs

-- The owner of a room is one of its members; members and messages are of rooms that exist; ids are
-- handed out once.
pub record IsSound (t : Tables) : Type 0 where
  pub owners : Each (λ r. exists (is_member r.id r.owner_user_id) t.room_members ≡ true) t.rooms
  pub homes : Each (λ (m : RoomMember). exists (is_room m.room_id) t.rooms ≡ true) t.room_members
  pub threads : Each (λ (m : Message). exists (is_room m.room_id) t.rooms ≡ true) t.messages
  pub drawn : Each (λ (r : Room). is_drawn t.room_seq r.id ≡ true) t.rooms
  pub numbered : Each (λ (m : Message). is_drawn t.message_seq m.id ≡ true) t.messages
  pub distinct : Distinct t.rooms

pub is_drawn-le : (m n : ℕ) (id : ℤ) → is_drawn m id ≡ true → (k : m ≤ n) → is_drawn n id ≡ true
is_drawn-le m n (pos i) h k = ground arith
is_drawn-le m n (negsuc i) h k = ground arith

pub is_drawn-next : (n : ℕ) → is_drawn (suc n) (pos n) ≡ true
is_drawn-next n = ground arith

pub IsSound-RollsBack : RollsBack IsSound
unfolding roll_back
IsSound-RollsBack = record {
  rolls = λ t t' s r m. record {
    owners = s.owners;
    homes = s.homes;
    threads = s.threads;
    drawn =
        Each-imp _ _ t.rooms (λ (x : Room) e. is_drawn-le t.room_seq t'.room_seq x.id e r) s.drawn;
    numbered =
        Each-imp _ _ t.messages
          (λ (x : Message) e. is_drawn-le t.message_seq t'.message_seq x.id e m) s.numbered;
    distinct = s.distinct;
  };
}

-- No room has the id that comes next.
pub not_drawn :
    (n : ℕ) (rooms : List Room)
    → Each (λ (r : Room). is_drawn n r.id ≡ true) rooms
    → exists (is_room (pos n)) rooms ≡ false
unfolding exists
not_drawn n [] h = refl
not_drawn n (r ∷ rs) h = ground (arith, not_drawn n rs h.1, drawn_ne n r.id h.0)
  where
    drawn_ne : (n : ℕ) (id : ℤ) → is_drawn n id ≡ true → (id == pos n) ≡ false
    drawn_ne n (pos i) h = ground arith
    drawn_ne n (negsuc i) h = ground arith

pub Distinct-append :
    (rs : List Room) (r : Room)
    → Distinct rs
    → exists (is_room r.id) rs ≡ false
    → Distinct (rs ++ r ∷ [])
unfolding exists
Distinct-append [] r d e = (refl, tt)
Distinct-append (x ∷ xs) r d e = (
  exists-append (is_room x.id) xs (r ∷ [])
      ∙ ground (arith, int_eq.equals_iff r.id x.id, int_eq.equals_iff x.id r.id),
  Distinct-append xs r d.1 (ground arith),
)

-- More rows do not take a row away.
pub exists-more :
    {A : Type 0} (p : A → Bool) (xs ys : List A) → exists p xs ≡ true → exists p (xs ++ ys) ≡ true
exists-more p xs ys e = exists-append p xs ys ∙ ground arith

pub exists-last :
    {A : Type 0} (p : A → Bool) (xs : List A) (y : A) → p y ≡ true → exists p (xs ++ y ∷ []) ≡ true
unfolding exists
exists-last p xs y e = exists-append p xs (y ∷ []) ∙ ground arith
