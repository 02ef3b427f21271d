-- ===== src/Reactor/Registry/Rooms.antt =====
-- What the loops over room ids do to the room index.
use socket_prac.Prelude.{
  ℤ, is_pos, ◌≡◌, refl, ◌∙◌, inl, inr, true, false, ◌&&◌, List, [], ◌∷◌, arith, if◌then◌else◌,
  Bool-cases, ◌==◌, int_eq, text_eq, eq_ℤ_iff, beq_refl, Map, contains, insert, contains-insert,
}
use socket_prac.Reactor.Index.{
  indexed, index_insert, index_remove, indexed-index_insert, indexed-index_remove, IsSets,
  index_insert-IsSets, index_remove-IsSets,
}
use socket_prac.Reactor.Registry.State.{remove_rooms, add_rooms}

pub remove_rooms-IsSets :
    (fd : ℤ) (room_ids : List ℤ) (idx : Map ℤ (List ℤ))
    → IsSets idx
    → IsSets (remove_rooms fd room_ids idx)
unfolding remove_rooms
remove_rooms-IsSets fd [] idx s = s
remove_rooms-IsSets fd (r ∷ rs) idx s =
    remove_rooms-IsSets fd rs (index_remove r fd idx) (index_remove-IsSets r fd idx s)

pub add_rooms-IsSets :
    (fd : ℤ) (room_ids joined : List ℤ) (idx : Map ℤ (List ℤ))
    → IsSets idx
    → IsSets (add_rooms fd room_ids joined idx).1
unfolding add_rooms
add_rooms-IsSets fd [] joined idx s = s
add_rooms-IsSets fd (r ∷ rs) joined idx s =
    add_rooms-IsSets fd rs (if is_pos r then insert r joined else joined)
      (if is_pos r then index_insert r fd idx else idx)
      (elim (Bool-cases (is_pos r)) [
        | inl good ↦ rw good (index_insert-IsSets r fd idx s)
        | inr bad ↦ rw bad s
      ])

pub indexed-remove_rooms :
    (fd : ℤ) (room_ids : List ℤ) (idx : Map ℤ (List ℤ)) (room_id fd' : ℤ)
    → indexed room_id fd' (remove_rooms fd room_ids idx)
      ≡ (if (fd == fd') && contains room_id room_ids then false else indexed room_id fd' idx)
unfolding remove_rooms contains
indexed-remove_rooms fd [] idx room_id fd' = ground arith
indexed-remove_rooms fd (r ∷ rs) idx room_id fd' =
    indexed-remove_rooms fd rs (index_remove r fd idx) room_id fd'
    ∙ ground (arith, indexed-index_remove r room_id fd fd' idx)

pub add_rooms_other :
    (fd : ℤ) (room_ids joined : List ℤ) (idx : Map ℤ (List ℤ)) (room_id fd' : ℤ)
    → (fd == fd') ≡ false
    → indexed room_id fd' (add_rooms fd room_ids joined idx).1 ≡ indexed room_id fd' idx
unfolding add_rooms
add_rooms_other fd [] joined idx room_id fd' other = refl
add_rooms_other fd (r ∷ rs) joined idx room_id fd' other =
    add_rooms_other fd rs (if is_pos r then insert r joined else joined)
      (if is_pos r then index_insert r fd idx else idx) room_id fd' other
    ∙ ground (arith, indexed-index_insert r room_id fd fd' idx)

pub add_rooms_self :
    (fd : ℤ) (room_ids joined : List ℤ) (idx : Map ℤ (List ℤ))
    → ((room_id : ℤ) → indexed room_id fd idx ≡ contains room_id joined)
    → (room_id : ℤ)
    → indexed room_id fd (add_rooms fd room_ids joined idx).1
      ≡ contains room_id (add_rooms fd room_ids joined idx).0
unfolding add_rooms
add_rooms_self fd [] joined idx h room_id = h room_id
add_rooms_self fd (r ∷ rs) joined idx h room_id =
    add_rooms_self fd rs (if is_pos r then insert r joined else joined)
      (if is_pos r then index_insert r fd idx else idx)
      (λ k.
        ground
          (arith, indexed-index_insert r k fd fd idx, contains-insert r k joined, h k, beq_refl fd))
      room_id

-- The rooms of a connection after `set_fd_joined_rooms`: the positive ids of the list.
pub contains-add_rooms :
    (fd : ℤ) (room_ids joined : List ℤ) (idx : Map ℤ (List ℤ)) (room_id : ℤ)
    → contains room_id (add_rooms fd room_ids joined idx).0
      ≡ (if contains room_id room_ids && is_pos room_id then true else contains room_id joined)
unfolding add_rooms contains
contains-add_rooms fd [] joined idx room_id = ground arith
contains-add_rooms fd (r ∷ rs) joined idx room_id =
    contains-add_rooms fd rs (if is_pos r then insert r joined else joined)
      (if is_pos r then index_insert r fd idx else idx) room_id
    ∙ ground (arith, contains-insert r room_id joined, eq_ℤ_iff r room_id)
