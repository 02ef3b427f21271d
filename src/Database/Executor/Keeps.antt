-- ===== src/Database/Executor/Keeps.antt =====
-- Services of include/database/db_service.hpp that keep a property of their state, and the answers that
-- src/database/db_executor.cpp makes of their results.
use socket_prac.Prelude.{
  ℤ, Bool, true, false, Option, none, some, List, [], ◌∷◌, map, Text, codes, text_eq, if◌then◌else◌,
}
use socket_prac.Core.ErrorCode.{Expected, ok, unexpected}
use socket_prac.Core.Number.{parse_room_id}
use socket_prac.Database.Service.{RoomInfo, DbService}
use socket_prac.Database.Reply.{
  Acts, replies, logged_in, checked, accepted, found, with_room_id, load_joined_room_ids,
}

-- Every operation keeps I.
pub record Keeps {S : Type 0} (I : S → Type 0) (db : DbService S) : Type 0 where
  pub login : (id pw : Text) (s : S) → I s → I (db.login id pw s).1
  pub signup : (id pw : Text) (s : S) → I s → I (db.signup id pw s).1
  pub change_nickname : (id nick : Text) (s : S) → I s → I (db.change_nickname id nick s).1
  pub remove_friend : (a b : Text) (s : S) → I s → I (db.remove_friend a b s).1
  pub list_friends : (a : Text) (s : S) → I s → I (db.list_friends a s).1
  pub request_friend : (a b : Text) (s : S) → I s → I (db.request_friend a b s).1
  pub accept_friend_request : (a b : Text) (s : S) → I s → I (db.accept_friend_request a b s).1
  pub reject_friend_request : (a b : Text) (s : S) → I s → I (db.reject_friend_request a b s).1
  pub list_friend_requests : (a : Text) (s : S) → I s → I (db.list_friend_requests a s).1
  pub create_room : (a name : Text) (s : S) → I s → I (db.create_room a name s).1
  pub delete_room : (a : Text) (id : ℤ) (s : S) → I s → I (db.delete_room a id s).1
  pub invite_room : (a : Text) (id : ℤ) (b : Text) (s : S) → I s → I (db.invite_room a id b s).1
  pub create_room_message :
      (id : ℤ) (a text : Text) (s : S) → I s → I (db.create_room_message id a text s).1
  pub leave_room : (a : Text) (id : ℤ) (s : S) → I s → I (db.leave_room a id s).1
  pub list_rooms : (a : Text) (s : S) → I s → I (db.list_rooms a s).1
  pub list_room_messages :
      (a : Text) (id n : ℤ) (s : S) → I s → I (db.list_room_messages a id n s).1

module _ {S : Type 0} (I : S → Type 0) (fd : ℤ) where
  pub logged_in-kept :
      (user_id : Text) (s : S) (rest : Acts S) → I s → I rest.1 → I (logged_in fd user_id s rest).1
  unfolding logged_in
  logged_in-kept [] s rest h k = h
  logged_in-kept (x ∷ xs) s rest h k = k

  pub test-kept :
      (b : Bool) (text : Text) (s : S) (rest : Acts S)
      → I s
      → I rest.1
      → I (if b then replies fd text s else rest).1
  test-kept true text s rest h k = h
  test-kept false text s rest h k = k

  pub checked-kept {ℓ} :
      {A : Type ℓ} (text : Text) (r : Expected A × S) (rest : A → S → Acts S)
      → I r.1
      → ((a : A) (s : S) → I s → I (rest a s).1)
      → I (checked fd text r rest).1
  unfolding checked
  checked-kept text (ok a, s) rest h k = k a s h
  checked-kept text (unexpected ec, s) rest h k = h

  pub accepted-kept :
      (text : Text) (b : Bool) (s : S) (rest : Acts S)
      → I s
      → I rest.1
      → I (accepted fd text b s rest).1
  unfolding accepted
  accepted-kept text true s rest h k = k
  accepted-kept text false s rest h k = h

  pub found-kept {ℓ} :
      {A : Type ℓ} (text : Text) (o : Option A) (s : S) (rest : A → Acts S)
      → I s
      → ((a : A) → I (rest a).1)
      → I (found fd text o s rest).1
  unfolding found
  found-kept text none s rest h k = h
  found-kept text (some a) s rest h k = k a

  pub with_room_id-kept :
      (room_id : Text) (s : S) (rest : ℤ → Acts S)
      → I s
      → ((id : ℤ) → I (rest id).1)
      → I (with_room_id fd room_id s rest).1
  unfolding with_room_id
  with_room_id-kept room_id s rest h k =
      found-kept (codes "invalid room id") (parse_room_id room_id) s rest h k

module _ {S : Type 0} (I : S → Type 0) (db : DbService S) (fd : ℤ) (keeps : Keeps I db) where
  pub loaded-kept : (user_id : Text) (s : S) → I s → I (load_joined_room_ids db user_id s).1
  unfolding load_joined_room_ids
  loaded-kept user_id s h = go (db.list_rooms user_id s) (keeps.list_rooms user_id s h)
    where
      go :
          (r : Expected (List RoomInfo) × S)
          → I r.1
          → I
              (elim r.0 as (λ _. Expected (List ℤ) × S) [
                | unexpected ec ↦ (unexpected ec, r.1)
                | ok rooms ↦ (ok (map (λ (room : RoomInfo). room.id) rooms), r.1)
              ]).1
      go (ok rooms, s') k = k
      go (unexpected ec, s') k = k
