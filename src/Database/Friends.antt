-- ===== src/Database/Friends.antt =====
-- The handlers of src/database/db_executor.cpp for friends and friend requests.
use socket_prac.Prelude.{
  ℤ, [], ◌∷◌, ◌++◌, map, Text, codes, is_empty, length, ◌==◌, text_eq, if◌then◌else◌,
}
use socket_prac.Core.Number.{to_string_ℕ}
use socket_prac.Reactor.Registry.State.{send_friend_list_command}
use socket_prac.Database.Service.{DbService}
use socket_prac.Database.Reply.{Acts, reply, replies, logged_in, checked, accepted}

module _ {S : Type 0} (db : DbService S) (fd : ℤ) where
  unfoldable pub execute_friend_request : Text → Text → S → Acts S
  unfolding logged_in checked accepted
  execute_friend_request to_user_id user_id s = logged_in fd user_id s (
      if user_id == to_user_id
      then replies fd (codes "cannot request yourself") s
      else checked fd (codes "friend request failed") (db.request_friend user_id to_user_id s)
          (λ made s'.
            accepted fd (codes "friend request already exists or already friends") made s'
              (replies fd (codes "friend request sent") s')))

  unfoldable pub execute_friend_accept : Text → Text → S → Acts S
  unfolding logged_in checked accepted
  execute_friend_accept from_user_id user_id s = logged_in fd user_id s (
      checked fd (codes "friend request accept failed")
        (db.accept_friend_request from_user_id user_id s)
        (λ done s'.
          accepted fd (codes "no pending friend request") done s'
            (replies fd (codes "friend request accepted") s')))

  unfoldable pub execute_friend_reject : Text → Text → S → Acts S
  unfolding logged_in checked accepted
  execute_friend_reject from_user_id user_id s = logged_in fd user_id s (
      checked fd (codes "friend request reject failed")
        (db.reject_friend_request from_user_id user_id s)
        (λ done s'.
          accepted fd (codes "no pending friend request") done s'
            (replies fd (codes "friend request rejected") s')))

  unfoldable pub execute_friend_remove : Text → Text → S → Acts S
  unfolding logged_in checked accepted
  execute_friend_remove friend_user_id user_id s = logged_in fd user_id s (
      if user_id == friend_user_id
      then replies fd (codes "cannot remove yourself") s
      else checked fd (codes "friend remove failed") (db.remove_friend user_id friend_user_id s)
          (λ done s'.
            accepted fd (codes "friend not found") done s'
              (replies fd (codes "friend removed") s')))

  unfoldable pub execute_list_friend : Text → S → Acts S
  unfolding logged_in checked
  execute_list_friend user_id s = logged_in fd user_id s (
      checked fd (codes "friend list failed") (db.list_friends user_id s) (λ friends s'.
        if is_empty friends
        then replies fd (codes "no friends") s'
        else (send_friend_list_command fd friends ∷ [], s')))

  unfoldable pub execute_list_friend_request : Text → S → Acts S
  unfolding logged_in checked
  execute_list_friend_request user_id s = logged_in fd user_id s (
      checked fd (codes "friend requests list failed") (db.list_friend_requests user_id s)
        (λ from_user_ids s'.
          if is_empty from_user_ids then replies fd (codes "no pending friend requests") s' else (
            reply fd (codes "pending friend requests: " ++ to_string_ℕ (length from_user_ids))
                ∷ map (λ from_user_id. reply fd (codes "from: " ++ from_user_id)) from_user_ids,
            s',
          )))
