-- ===== src/Database/Account.antt =====
-- The handlers of src/database/db_executor.cpp for the account: login, register and nick.
use socket_prac.Prelude.{ℤ, Option, none, some, List, [], ◌∷◌, Text, codes, if◌then◌else◌}
use socket_prac.Core.ErrorCode.{Expected, ok, unexpected}
use socket_prac.Reactor.Registry.State.{
  Request, set_user_id_command, set_joined_rooms_command, change_nickname_command,
}
use socket_prac.Database.Service.{DbService}
use socket_prac.Database.Reply.{
  Acts, reply, replies, logged_in, checked, accepted, load_joined_room_ids,
}

-- The three requests that give a connection its identity, in the order of the source.
abbrev pub identity : ℤ → Text → List ℤ → Text → List Request → List Request
identity fd user_id room_ids nickname rest =
    set_user_id_command fd user_id
    ∷ set_joined_rooms_command fd room_ids
    ∷ change_nickname_command fd nickname
    ∷ rest

abbrev pub login_error : ℤ → List Request
login_error fd = reply fd (codes "login failed") ∷ identity fd [] [] (codes "guest") []

module _ {S : Type 0} (db : DbService S) (fd : ℤ) where
  -- The rooms of a user whose password was accepted.
  unfoldable pub login_rooms : Text → Text → Expected (List ℤ) → S → Acts S
  login_rooms id nickname (unexpected ec) s = (login_error fd, s)
  login_rooms id nickname (ok room_ids) s =
      (identity fd id room_ids nickname (reply fd (codes "login success") ∷ []), s)

  unfoldable pub login_answer : Text → Expected (Option Text) → S → Acts S
  unfolding load_joined_room_ids login_rooms
  login_answer id (unexpected ec) s = (login_error fd, s)
  login_answer id (ok none) s =
      (identity fd [] [] (codes "guest") (reply fd (codes "login failed") ∷ []), s)
  login_answer id (ok (some nickname)) s =
      let (joined_room_ids_exp, s') = load_joined_room_ids db id s in
      login_rooms id nickname joined_room_ids_exp s'

  unfoldable pub execute_login : Text → Text → S → Acts S
  unfolding login_answer
  execute_login id pw s = let (login_exp, s') = db.login id pw s in login_answer id login_exp s'

  unfoldable pub execute_register : Text → Text → S → Acts S
  unfolding checked
  execute_register id pw s = checked fd (codes "register failed") (db.signup id pw s) (λ made s'.
      replies fd (if made then codes "register success" else codes "id already exists") s')

  unfoldable pub execute_nick : Text → Text → S → Acts S
  unfolding logged_in checked accepted
  execute_nick nick user_id s = logged_in fd user_id s (
      checked fd (codes "nick change failed") (db.change_nickname user_id nick s) (λ changed s'.
        accepted fd (codes "nick change failed") changed s'
          (change_nickname_command fd nick ∷ reply fd (codes "nick change success") ∷ [], s')))
