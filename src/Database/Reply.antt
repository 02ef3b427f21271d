-- ===== src/Database/Reply.antt =====
-- The tests and replies that the handlers of src/database/db_executor.cpp repeat. A handler returns
-- the requests it puts on the queue of the registry, in order, and the state of the database.
pub mod Cases
use socket_prac.Prelude.{
  ℤ, Bool, not, Option, none, some, List, [], ◌∷◌, map, Text, codes, is_empty, if◌then◌else◌,
}
use socket_prac.Core.ErrorCode.{Expected, ok, unexpected}
use socket_prac.Core.Number.{parse_room_id}
use socket_prac.Protocol.Codec.{cmd_response}
use socket_prac.Reactor.Registry.State.{Request, send_one_command}
use socket_prac.Database.Service.{RoomInfo, DbService}

abbrev pub Acts : Type 0 → Type 0
Acts S = List Request × S

-- `reg.request_send(fd, cmd_response{text})`
abbrev pub reply : ℤ → Text → Request
reply fd text = send_one_command fd (cmd_response text)

module _ {S : Type 0} where
  abbrev pub replies : ℤ → Text → S → Acts S
  replies fd text s = (reply fd text ∷ [], s)

  -- `if(user_id.empty()){ … "login first"; return; }`
  unfoldable pub logged_in : ℤ → Text → S → Acts S → Acts S
  logged_in fd user_id s rest =
      if is_empty user_id then replies fd (codes "login first") s else rest

  -- `if(!exp){ … text; return; }`
  unfoldable pub checked {ℓ} : {A : Type ℓ} → ℤ → Text → Expected A × S → (A → S → Acts S) → Acts S
  checked fd text (ok a, s) rest = rest a s
  checked fd text (unexpected ec, s) rest = replies fd text s

  -- `if(!*exp){ … text; return; }`
  unfoldable pub accepted : ℤ → Text → Bool → S → Acts S → Acts S
  accepted fd text b s rest = if not b then replies fd text s else rest

  unfoldable pub found {ℓ} : {A : Type ℓ} → ℤ → Text → Option A → S → (A → Acts S) → Acts S
  found fd text none s rest = replies fd text s
  found fd text (some a) s rest = rest a

  -- The number that `stoll` reads, which must be a positive room id.
  unfoldable pub with_room_id : ℤ → Text → S → (ℤ → Acts S) → Acts S
  unfolding found
  with_room_id fd room_id s rest = found fd (codes "invalid room id") (parse_room_id room_id) s rest

  unfoldable pub load_joined_room_ids : DbService S → Text → S → Expected (List ℤ) × S
  load_joined_room_ids db user_id s =
      let (list_rooms_exp, s') = db.list_rooms user_id s in
      elim list_rooms_exp [
        | unexpected ec ↦ (unexpected ec, s')
        | ok rooms ↦ (ok (map (λ (room : RoomInfo). room.id) rooms), s')
      ]
