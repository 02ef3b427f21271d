-- ===== src/Database/Reply/Cases.antt =====
-- How a statement on what a handler returns follows from its branches: the replies that the tests
-- end with, and what comes after the tests.
use socket_prac.Prelude.{
  ℤ, ◌≡◌, refl, Bool, true, false, Option, none, some, [], ◌∷◌, Text, codes, is_empty,
  if◌then◌else◌,
}
use socket_prac.Core.ErrorCode.{Expected, ok, unexpected}
use socket_prac.Core.Number.{parse_room_id}
use socket_prac.Database.Reply.{Acts, replies, logged_in, checked, accepted, found, with_room_id}

module _ {ℓ} {S : Type 0} (fd : ℤ) (Q : Acts S → Type ℓ)
    (at_reply : (text : Text) (s : S) → Q (replies fd text s)) where
  pub logged_in-cases :
      (user_id : Text) (s : S) (rest : Acts S)
      → (is_empty user_id ≡ false → Q rest)
      → Q (logged_in fd user_id s rest)
  unfolding logged_in
  logged_in-cases [] s rest k = at_reply (codes "login first") s
  logged_in-cases (x ∷ xs) s rest k = k refl

  pub test-cases :
      (b : Bool) (text : Text) (s : S) (rest : Acts S)
      → (b ≡ false → Q rest)
      → Q (if b then replies fd text s else rest)
  test-cases true text s rest k = at_reply text s
  test-cases false text s rest k = k refl

  pub checked-cases {κ} :
      {A : Type κ} (text : Text) (r : Expected A × S) (rest : A → S → Acts S)
      → ((a : A) (s : S) → r ≡ (ok a, s) → Q (rest a s))
      → Q (checked fd text r rest)
  unfolding checked
  checked-cases text (ok a, s) rest k = k a s refl
  checked-cases text (unexpected ec, s) rest k = at_reply text s

  pub accepted-cases :
      (text : Text) (b : Bool) (s : S) (rest : Acts S)
      → (b ≡ true → Q rest)
      → Q (accepted fd text b s rest)
  unfolding accepted
  accepted-cases text true s rest k = k refl
  accepted-cases text false s rest k = at_reply text s

  pub found-cases {κ} :
      {A : Type κ} (text : Text) (o : Option A) (s : S) (rest : A → Acts S)
      → ((a : A) → o ≡ some a → Q (rest a))
      → Q (found fd text o s rest)
  unfolding found
  found-cases text none s rest k = at_reply text s
  found-cases text (some a) s rest k = k a refl

  pub with_room_id-cases :
      (room_id : Text) (s : S) (rest : ℤ → Acts S)
      → ((id : ℤ) → parse_room_id room_id ≡ some id → Q (rest id))
      → Q (with_room_id fd room_id s rest)
  unfolding with_room_id
  with_room_id-cases room_id s rest k =
      found-cases (codes "invalid room id") (parse_room_id room_id) s rest k
