-- ===== src/Storage/Friends/Lists.antt =====
-- What list_friends of src/database/db_service.cpp gives: the friends, whichever way a friendship is
-- stored.
use socket_prac.Prelude.{
  ◌≡◌, refl, ◌∙◌, true, ◌&&◌, ◌||◌, Text, ◌==◌, text_eq, contains, if◌then◌else◌, inl, inr,
  Bool-cases, arith,
}
use socket_prac.Storage.Select.{
  exists-order_by, exists-map, exists-select, exists-same, contains-exists, Each-imp,
}
use socket_prac.Storage.Tables.{Friendship, Tables, Collation, least, greatest, is_pair}
use socket_prac.Storage.Friends.{are_friends, select_friends}
use socket_prac.Storage.Friends.Requests.{IsConsented}

module _ (c : Collation) where
  other_side : Text → Friendship → Text
  other_side a f = if f.user_a_id == a then f.user_b_id else f.user_a_id

  -- A stored pair x, y has `a` on one side and `b` on the other if it is the pair of a and b.
  side :
      (a b x y : Text)
      → c.before x y ≡ true
      → ((x == a || y == a) && ((if x == a then y else x) == b))
        ≡ (x == least c a b && y == greatest c a b)
  unfolding least greatest
  side a b x y ordered = elim (Bool-cases (c.before b a)) [
    | inl swapped ↦ rw swapped (
        ground (
          arith,
          text_eq.equals_iff x a,
          text_eq.equals_iff y a,
          text_eq.equals_iff y b,
          text_eq.equals_iff x b,
          c.asymmetric b a swapped,
          c.irreflexive a,
        ))
    | inr straight ↦ rw straight (
        ground (
          arith,
          text_eq.equals_iff x a,
          text_eq.equals_iff y a,
          text_eq.equals_iff y b,
          text_eq.equals_iff x b,
        ))
  ]

  -- Over consented tables the list of a user's friends holds exactly their friends.
  pub select_friends_lem :
      (a b : Text) (t : Tables)
      → IsConsented c t
      → contains b (select_friends c a t) ≡ are_friends c a b t
  unfolding select_friends are_friends
  select_friends_lem a b t h =
      contains-exists b (select_friends c a t)
      ∙ exists-order_by (λ x. x == b) c.before _
      ∙ exists-map (λ x. x == b)
          (λ (f : Friendship). if f.user_a_id == a then f.user_b_id else f.user_a_id) _
      ∙ exists-select
          (λ (f : Friendship). (if f.user_a_id == a then f.user_b_id else f.user_a_id) == b)
          (λ f. f.user_a_id == a || f.user_b_id == a) t.friendships
      ∙ exists-same _ (is_pair (least c a b) (greatest c a b)) t.friendships (
          Each-imp _ _ t.friendships (λ (f : Friendship) o. side a b f.user_a_id f.user_b_id o)
            h.ordered)

  -- Friendship has no direction.
  pub are_friends_comm : (a b : Text) (t : Tables) → are_friends c a b t ≡ are_friends c b a t
  unfolding are_friends least greatest
  are_friends_comm a b t = elim (c.trichotomous a b) [
    | inl lt ↦ rw (lt, c.asymmetric a b lt) refl
    | inr (inl gt) ↦ rw (gt, c.asymmetric b a gt) refl
    | inr (inr e) ↦ rw e refl
  ]
