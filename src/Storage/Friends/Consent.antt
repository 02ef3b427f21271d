-- ===== src/Storage/Friends/Consent.antt =====
-- Friendships that are made when a request is accepted.
-- Friendships that are made when a request is accepted.
use socket_prac.Prelude.{
  ◌≡◌, ℕ, true, false, ◌&&◌, List, [], ◌∷◌, Each-append, Text, map, is_empty, text_eq, inl, inr,
  Bool-cases, arith,
}
use socket_prac.Core.ErrorCode.{ok}
use socket_prac.Storage.Select.{exists, select, update, exists-imp}
use socket_prac.Storage.Tables.{
  Friendship, accepted, FriendRequest, Tables, Collation, least, greatest, is_request, has_user,
}
use socket_prac.Storage.Transaction.Kept.{Advances, Advances-trans, Maintains, >>=-pure}
use socket_prac.Storage.Transaction.Apart.{insert_friendship-SameRooms}
use socket_prac.Storage.Friends.{
  is_pending, are_friends, insert_friendship, settle_request, befriend, accept_body,
}
use socket_prac.Storage.Friends.Requests.{
  accepted_from, backs, IsConsented, settle_request-Maintains,
}

module _ (c : Collation) where
  -- The pair that is stored is the two users, one way or the other.
  backs-stored :
      (a b : Text) (requests : List FriendRequest)
      → exists (accepted_from a b) requests ≡ true
      → exists (backs (least c a b) (greatest c a b)) requests ≡ true
  unfolding least greatest
  backs-stored a b requests e = elim (Bool-cases (c.before b a)) [
    | inl swapped ↦
        rw swapped (exists-imp (accepted_from a b) (backs b a) requests (λ r e. ground arith) e)
    | inr straight ↦
        rw straight (exists-imp (accepted_from a b) (backs a b) requests (λ r e. ground arith) e)
  ]

  insert_friendship-kept :
      (a b : Text) (t : Tables)
      → exists (accepted_from a b) t.friend_requests ≡ true
      → IsConsented c t
      → IsConsented c (insert_friendship c a b t).1
  unfolding insert_friendship
  insert_friendship-kept a b t e h = elim (Bool-cases (c.before (least c a b) (greatest c a b))) [
    | inr self ↦ rw self h
    | inl ordered ↦ rw ordered (elim (Bool-cases (are_friends c a b t)) [
      | inl friends ↦ rw friends h
      | inr new ↦
          rw new (elim (Bool-cases (has_user (least c a b) t && has_user (greatest c a b) t)) [
            | inr unknown ↦ rw unknown h
            | inl known ↦ rw known (record {
              consent =
                  Each-append
                    (λ (f : Friendship).
                      exists (backs f.user_a_id f.user_b_id) t.friend_requests ≡ true)
                    t.friendships _ h.consent (backs-stored a b t.friend_requests e, tt);
              ordered =
                  Each-append (λ (f : Friendship). c.before f.user_a_id f.user_b_id ≡ true)
                    t.friendships _ h.ordered (ordered, tt);
            })
          ])
    ])
  ]

  insert_friendship-Advances :
      (a b : Text) (t : Tables)
      → exists (accepted_from a b) t.friend_requests ≡ true
      → IsConsented c t
      → Advances (IsConsented c) t (insert_friendship c a b t).1
  insert_friendship-Advances a b t e h =
      let same = insert_friendship-SameRooms c a b t in
      record {
        kept = insert_friendship-kept a b t e h;
        room_seq = omega (arith, same.room_seq);
        message_seq = omega (arith, same.message_seq);
      }

  settled_rows :
      (now : ℕ) (a b : Text) (rs : List FriendRequest)
      → is_empty (
          map
            (λ (r : FriendRequest). r.from_user_id)
            (select (λ r. is_request a b r && is_pending r.status) rs))
        ≡ false
      → exists (accepted_from a b) (
          update
            (λ r. is_request a b r && is_pending r.status)
            (λ r. record r { status = accepted; updated_at = now })
            rs)
        ≡ true
  unfolding exists select update
  settled_rows now a b [] e = ground arith
  settled_rows now a b (r ∷ rs) e = ground (arith, settled_rows now a b rs)

  pub accept_body-Maintains :
      (now : ℕ) (a b : Text) → Maintains (IsConsented c) (accept_body c now a b)
  unfolding accept_body befriend settle_request
  accept_body-Maintains now a b = record {
    at = λ t h.
        let settles = (settle_request-Maintains c now accepted a b).at t h in
        let rows =
          map (λ (r : FriendRequest). r.from_user_id)
            (select (λ r. is_request a b r && is_pending r.status) t.friend_requests) in
        elim (Bool-cases (is_empty rows)) [
          | inl none_pending ↦ rw none_pending settles
          | inr found ↦ rw found (
              Advances-trans settles (
                rw
                  (>>=-pure (insert_friendship c a b) (λ _. ok true)
                    (settle_request now accepted a b t).1)
                  (insert_friendship-Advances a b (settle_request now accepted a b t).1
                    (settled_rows now a b t.friend_requests found) settles.kept)))
        ];
  }
