-- ===== src/Storage/Friends/Requests.antt =====
-- What the tables of friendships promise, and the statements of src/database/db_service.cpp on friend
-- requests and deleted friendships.
use socket_prac.Prelude.{
  ◌≡◌, ◌∙◌, ℕ, Bool, true, false, not, ◌&&◌, ◌||◌, List, [], ◌∷◌, ◌++◌, Each, Text, ◌==◌, text_eq,
  inl, inr, Bool-cases, arith,
}
use socket_prac.Storage.Select.{exists, update, exists-append, exists-update, Each-imp, Each-select}
use socket_prac.Storage.Tables.{
  Friendship, Status, pending, accepted, rejected, canceled, FriendRequest, Tables, Collation,
  least, greatest, is_pair, is_request, has_user,
}
use socket_prac.Storage.Transaction.{roll_back}
use socket_prac.Storage.Transaction.Kept.{Maintains, RollsBack}
use socket_prac.Storage.Transaction.Apart.{insert_request-SameRooms}
use socket_prac.Storage.Friends.{
  is_pending, is_closed, are_friends, delete_friendship, insert_request, settle_request,
}

abbrev pub is_accepted : Status → Bool
is_accepted accepted = true
is_accepted _ = false

abbrev pub accepted_from : Text → Text → FriendRequest → Bool
accepted_from a b r = is_accepted r.status && is_request a b r

-- An accepted request from the one to the other.
abbrev pub backs : Text → Text → FriendRequest → Bool
backs a b r = accepted_from a b r || accepted_from b a r

module _ (c : Collation) where
  -- Every friendship has an accepted request between its users, and is stored in their order.
  pub record IsConsented (t : Tables) : Type 0 where
    pub consent :
        Each
          (λ (f : Friendship). exists (backs f.user_a_id f.user_b_id) t.friend_requests ≡ true)
          t.friendships
    pub ordered : Each (λ (f : Friendship). c.before f.user_a_id f.user_b_id ≡ true) t.friendships

  pub IsConsented-RollsBack : RollsBack IsConsented
  unfolding roll_back
  IsConsented-RollsBack = record {
    rolls = λ t t' h r m. record { consent = h.consent; ordered = h.ordered };
  }

  -- Requests may change as long as an accepted one stays.
  with_requests :
      (t : Tables) (requests : List FriendRequest)
      → ((a b : Text)
          → exists (backs a b) t.friend_requests ≡ true
          → exists (backs a b) requests ≡ true)
      → IsConsented t
      → IsConsented (record t { friend_requests = requests })
  with_requests t requests stays h = record {
    consent =
        Each-imp _ _ t.friendships (λ (f : Friendship) e. stays f.user_a_id f.user_b_id e)
          h.consent;
    ordered = h.ordered;
  }

  pub settle_request-Maintains :
      (now : ℕ) (status : Status) (a b : Text)
      → Maintains IsConsented (settle_request now status a b)
  unfolding settle_request
  settle_request-Maintains now status a b = record {
    at = λ t h. record {
      kept =
          with_requests t _
            (λ x y e.
              exists-update (backs x y) (λ r. is_request a b r && is_pending r.status) _
                t.friend_requests (λ r. stays x y r.status r) e)
            h;
      room_seq = omega arith;
      message_seq = omega arith;
    };
  }
    where
      stays :
          (x y : Text) (status : Status) (r : FriendRequest)
          → (is_accepted status && is_request x y r || is_accepted status && is_request y x r)
            ≡ true
          → (is_request a b r && is_pending status) ≡ false
      stays x y accepted r e = ground arith
      stays x y pending r e = ground arith
      stays x y rejected r e = ground arith
      stays x y canceled r e = ground arith

  reopened :
      (now : ℕ) (a b : Text) (t : Tables)
      → IsConsented t
      → IsConsented (record t {
        friend_requests =
            update
              (λ r. is_request a b r && is_closed r.status)
              (λ r. record r { status = pending; updated_at = now })
              t.friend_requests;
      })
  reopened now a b t h =
      with_requests t _
        (λ x y e.
          exists-update (backs x y) (λ r. is_request a b r && is_closed r.status) _
            t.friend_requests (λ r. stays x y r.status r) e)
        h
    where
      stays :
          (x y : Text) (status : Status) (r : FriendRequest)
          → (is_accepted status && is_request x y r || is_accepted status && is_request y x r)
            ≡ true
          → (is_request a b r && is_closed status) ≡ false
      stays x y accepted r e = ground arith
      stays x y pending r e = ground arith
      stays x y rejected r e = ground arith
      stays x y canceled r e = ground arith

  requested :
      (r : FriendRequest) (t : Tables)
      → IsConsented t
      → IsConsented (record t { friend_requests = t.friend_requests ++ r ∷ [] })
  requested r t h =
      with_requests t _
        (λ x y e. exists-append (backs x y) t.friend_requests (r ∷ []) ∙ ground arith) h

  insert_request-kept :
      (now : ℕ) (a b : Text) (t : Tables)
      → IsConsented t
      → IsConsented (insert_request c now a b t).1
  unfolding insert_request
  insert_request-kept now a b t h = elim (Bool-cases (are_friends c a b t)) [
    | inl friends ↦ rw friends h
    | inr apart ↦ rw apart (elim (Bool-cases (a == b)) [
      | inl self ↦ rw self h
      | inr other ↦ rw other (elim (Bool-cases (exists (is_request a b) t.friend_requests)) [
        | inl before ↦ rw before (reopened now a b t h)
        | inr new ↦ rw new (elim (Bool-cases (has_user a t && has_user b t)) [
          | inl known ↦ rw known (requested _ t h)
          | inr unknown ↦ rw unknown h
        ])
      ])
    ])
  ]

  pub insert_request-Maintains :
      (now : ℕ) (a b : Text) → Maintains IsConsented (insert_request c now a b)
  insert_request-Maintains now a b = record {
    at = λ t h.
        let same = insert_request-SameRooms c now a b t in
        record {
          kept = insert_request-kept now a b t h;
          room_seq = omega (arith, same.room_seq);
          message_seq = omega (arith, same.message_seq);
        };
  }

  pub delete_friendship-Maintains : (a b : Text) → Maintains IsConsented (delete_friendship c a b)
  unfolding delete_friendship
  delete_friendship-Maintains a b = record {
    at = λ t h. record {
      kept = record {
        consent =
            Each-select _ (λ f. not (is_pair (least c a b) (greatest c a b) f)) t.friendships
              h.consent;
        ordered =
            Each-select _ (λ f. not (is_pair (least c a b) (greatest c a b) f)) t.friendships
              h.ordered;
      };
      room_seq = omega arith;
      message_seq = omega arith;
    };
  }
