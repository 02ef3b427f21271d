-- ===== src/Storage/Service/Page.antt =====
-- The page of messages that the statement of list_room_messages of src/database/db_service.cpp
-- selects.
use socket_prac.Prelude.{
  ◌≡◌, refl, sym, ap, ◌∙◌, ℕ, ℤ, pos, negsuc, Bool, true, false, ◌&&◌, Option, some, List, [], ◌∷◌,
  Each, map, Text, length, take, ltb, leb, eqb, not, ◌||◌, ◌⊎◌, ◌==◌, text_eq, int_eq,
  if◌then◌else◌, inl, inr, arith, beq_refl,
}
use socket_prac.Storage.Select.{
  exists, select, order_by, exists-order_by, Each-imp, Each-both, Each-selected,
}
use socket_prac.Storage.Select.Page.{Each-of_select, Each-of_order_by, take-Ascending, exists-map}
use socket_prac.Storage.Select.Order.{
  Each-mapped, Ascending-map, length-map, length-order_by, length-take, Each-take, Each-order_by,
  Ascending, order_by-Ascending,
}
use socket_prac.Storage.Tables.{Message, Tables}
use socket_prac.Storage.Rooms.{lt_ℤ, is_newer, select_messages, message_info}
use socket_prac.Database.Service.{MessageInfo}

lt_asymmetric : (a b : ℤ) → lt_ℤ a b ≡ true → lt_ℤ b a ≡ false
lt_asymmetric (pos a) (pos b) e = ground arith
lt_asymmetric (pos a) (negsuc b) e = ground arith
lt_asymmetric (negsuc a) (pos b) e = ground arith
lt_asymmetric (negsuc a) (negsuc b) e = ground arith

lt_transitive : (a b c : ℤ) → lt_ℤ c b ≡ false → lt_ℤ b a ≡ false → lt_ℤ c a ≡ false
lt_transitive (pos a) (pos b) (pos c) p q = ground arith
lt_transitive (pos a) (pos b) (negsuc c) p q = ground arith
lt_transitive (pos a) (negsuc b) (pos c) p q = ground arith
lt_transitive (pos a) (negsuc b) (negsuc c) p q = ground arith
lt_transitive (negsuc a) (pos b) (pos c) p q = ground arith
lt_transitive (negsuc a) (pos b) (negsuc c) p q = ground arith
lt_transitive (negsuc a) (negsuc b) (pos c) p q = ground arith
lt_transitive (negsuc a) (negsuc b) (negsuc c) p q = ground arith

-- Whether a row is of the room and has what `info` tells.
abbrev pub shows : ℤ → MessageInfo → Message → Bool
shows room_id info m =
    m.room_id == room_id
    && m.id == info.id
    && m.sender_user_id == info.sender_user_id
    && m.body == info.body

-- Whether a row was made at the time of another or before, and with no larger id at the same time.
abbrev pub is_no_newer : Message → Message → Bool
is_no_newer m r =
    ltb m.created_at r.created_at || (eqb m.created_at r.created_at && not (lt_ℤ r.id m.id))

-- A page of a room's messages: a row stands behind each, ids ascend, there are as many as there are
-- in the room, up to the limit, and what is not on the page is no newer than any message on it.
pub record Page (t : Tables) (room_id : ℤ) (limit : ℕ) (page : List MessageInfo) : Type 0 where
  pub rows : Each (λ (info : MessageInfo). exists (shows room_id info) t.messages ≡ true) page
  pub ascending : Ascending (λ (m m' : MessageInfo). lt_ℤ m.id m'.id) page
  pub size :
      let there = length (select (λ (m : Message). m.room_id == room_id) t.messages) in
      length page ≡ (if leb limit there then limit else there)
  pub newest :
      Each
        (λ (m : Message).
          (m.room_id == room_id) ≡ true
          → (exists (λ (info : MessageInfo). shows room_id info m) page ≡ true)
            ⊎ Each
                (λ (info : MessageInfo).
                  exists (λ (r : Message). shows room_id info r && is_no_newer m r) t.messages
                  ≡ true)
                page)
        t.messages

is_newer_asymmetric : (m r : Message) → is_newer m r ≡ true → is_newer r m ≡ false
is_newer_asymmetric m r e = ground (arith, lt_asymmetric r.id m.id)

is_newer_transitive :
    (m r s : Message) → is_newer s r ≡ false → is_newer r m ≡ false → is_newer s m ≡ false
is_newer_transitive m r s p q = ground (arith, lt_transitive s.id r.id m.id)

is_newer-is_no_newer : (m r : Message) → is_newer m r ≡ false → is_no_newer m r ≡ true
is_newer-is_no_newer m r e = ground arith

module _ (timestamp : ℕ → Text) (room_id : ℤ) where
  shown :
      (ms : List Message)
      → Each
          (λ (m : Message).
            (m.room_id == room_id) ≡ true
            → exists (shows room_id (message_info timestamp m)) ms ≡ true)
          ms
  unfolding exists
  shown [] = tt
  shown (m ∷ ms) = (
    λ here. rw (here, beq_refl m.id, beq_refl m.sender_user_id, beq_refl m.body) refl,
    Each-imp _ _ ms (λ (x : Message) h here. ground (arith, h here)) (shown ms),
  )

  -- Some row shows what a message of the room shows, and meets what it meets.
  Stored : List Message → Message → Type 0
  Stored ms m =
      (q : Message → Bool)
      → q m ≡ true
      → exists (λ (r : Message). shows room_id (message_info timestamp m) r && q r) ms ≡ true

  stored :
      (ms : List Message) → Each (λ (m : Message). (m.room_id == room_id) ≡ true → Stored ms m) ms
  unfolding exists Stored
  stored [] = tt
  stored (m ∷ ms) = (
    λ here q e. rw (here, beq_refl m.id, beq_refl m.sender_user_id, beq_refl m.body) (rw e refl),
    Each-imp _ _ ms (λ (x : Message) h here q e. ground (arith, h here q e)) (stored ms),
  )

  shows_refl :
      (m : Message)
      → (m.room_id == room_id) ≡ true
      → shows room_id (message_info timestamp m) m ≡ true
  shows_refl m here = rw (here, beq_refl m.id, beq_refl m.sender_user_id, beq_refl m.body) refl

  all_hold : (P : Message → Type 0) (ms : List Message) → ((m : Message) → P m) → Each P ms
  all_hold P [] h = tt
  all_hold P (m ∷ ms) h = (h m, all_hold P ms h)

  newest-Page :
      (n : ℕ) (ms : List Message)
      → let here = λ (m : Message). m.room_id == room_id in
        let chosen = take n (order_by is_newer (select here ms)) in
        let page = order_by (λ (m m' : Message). lt_ℤ m.id m'.id) chosen in
        Each
          (λ (m : Message).
            (m.room_id == room_id) ≡ true
            → (exists
                  (λ (info : MessageInfo). shows room_id info m)
                  (map (message_info timestamp) page)
                ≡ true)
              ⊎ Each
                  (λ (info : MessageInfo).
                    exists (λ (r : Message). shows room_id info r && is_no_newer m r) ms ≡ true)
                  (map (message_info timestamp) page))
          ms
  unfolding Stored
  newest-Page n ms =
      let here : Message → Bool = λ m. m.room_id == room_id in
      let by_id : Message → Message → Bool = λ m m'. lt_ℤ m.id m'.id in
      let room = select here ms in
      let sorted = order_by is_newer room in
      let chosen = take n sorted in
      let page = order_by by_id chosen in
      let itself = Each-order_by _ is_newer room (
        Each-selected (λ (m : Message). shows room_id (message_info timestamp m) m ≡ true) here ms
          (all_hold _ ms shows_refl)) in
      let rows =
        Each-take _ n sorted
          (Each-order_by _ is_newer room (Each-selected (Stored ms) here ms (stored ms))) in
      let parts =
        take-Ascending is_newer (λ (m y : Message). shows room_id (message_info timestamp y) m) n
          sorted itself
          (order_by-Ascending is_newer is_newer_asymmetric is_newer_transitive room) in
      Each-of_select _ here ms (
        Each-of_order_by _ is_newer room (
          Each-imp _ _ sorted
            (λ (m : Message) part. elim part [
              | inl on ↦ inl (
                  exists-map (message_info timestamp) (λ (info : MessageInfo). shows room_id info m)
                    page
                  ∙ exists-order_by (λ (y : Message). shows room_id (message_info timestamp y) m)
                      by_id chosen
                  ∙ on)
              | inr off ↦ inr (
                  Each-mapped (message_info timestamp) _ page (
                    Each-order_by _ by_id chosen (
                      Each-imp _ _ chosen
                        (λ (y : Message) st. st.0 (is_no_newer m) (is_newer-is_no_newer m y st.1))
                        (Each-both (Stored ms) (λ (y : Message). is_newer m y ≡ false) chosen rows
                          off))))
            ])
            parts))

  pub rows-Page :
      (n : ℕ) (t t' : Tables) (rows : List Message)
      → select_messages room_id (pos n) t ≡ (some rows, t')
      → Page t room_id n (map (message_info timestamp) rows)
  unfolding select_messages
  rows-Page n t t' rows e =
      let room = select (λ (m : Message). m.room_id == room_id) t.messages in
      let newest = take n (order_by is_newer room) in
      let page = order_by (λ (m m' : Message). lt_ℤ m.id m'.id) newest in
      let made : Page t room_id n (map (message_info timestamp) page) = record {
        rows = Each-mapped (message_info timestamp) _ page (
            Each-order_by _ (λ (m m' : Message). lt_ℤ m.id m'.id) newest
              (Each-take _ n (order_by is_newer room) (
                Each-order_by _ is_newer room (
                  Each-selected _ (λ (m : Message). m.room_id == room_id) t.messages
                    (shown t.messages)))));
        ascending =
            Ascending-map (message_info timestamp) (λ (m m' : MessageInfo). lt_ℤ m.id m'.id) page
              (order_by-Ascending (λ (m m' : Message). lt_ℤ m.id m'.id)
                (λ x y. lt_asymmetric x.id y.id) (λ x y z. lt_transitive x.id y.id z.id) newest);
        size =
            length-map (message_info timestamp) page
            ∙ length-order_by (λ (m m' : Message). lt_ℤ m.id m'.id) newest
            ∙ length-take n (order_by is_newer room)
            ∙ ap (λ k. if leb n k then n else k) (length-order_by is_newer room);
        newest = newest-Page n t.messages;
      } in
      rw (some_injective page rows (ap (λ (r : Option (List Message) × Tables). r.0) (sym e))) made
    where
      some_injective : (xs ys : List Message) → some ys ≡ some xs → ys ≡ xs
      some_injective xs ys h = cc
