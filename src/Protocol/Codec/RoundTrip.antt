-- ===== src/Protocol/Codec/RoundTrip.antt =====
-- `decode` against `encode`.
use socket_prac.Prelude.{
  suc, ◌-◌, ◌≤◌, ◌≡◌, refl, sym, ap, ◌∙◌, false, [], ◌∷◌, ◌++◌, append_assoc, Text, codes, is_empty,
  has_byte, length, length-append, arith,
}
use socket_prac.Core.ErrorCode.{ok}
use socket_prac.Protocol.Codec.{
  cr, lf, Command, cmd_say, cmd_nick, cmd_response, cmd_login, cmd_register, cmd_friend_request,
  cmd_friend_accept, cmd_friend_reject, cmd_friend_remove, cmd_list_friend, cmd_list_friend_request,
  cmd_create_room, cmd_delete_room, cmd_invite_room, cmd_leave_room, cmd_list_room, cmd_history,
  empty_info, push_token, decode_line, decode_info, encode, decode,
}
use socket_prac.Protocol.Codec.Tokens.{
  Clean, decode_loop_split, decode_loop_last, skip_newline-append, skip_newline_self,
  erase_delimeter-append,
}

-- Every field of the command survives the wire.
abbrev pub WellFormed : Command → Type 0
WellFormed (cmd_say room_id text) = Clean room_id × Clean text
WellFormed (cmd_nick nick) = Clean nick
WellFormed (cmd_response text) = Clean text
WellFormed (cmd_login id pw) = Clean id × Clean pw
WellFormed (cmd_register id pw) = Clean id × Clean pw
WellFormed (cmd_friend_request user_id) = Clean user_id
WellFormed (cmd_friend_accept user_id) = Clean user_id
WellFormed (cmd_friend_reject user_id) = Clean user_id
WellFormed (cmd_friend_remove user_id) = Clean user_id
WellFormed cmd_list_friend = Unit
WellFormed cmd_list_friend_request = Unit
WellFormed (cmd_create_room room_name) = Clean room_name
WellFormed (cmd_delete_room room_id) = Clean room_id
WellFormed (cmd_invite_room room_id user_id) = Clean room_id × Clean user_id
WellFormed (cmd_leave_room room_id) = Clean room_id
WellFormed cmd_list_room = Unit
WellFormed (cmd_history room_id limit) = Clean room_id × Clean limit

decode_of_body :
    (body : Text)
    → is_empty body ≡ false
    → decode (body ++ lf ∷ []) ≡ decode_info (decode_line body)
unfolding decode
decode_of_body body h = rw (erase_delimeter-append body, h)

is_empty-append : (w s : Text) → is_empty w ≡ false → is_empty (w ++ s) ≡ false
is_empty-append [] s h = cc
is_empty-append (x ∷ xs) s h = refl

positive_length : (s : Text) → is_empty s ≡ false → 1 ≤ length s
positive_length [] h = cc
positive_length (x ∷ xs) h = omega arith

module _ (w : Text) (filled : is_empty w ≡ false) (no_cr : has_byte cr w ≡ false) where
  line_zero : decode_line w ≡ record { cmd = w; args = [] }
  unfolding decode_line push_token
  line_zero =
      let n : length w ≡ suc (length w - 1) = omega (arith, positive_length w filled) in
      rw n (decode_loop_last (length w - 1) w empty_info no_cr ∙ rw filled)

  line_one : (a : Text) → Clean a → decode_line (w ++ cr ∷ a) ≡ record { cmd = w; args = a ∷ [] }
  unfolding decode_line push_token
  line_one a c =
      let k = length (w ++ cr ∷ a) - 2 in
      let n : length (w ++ cr ∷ a) ≡ suc (suc k) =
        omega (arith, length-append w (cr ∷ a), positive_length w filled) in
      rw n (
        decode_loop_split (suc k) w a empty_info no_cr
        ∙ rw (skip_newline_self a c.no_lf) (
            decode_loop_last k a (push_token w empty_info) c.no_cr
            ∙ ground (arith, filled, c.filled)))

  line_two :
      (a b : Text)
      → Clean a
      → Clean b
      → decode_line (w ++ cr ∷ (a ++ cr ∷ b)) ≡ record { cmd = w; args = a ∷ b ∷ [] }
  unfolding decode_line push_token
  line_two a b ca cb =
      let k = length (w ++ cr ∷ (a ++ cr ∷ b)) - 3 in
      let n : length (w ++ cr ∷ (a ++ cr ∷ b)) ≡ suc (suc (suc k)) = omega (
        arith,
        length-append w (cr ∷ (a ++ cr ∷ b)),
        length-append a (cr ∷ b),
        positive_length w filled,
      ) in
      rw n (
        decode_loop_split (suc (suc k)) w (a ++ cr ∷ b) empty_info no_cr
        ∙ rw (skip_newline-append a (cr ∷ b) ca) (
            decode_loop_split (suc k) a b (push_token w empty_info) ca.no_cr
            ∙ rw (skip_newline_self b cb.no_lf) (
                decode_loop_last k b (push_token a (push_token w empty_info)) cb.no_cr
                ∙ ground (arith, filled, ca.filled, cb.filled))))

  decode_zero : decode (w ++ lf ∷ []) ≡ decode_info (record { cmd = w; args = [] })
  decode_zero = decode_of_body w filled ∙ ap decode_info line_zero

  decode_one :
      (a : Text)
      → Clean a
      → decode (w ++ cr ∷ (a ++ lf ∷ [])) ≡ decode_info (record { cmd = w; args = a ∷ [] })
  decode_one a c =
      ap decode (sym (append_assoc w (cr ∷ a) (lf ∷ [])))
      ∙ decode_of_body (w ++ cr ∷ a) (is_empty-append w _ filled)
      ∙ ap decode_info (line_one a c)

  decode_two :
      (a b : Text)
      → Clean a
      → Clean b
      → decode (w ++ cr ∷ (a ++ cr ∷ (b ++ lf ∷ [])))
        ≡ decode_info (record { cmd = w; args = a ∷ b ∷ [] })
  decode_two a b ca cb =
      ap (λ s. decode (w ++ cr ∷ s)) (sym (append_assoc a (cr ∷ b) (lf ∷ [])))
      ∙ ap decode (sym (append_assoc w (cr ∷ (a ++ cr ∷ b)) (lf ∷ [])))
      ∙ decode_of_body (w ++ cr ∷ (a ++ cr ∷ b)) (is_empty-append w _ filled)
      ∙ ap decode_info (line_two a b ca cb)

-- A command is decoded to itself from its own encoding, when each of its fields is not empty and
-- holds neither a carriage return nor a line feed.
pub decode-encode : (c : Command) → WellFormed c → decode (encode c) ≡ ok c
unfolding encode decode_info
decode-encode (cmd_say a b) h = decode_two (codes "say") refl refl a b h.0 h.1
decode-encode (cmd_nick a) h = decode_one (codes "nick") refl refl a h
decode-encode (cmd_response a) h = decode_one (codes "response") refl refl a h
decode-encode (cmd_login a b) h = decode_two (codes "login") refl refl a b h.0 h.1
decode-encode (cmd_register a b) h = decode_two (codes "register") refl refl a b h.0 h.1
decode-encode (cmd_friend_request a) h = decode_one (codes "friend_request") refl refl a h
decode-encode (cmd_friend_accept a) h = decode_one (codes "friend_accept") refl refl a h
decode-encode (cmd_friend_reject a) h = decode_one (codes "friend_reject") refl refl a h
decode-encode (cmd_friend_remove a) h = decode_one (codes "friend_remove") refl refl a h
decode-encode cmd_list_friend h = decode_zero (codes "list_friend") refl refl
decode-encode cmd_list_friend_request h = decode_zero (codes "list_friend_request") refl refl
decode-encode (cmd_create_room a) h = decode_one (codes "create_room") refl refl a h
decode-encode (cmd_delete_room a) h = decode_one (codes "delete_room") refl refl a h
decode-encode (cmd_invite_room a b) h = decode_two (codes "invite_room") refl refl a b h.0 h.1
decode-encode (cmd_leave_room a) h = decode_one (codes "leave_room") refl refl a h
decode-encode cmd_list_room h = decode_zero (codes "list_room") refl refl
decode-encode (cmd_history a b) h = decode_two (codes "history") refl refl a b h.0 h.1
