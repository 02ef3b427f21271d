-- ===== src/Protocol/Codec/Sound.antt =====
-- What `decode` accepts: every field of its result can be sent again.
use mathlib.Core.Path.{subst}
use socket_prac.Prelude.{
  ℕ, zero, suc, ◌≡◌, refl, sym, ap, ◌∙◌, inl, inr, Bool, true, false, List, [], ◌∷◌, ◌++◌, Text,
  String, codes, is_empty, has_byte, find_byte_cases, length, arith, ◌==◌, text_eq, if◌then◌else◌,
  Bool-cases,
}
use socket_prac.Core.ErrorCode.{Expected, ok, DecodeError, empty_line, invalid_command}
use socket_prac.Protocol.Codec.{
  cr, lf, Command, cmd_say, cmd_nick, cmd_response, cmd_login, cmd_register, cmd_friend_request,
  cmd_friend_accept, cmd_friend_reject, cmd_friend_remove, cmd_list_friend, cmd_list_friend_request,
  cmd_create_room, cmd_delete_room, cmd_invite_room, cmd_leave_room, cmd_list_room, cmd_history,
  DecodeInfo, empty_info, push_token, skip_newline, decode_loop, decode_line, decode_info, fail,
  no_args, one_arg, two_args, encode, decode,
}
use socket_prac.Protocol.Codec.Tokens.{
  Clean, decode_loop_split, decode_loop_last, erase_delimeter_self,
}
use socket_prac.Protocol.Codec.RoundTrip.{WellFormed, decode-encode}

abbrev AllClean : List Text → Type 0
AllClean [] = Unit
AllClean (x ∷ xs) = Clean x × AllClean xs

AllClean-append : (xs : List Text) (x : Text) → AllClean xs → Clean x → AllClean (xs ++ x ∷ [])
AllClean-append [] x h c = (c, tt)
AllClean-append (y ∷ ys) x h c = (h.0, AllClean-append ys x h.1 c)

push_token-AllClean :
    (token : Text) (info : DecodeInfo)
    → has_byte cr token ≡ false
    → has_byte lf token ≡ false
    → AllClean info.args
    → AllClean (push_token token info).args
unfolding push_token
push_token-AllClean [] info hc hl h = h
push_token-AllClean (x ∷ xs) info hc hl h = elim (Bool-cases (is_empty info.cmd)) [
  | inl e ↦ rw e h
  | inr e ↦
      rw e (AllClean-append info.args (x ∷ xs) h (record { filled = refl; no_cr = hc; no_lf = hl }))
]

no_lf_split :
    (s t : Text)
    → has_byte lf (s ++ cr ∷ t) ≡ false
    → (has_byte lf s ≡ false) × (has_byte lf (skip_newline t) ≡ false)
unfolding skip_newline
no_lf_split [] [] h = (refl, refl)
no_lf_split [] (y ∷ ys) h = (refl, ground arith)
no_lf_split (x ∷ xs) t h =
    let rest = no_lf_split xs t (ground arith) in (ground (arith, rest.0), rest.1)

decode_loop-AllClean :
    (fuel : ℕ) (rest : Text) (info : DecodeInfo)
    → has_byte lf rest ≡ false
    → AllClean info.args
    → AllClean (decode_loop fuel rest info).args
decode_loop-AllClean zero rest info h c = unfold decode_loop in c
decode_loop-AllClean (suc fuel) rest info h c = elim (find_byte_cases cr rest) [
  | inl (absent, _) ↦
      rw (decode_loop_last fuel rest info absent) (push_token-AllClean rest info absent h c)
  | inr (before, after, split, absent, _) ↦
      let (hb, ha) = no_lf_split before after (ap (has_byte lf) (sym split) ∙ h) in
      rw (split, decode_loop_split fuel before after info absent)
        (decode_loop-AllClean fuel (skip_newline after) (push_token before info) ha
          (push_token-AllClean before info absent hb c))
]

module _ {c : Command} where
  ok_lem : {d : Command} → ok d ≡ ok c → WellFormed d → WellFormed c
  ok_lem {d} e h = let same : d ≡ c = cc in subst WellFormed same h

  no_args_lem : (d : Command) (xs : List Text) → WellFormed d → no_args d xs ≡ ok c → WellFormed c
  no_args_lem d [] w e = ok_lem e w
  no_args_lem d (x ∷ xs) w e = absurd (ground arith)

  one_arg_lem :
      (k : Text → Command) (xs : List Text)
      → ((x : Text) → Clean x → WellFormed (k x))
      → AllClean xs
      → one_arg k xs ≡ ok c
      → WellFormed c
  one_arg_lem k [] w h e = absurd (ground arith)
  one_arg_lem k (x ∷ []) w h e = ok_lem e (w x h.0)
  one_arg_lem k (x ∷ y ∷ ys) w h e = absurd (ground arith)

  two_args_lem :
      (k : Text → Text → Command) (xs : List Text)
      → ((x y : Text) → Clean x → Clean y → WellFormed (k x y))
      → AllClean xs
      → two_args k xs ≡ ok c
      → WellFormed c
  two_args_lem k [] w h e = absurd (ground arith)
  two_args_lem k (x ∷ []) w h e = absurd (ground arith)
  two_args_lem k (x ∷ y ∷ []) w h e = ok_lem e (w x y h.0 h.1.0)
  two_args_lem k (x ∷ y ∷ z ∷ zs) w h e = absurd (ground arith)

  -- One test of the chain in `decode_info`.
  if_lem :
      (b : Bool) (x y : Expected Command)
      → (x ≡ ok c → WellFormed c)
      → (y ≡ ok c → WellFormed c)
      → (if b then x else y) ≡ ok c
      → WellFormed c
  if_lem true x y px py e = px e
  if_lem false x y px py e = py e

  refuses : (e : DecodeError) → fail e ≡ ok c → WellFormed c
  refuses e h = absurd (ground arith)

  decode_info-WellFormed :
      (info : DecodeInfo) → AllClean info.args → decode_info info ≡ ok c → WellFormed c
  unfolding decode_info
  decode_info-WellFormed info h = if_lem (is_empty info.cmd) _ _ (refuses empty_line) (
      two "say" _ cmd_say (λ x y p q. (p, q))
        (one "nick" _ cmd_nick (λ x p. p)
          (one "response" _ cmd_response (λ x p. p)
            (two "login" _ cmd_login (λ x y p q. (p, q))
              (two "register" _ cmd_register (λ x y p q. (p, q))
                (one "friend_request" _ cmd_friend_request (λ x p. p)
                  (one "friend_accept" _ cmd_friend_accept (λ x p. p)
                    (one "friend_reject" _ cmd_friend_reject (λ x p. p)
                      (one "friend_remove" _ cmd_friend_remove (λ x p. p)
                        (none_of "list_friend" _ cmd_list_friend tt (
                          none_of "list_friend_request" _ cmd_list_friend_request tt (
                            one "create_room" _ cmd_create_room (λ x p. p)
                              (one "delete_room" _ cmd_delete_room (λ x p. p)
                                (two "invite_room" _ cmd_invite_room (λ x y p q. (p, q))
                                  (one "leave_room" _ cmd_leave_room (λ x p. p)
                                    (none_of "list_room" _ cmd_list_room tt (
                                      two "history" _ cmd_history (λ x y p q. (p, q))
                                        (refuses invalid_command))))))))))))))))))
    where
      two :
          (w : String) (y : Expected Command) (k : Text → Text → Command)
          → ((x y : Text) → Clean x → Clean y → WellFormed (k x y))
          → (y ≡ ok c → WellFormed c)
          → (if info.cmd == codes w then two_args k info.args else y) ≡ ok c
          → WellFormed c
      two w y k p = if_lem (info.cmd == codes w) _ y (two_args_lem k info.args p h)

      one :
          (w : String) (y : Expected Command) (k : Text → Command)
          → ((x : Text) → Clean x → WellFormed (k x))
          → (y ≡ ok c → WellFormed c)
          → (if info.cmd == codes w then one_arg k info.args else y) ≡ ok c
          → WellFormed c
      one w y k p = if_lem (info.cmd == codes w) _ y (one_arg_lem k info.args p h)

      none_of :
          (w : String) (y : Expected Command) (d : Command)
          → WellFormed d
          → (y ≡ ok c → WellFormed c)
          → (if info.cmd == codes w then no_args d info.args else y) ≡ ok c
          → WellFormed c
      none_of w y d p = if_lem (info.cmd == codes w) _ y (no_args_lem d info.args p)

-- A command decoded from a line without a line feed has only fields that can be sent again, and
-- it is decoded to itself from its own encoding.
pub decode-WellFormed :
    (line : Text) (c : Command)
    → has_byte lf line ≡ false
    → decode line ≡ ok c
    → WellFormed c × (decode (encode c) ≡ ok c)
unfolding decode decode_line
decode-WellFormed line c h e = (formed, decode-encode c formed)
  where
    formed : WellFormed c
    formed =
        if_lem (is_empty line) _ _ (refuses empty_line)
          (decode_info-WellFormed (decode_line line)
            (decode_loop-AllClean (length line) line empty_info h tt))
          (rw (erase_delimeter_self line h) at e)
