-- ===== src/Protocol/Codec.antt =====
-- include/protocol/command_codec.hpp and src/protocol/command_codec.cpp.
-- `string_view` arguments are texts; an index into the line is the rest of the line.
pub mod Tokens
pub mod RoundTrip
pub mod Sound
use socket_prac.Prelude.{
  ℕ, zero, suc, Option, none, some, List, [], ◌∷◌, ◌++◌, Text, codes, is_empty, find_byte, length,
  take, drop, eqb, ◌==◌, text_eq, if◌then◌else◌,
}
use socket_prac.Core.ErrorCode.{
  Expected, ok, unexpected, DecodeError, empty_line, invalid_command, unexpected_argument,
  from_decode,
}

abbrev pub cr : ℕ
cr = 13

abbrev pub lf : ℕ
lf = 10

pub data Command : Type 0 where
  cmd_say : Text → Text → Command
  cmd_nick : Text → Command
  cmd_response : Text → Command
  cmd_login : Text → Text → Command
  cmd_register : Text → Text → Command
  cmd_friend_request : Text → Command
  cmd_friend_accept : Text → Command
  cmd_friend_reject : Text → Command
  cmd_friend_remove : Text → Command
  cmd_list_friend : Command
  cmd_list_friend_request : Command
  cmd_create_room : Text → Command
  cmd_delete_room : Text → Command
  cmd_invite_room : Text → Text → Command
  cmd_leave_room : Text → Command
  cmd_list_room : Command
  cmd_history : Text → Text → Command

pub record DecodeInfo : Type 0 where
  pub cmd : Text
  pub args : List Text

-- A final line feed is dropped, one at most.
unfoldable pub erase_delimeter : Text → Text
erase_delimeter [] = []
erase_delimeter (x ∷ []) = if eqb x lf then [] else x ∷ []
erase_delimeter (x ∷ y ∷ rest) = x ∷ erase_delimeter (y ∷ rest)

unfoldable pub decode_strerror : ℕ → Text
decode_strerror code =
    if eqb code 1
    then codes "empty_line"
    else if eqb code 2
    then codes "invalid_command"
    else if eqb code 3
    then codes "unexpected_argument"
    else codes "unknown_decode_error"

-- The first token that is not empty is the command, the others are its arguments.
unfoldable pub push_token : Text → DecodeInfo → DecodeInfo
push_token token info =
    if is_empty token
    then info
    else if is_empty info.cmd
    then record info { cmd = token }
    else record info { args = info.args ++ token ∷ [] }

unfoldable pub skip_newline : Text → Text
skip_newline [] = []
skip_newline (x ∷ xs) = if eqb x lf then xs else x ∷ xs

-- The loop of `decode_line`; a round takes one character at least.
unfoldable pub decode_loop : ℕ → Text → DecodeInfo → DecodeInfo
unfolding push_token skip_newline
decode_loop zero rest info = info
decode_loop (suc fuel) [] info = info
decode_loop (suc fuel) (x ∷ xs) info = elim (find_byte cr (x ∷ xs)) [
  | none ↦ push_token (x ∷ xs) info
  | some pos ↦
      decode_loop fuel (skip_newline (drop (suc pos) (x ∷ xs)))
        (push_token (take pos (x ∷ xs)) info)
]

abbrev pub empty_info : DecodeInfo
empty_info = record { cmd = []; args = [] }

unfoldable pub decode_line : Text → DecodeInfo
unfolding decode_loop
decode_line line = decode_loop (length line) line empty_info

unfoldable pub encode : Command → Text
encode (cmd_nick nick) = codes "nick" ++ cr ∷ (nick ++ lf ∷ [])
encode (cmd_say room_id text) = codes "say" ++ cr ∷ (room_id ++ cr ∷ (text ++ lf ∷ []))
encode (cmd_response text) = codes "response" ++ cr ∷ (text ++ lf ∷ [])
encode (cmd_login id pw) = codes "login" ++ cr ∷ (id ++ cr ∷ (pw ++ lf ∷ []))
encode (cmd_register id pw) = codes "register" ++ cr ∷ (id ++ cr ∷ (pw ++ lf ∷ []))
encode (cmd_friend_request to_user_id) = codes "friend_request" ++ cr ∷ (to_user_id ++ lf ∷ [])
encode (cmd_friend_accept from_user_id) = codes "friend_accept" ++ cr ∷ (from_user_id ++ lf ∷ [])
encode (cmd_friend_reject from_user_id) = codes "friend_reject" ++ cr ∷ (from_user_id ++ lf ∷ [])
encode (cmd_friend_remove friend_user_id) =
    codes "friend_remove" ++ cr ∷ (friend_user_id ++ lf ∷ [])
encode cmd_list_friend = codes "list_friend" ++ lf ∷ []
encode cmd_list_friend_request = codes "list_friend_request" ++ lf ∷ []
encode (cmd_create_room room_name) = codes "create_room" ++ cr ∷ (room_name ++ lf ∷ [])
encode (cmd_delete_room room_id) = codes "delete_room" ++ cr ∷ (room_id ++ lf ∷ [])
encode (cmd_invite_room room_id friend_user_id) =
    codes "invite_room" ++ cr ∷ (room_id ++ cr ∷ (friend_user_id ++ lf ∷ []))
encode (cmd_leave_room room_id) = codes "leave_room" ++ cr ∷ (room_id ++ lf ∷ [])
encode cmd_list_room = codes "list_room" ++ lf ∷ []
encode (cmd_history room_id limit) = codes "history" ++ cr ∷ (room_id ++ cr ∷ (limit ++ lf ∷ []))

abbrev pub fail : DecodeError → Expected Command
fail e = unexpected (from_decode e)

-- `args.size()` is tested against the number of fields, and the fields are read.
abbrev pub no_args : Command → List Text → Expected Command
no_args c [] = ok c
no_args c (x ∷ xs) = fail unexpected_argument

abbrev pub one_arg : (Text → Command) → List Text → Expected Command
one_arg c (x ∷ []) = ok (c x)
one_arg c _ = fail unexpected_argument

abbrev pub two_args : (Text → Text → Command) → List Text → Expected Command
two_args c (x ∷ y ∷ []) = ok (c x y)
two_args c _ = fail unexpected_argument

-- The tests on `info.cmd`, in the order of the source.
unfoldable pub decode_info : DecodeInfo → Expected Command
decode_info info =
    if is_empty info.cmd
    then fail empty_line
    else if info.cmd == codes "say"
    then two_args cmd_say info.args
    else if info.cmd == codes "nick"
    then one_arg cmd_nick info.args
    else if info.cmd == codes "response"
    then one_arg cmd_response info.args
    else if info.cmd == codes "login"
    then two_args cmd_login info.args
    else if info.cmd == codes "register"
    then two_args cmd_register info.args
    else if info.cmd == codes "friend_request"
    then one_arg cmd_friend_request info.args
    else if info.cmd == codes "friend_accept"
    then one_arg cmd_friend_accept info.args
    else if info.cmd == codes "friend_reject"
    then one_arg cmd_friend_reject info.args
    else if info.cmd == codes "friend_remove"
    then one_arg cmd_friend_remove info.args
    else if info.cmd == codes "list_friend"
    then no_args cmd_list_friend info.args
    else if info.cmd == codes "list_friend_request"
    then no_args cmd_list_friend_request info.args
    else if info.cmd == codes "create_room"
    then one_arg cmd_create_room info.args
    else if info.cmd == codes "delete_room"
    then one_arg cmd_delete_room info.args
    else if info.cmd == codes "invite_room"
    then two_args cmd_invite_room info.args
    else if info.cmd == codes "leave_room"
    then one_arg cmd_leave_room info.args
    else if info.cmd == codes "list_room"
    then no_args cmd_list_room info.args
    else if info.cmd == codes "history"
    then two_args cmd_history info.args
    else fail invalid_command

unfoldable pub decode : Text → Expected Command
unfolding erase_delimeter decode_line decode_info
decode line =
    let line' = erase_delimeter line in
    if is_empty line' then fail empty_line else decode_info (decode_line line')
