-- ===== src/Client/Worker.antt =====
-- Parsing and execution of an input line in src/client/chat_io_worker.cpp. What the client prints
-- is listed in order; the text of /help is left out.
pub mod Commands
pub mod Sent
use socket_prac.Prelude.{
  ℕ, ℤ, pos, Bool, true, false, not, ◌&&◌, Option, none, some, List, [], ◌∷◌, ◌++◌, Text, codes,
  is_empty, eqb, ◌==◌, text_eq, if◌then◌else◌,
}
use socket_prac.Core.Number.{to_string, parse_room_id}
use socket_prac.Protocol.Codec.{
  Command, cmd_say, cmd_nick, cmd_login, cmd_register, cmd_friend_request, cmd_friend_accept,
  cmd_friend_reject, cmd_friend_remove, cmd_list_friend, cmd_list_friend_request, cmd_create_room,
  cmd_delete_room, cmd_invite_room, cmd_leave_room, cmd_list_room, cmd_history, encode,
}
use socket_prac.Net.Buffer.{OffsetBuffer, send_append}

pub record ParsedCommand : Type 0 where
  pub cmd : Text
  pub args : List Text

pub record ChatIo : Type 0 where
  pub send : OffsetBuffer
  pub logged_in : Bool
  pub selected_room_id : Option ℤ
  pub output : List Text

abbrev pub space : ℕ
space = 32

-- The tokens between the spaces; `token` is the one that is being read.
unfoldable pub tokens : Text → Text → List Text
tokens token [] = if is_empty token then [] else token ∷ []
tokens token (c ∷ cs) =
    let next = tokens [] cs in
    let longer = tokens (token ++ c ∷ []) cs in
    if eqb c space then (if is_empty token then next else token ∷ next) else longer

abbrev pub parsed : List Text → ParsedCommand
parsed [] = record { cmd = []; args = [] }
parsed (cmd ∷ args) = record { cmd = cmd; args = args }

unfoldable pub parse : Text → ParsedCommand
unfolding tokens
parse line = parsed (tokens [] line)

unfoldable pub print_line : Text → ChatIo → ChatIo
print_line text io = record io { output = io.output ++ text ∷ [] }

-- `si.send.append(cmd)`
unfoldable pub send_command : Command → ChatIo → ChatIo
unfolding send_append
send_command cmd io = record io { send = (send_append io.send (encode cmd)).0 }

-- The test of the number of arguments, with the usage that is printed otherwise.
unfoldable pub without_args : Text → Command → List Text → ChatIo → ChatIo
unfolding print_line send_command
without_args usage cmd [] io = send_command cmd io
without_args usage cmd (a ∷ more) io = print_line usage io

unfoldable pub with_arg : Text → (Text → ChatIo → ChatIo) → List Text → ChatIo → ChatIo
unfolding print_line
with_arg usage act (a ∷ []) io = act a io
with_arg usage act _ io = print_line usage io

unfoldable pub with_args : Text → (Text → Text → Command) → List Text → ChatIo → ChatIo
unfolding print_line send_command
with_args usage act (a ∷ b ∷ []) io = send_command (act a b) io
with_args usage act _ io = print_line usage io

unfoldable pub say : Text → ChatIo → ChatIo
unfolding print_line send_command
say line io = elim io.selected_room_id [
  | none ↦ print_line (codes "select room first: /select_room <room_id>") io
  | some id ↦ send_command (cmd_say (to_string id) line) io
]

unfoldable pub select_room : Text → ChatIo → ChatIo
unfolding print_line
select_room room_id io = elim (parse_room_id room_id) [
  | none ↦ print_line (codes "invalid room id: /select_room <room_id>") io
  | some id ↦
      print_line (codes "selected room: " ++ to_string id)
        (record io { selected_room_id = some id })
]

abbrev pub is_slash : Text → Bool
is_slash [] = false
is_slash (c ∷ cs) = eqb c 47

-- `if(parsed.cmd == name){ … return; }`
unfoldable pub on_command : Text → Text → ChatIo → ChatIo → ChatIo
on_command name cmd handled rest = if cmd == name then handled else rest

unfoldable pub execute_help : List Text → ChatIo → ChatIo
unfolding print_line
execute_help [] io = io
execute_help (a ∷ more) io = print_line (codes "/help") io

-- The commands, tried in the order of the source.
unfoldable pub execute_slash : ParsedCommand → ChatIo → ChatIo
execute_slash p io =
    on_command (codes "/nick") p.cmd
      (with_arg (codes "/nick <nickname>") (λ a. send_command (cmd_nick a)) p.args io)
      (on_command (codes "/login") p.cmd (with_args (codes "/login <id> <pw>") cmd_login p.args io)
        (on_command (codes "/register") p.cmd
          (with_args (codes "/register <id> <pw>") cmd_register p.args io)
          (on_command (codes "/friend_request") p.cmd
            (with_arg (codes "/friend_request <user_id>") (λ a. send_command (cmd_friend_request a))
              p.args io)
            (on_command (codes "/friend_accept") p.cmd
              (with_arg (codes "/friend_accept <user_id>") (λ a. send_command (cmd_friend_accept a))
                p.args io)
              (on_command (codes "/friend_reject") p.cmd
                (with_arg (codes "/friend_reject <user_id>")
                  (λ a. send_command (cmd_friend_reject a)) p.args io)
                (on_command (codes "/friend_remove") p.cmd
                  (with_arg (codes "/friend_remove <user_id>")
                    (λ a. send_command (cmd_friend_remove a)) p.args io)
                  (on_command (codes "/list_friend") p.cmd
                    (without_args (codes "/list_friend") cmd_list_friend p.args io)
                    (on_command (codes "/list_friend_request") p.cmd
                      (without_args (codes "/list_friend_request") cmd_list_friend_request p.args
                        io)
                      (on_command (codes "/create_room") p.cmd
                        (with_arg (codes "/create_room <room_name>")
                          (λ a. send_command (cmd_create_room a)) p.args io)
                        (on_command (codes "/delete_room") p.cmd
                          (with_arg (codes "/delete_room <room_id>")
                            (λ a. send_command (cmd_delete_room a)) p.args io)
                          (on_command (codes "/invite_room") p.cmd
                            (with_args (codes "/invite_room <room_id> <friend_user_id>")
                              cmd_invite_room p.args io)
                            (on_command (codes "/leave_room") p.cmd
                              (with_arg (codes "/leave_room <room_id>")
                                (λ a. send_command (cmd_leave_room a)) p.args io)
                              (on_command (codes "/select_room") p.cmd
                                (with_arg (codes "/select_room <room_id>") select_room p.args io)
                                (on_command (codes "/list_room") p.cmd
                                  (without_args (codes "/list_room") cmd_list_room p.args io)
                                  (on_command (codes "/history") p.cmd
                                    (with_args (codes "/history <room_id> <limit>") cmd_history
                                      p.args io)
                                    (on_command (codes "/help") p.cmd (execute_help p.args io)
                                      (print_line (codes "unknown command") io)))))))))))))))))

abbrev pub is_open_command : Text → Bool
is_open_command cmd =
    if cmd == codes "/login"
    then true
    else if cmd == codes "/register"
    then true
    else cmd == codes "/help"

unfoldable pub execute_parsed : Text → ParsedCommand → ChatIo → ChatIo
unfolding print_line say execute_slash
execute_parsed line p io =
    if is_empty p.cmd
    then io
    else if not io.logged_in && not (is_open_command p.cmd)
    then print_line (codes "login first: /login <id> <pw> or /register <id> <pw>") io
    else if not (is_slash p.cmd)
    then (elim io.selected_room_id [
      | none ↦ print_line (codes "select room first: /select_room <room_id>") io
      | some id ↦ say line io
    ])
    else execute_slash p io

unfoldable pub client_execute : Text → ChatIo → ChatIo
unfolding parse execute_parsed
client_execute line io = if is_empty line then io else execute_parsed line (parse line) io
