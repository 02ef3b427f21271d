-- ===== src/Client/Worker/Commands.antt =====
-- What the slash commands of src/client/chat_io_worker.cpp append to the output.
use socket_prac.Prelude.{
  ℕ, ◌≡◌, refl, inl, inr, false, List, [], ◌∷◌, ◌++◌, Text, is_empty, eqb, ◌==◌, text_eq, has_byte,
  arith, Bool-cases, Each, Option-cases,
}
use socket_prac.Core.ErrorCode.{ok}
use socket_prac.Core.Number.{parse_room_id}
use socket_prac.Protocol.Codec.{
  Command, cmd_nick, cmd_login, cmd_register, cmd_friend_request, cmd_friend_accept,
  cmd_friend_reject, cmd_friend_remove, cmd_list_friend, cmd_list_friend_request, cmd_create_room,
  cmd_delete_room, cmd_invite_room, cmd_leave_room, cmd_list_room, cmd_history, encode, decode, cr,
  lf,
}
use socket_prac.Protocol.Codec.Tokens.{Clean}
use socket_prac.Protocol.Codec.RoundTrip.{WellFormed, decode-encode}
use socket_prac.Net.Buffer.{unread}
use socket_prac.Net.Buffer.View.{IsValid, unread-send_append}
use socket_prac.Client.Worker.{
  ParsedCommand, ChatIo, space, tokens, print_line, send_command, without_args, with_arg, with_args,
  select_room, on_command, execute_help, execute_slash,
}

-- Nothing was sent, or one command that is decoded to itself.
pub data OneSent (io io' : ChatIo) : Type 0 where
  nothing : unread io'.send ≡ unread io.send → OneSent io io'
  command :
      (cmd : Command)
      → decode (encode cmd) ≡ ok cmd
      → unread io'.send ≡ unread io.send ++ encode cmd
      → OneSent io io'

has_byte-snoc :
    (b c : ℕ) (s : Text) → has_byte b s ≡ false → eqb c b ≡ false → has_byte b (s ++ c ∷ []) ≡ false
has_byte-snoc b c [] h e = ground arith
has_byte-snoc b c (x ∷ xs) h e = ground (arith, has_byte-snoc b c xs)

pub tokens-Clean :
    (token line : Text)
    → has_byte cr token ≡ false
    → has_byte lf token ≡ false
    → has_byte cr line ≡ false
    → has_byte lf line ≡ false
    → Each Clean (tokens token line)
unfolding tokens
tokens-Clean token [] a b c d = elim (Bool-cases (is_empty token)) [
  | inl none_ ↦ rw none_ tt
  | inr some_ ↦ rw some_ (record { filled = some_; no_cr = a; no_lf = b }, tt)
]
tokens-Clean token (x ∷ xs) a b c d =
    let next = tokens-Clean [] xs refl refl (ground arith) (ground arith) in
    let longer =
      tokens-Clean (token ++ x ∷ []) xs (has_byte-snoc cr x token a (ground arith))
        (has_byte-snoc lf x token b (ground arith)) (ground arith) (ground arith) in
    elim (Bool-cases (eqb x space)) [
      | inr letter ↦ simp letter longer
      | inl gap ↦ elim (Bool-cases (is_empty token)) [
        | inl none_ ↦ simp (gap, none_) next
        | inr some_ ↦ simp (gap, some_) (record { filled = some_; no_cr = a; no_lf = b }, next)
      ]
    ]

pub send_command-OneSent :
    (cmd : Command) (io : ChatIo)
    → IsValid io.send
    → WellFormed cmd
    → OneSent io (send_command cmd io)
unfolding send_command
send_command-OneSent cmd io v w =
    command cmd (decode-encode cmd w) (unread-send_append io.send (encode cmd) v)

with_arg-OneSent :
    (usage : Text) (act : Text → ChatIo → ChatIo) (args : List Text) (io : ChatIo)
    → Each Clean args
    → ((a : Text) → Clean a → OneSent io (act a io))
    → OneSent io (with_arg usage act args io)
unfolding with_arg print_line
with_arg-OneSent usage act [] io c k = nothing refl
with_arg-OneSent usage act (a ∷ []) io c k = k a c.0
with_arg-OneSent usage act (a ∷ b ∷ more) io c k = nothing refl

with_args-OneSent :
    (usage : Text) (act : Text → Text → Command) (args : List Text) (io : ChatIo)
    → IsValid io.send
    → Each Clean args
    → ((a b : Text) → Clean a → Clean b → WellFormed (act a b))
    → OneSent io (with_args usage act args io)
unfolding with_args print_line
with_args-OneSent usage act [] io v c k = nothing refl
with_args-OneSent usage act (a ∷ []) io v c k = nothing refl
with_args-OneSent usage act (a ∷ b ∷ []) io v c k =
    send_command-OneSent (act a b) io v (k a b c.0 c.1.0)
with_args-OneSent usage act (a ∷ b ∷ d ∷ more) io v c k = nothing refl

without_args-OneSent :
    (usage : Text) (cmd : Command) (args : List Text) (io : ChatIo)
    → IsValid io.send
    → WellFormed cmd
    → OneSent io (without_args usage cmd args io)
unfolding without_args print_line
without_args-OneSent usage cmd [] io v w = send_command-OneSent cmd io v w
without_args-OneSent usage cmd (a ∷ more) io v w = nothing refl

select_room-OneSent : (a : Text) (io : ChatIo) → OneSent io (select_room a io)
unfolding select_room print_line
select_room-OneSent a io = elim (Option-cases (parse_room_id a)) [
  | inl bad ↦ rw (bad, select_room) (nothing refl)
  | inr (id, good) ↦ rw (good, select_room) (nothing refl)
]

on_command-OneSent :
    (name cmd : Text) (io x y : ChatIo)
    → OneSent io x
    → OneSent io y
    → OneSent io (on_command name cmd x y)
unfolding on_command
on_command-OneSent name cmd io x y p q = elim (Bool-cases (cmd == name)) [
  | inl this ↦ rw this p
  | inr other ↦ rw other q
]

execute_help-OneSent : (args : List Text) (io : ChatIo) → OneSent io (execute_help args io)
unfolding execute_help print_line
execute_help-OneSent [] io = nothing refl
execute_help-OneSent (a ∷ more) io = nothing refl

pub print_line-OneSent : (text : Text) (io : ChatIo) → OneSent io (print_line text io)
unfolding print_line
print_line-OneSent text io = nothing refl

pub execute_slash-OneSent :
    (p : ParsedCommand) (io : ChatIo)
    → IsValid io.send
    → Each Clean p.args
    → OneSent io (execute_slash p io)
unfolding execute_slash
execute_slash-OneSent p io v c =
    on_command-OneSent _ _ io _ _
      (with_arg-OneSent _ _ p.args io c (λ a w. send_command-OneSent (cmd_nick a) io v w))
      (on_command-OneSent _ _ io _ _
        (with_args-OneSent _ cmd_login p.args io v c (λ a b x y. (x, y)))
        (on_command-OneSent _ _ io _ _
          (with_args-OneSent _ cmd_register p.args io v c (λ a b x y. (x, y)))
          (on_command-OneSent _ _ io _ _
            (with_arg-OneSent _ _ p.args io c
              (λ a w. send_command-OneSent (cmd_friend_request a) io v w))
            (on_command-OneSent _ _ io _ _
              (with_arg-OneSent _ _ p.args io c
                (λ a w. send_command-OneSent (cmd_friend_accept a) io v w))
              (on_command-OneSent _ _ io _ _
                (with_arg-OneSent _ _ p.args io c
                  (λ a w. send_command-OneSent (cmd_friend_reject a) io v w))
                (on_command-OneSent _ _ io _ _
                  (with_arg-OneSent _ _ p.args io c
                    (λ a w. send_command-OneSent (cmd_friend_remove a) io v w))
                  (on_command-OneSent _ _ io _ _
                    (without_args-OneSent _ cmd_list_friend p.args io v tt)
                    (on_command-OneSent _ _ io _ _
                      (without_args-OneSent _ cmd_list_friend_request p.args io v tt)
                      (on_command-OneSent _ _ io _ _
                        (with_arg-OneSent _ _ p.args io c
                          (λ a w. send_command-OneSent (cmd_create_room a) io v w))
                        (on_command-OneSent _ _ io _ _
                          (with_arg-OneSent _ _ p.args io c
                            (λ a w. send_command-OneSent (cmd_delete_room a) io v w))
                          (on_command-OneSent _ _ io _ _
                            (with_args-OneSent _ cmd_invite_room p.args io v c (λ a b x y. (x, y)))
                            (on_command-OneSent _ _ io _ _
                              (with_arg-OneSent _ _ p.args io c
                                (λ a w. send_command-OneSent (cmd_leave_room a) io v w))
                              (on_command-OneSent _ _ io _ _
                                (with_arg-OneSent _ select_room p.args io c
                                  (λ a w. select_room-OneSent a io))
                                (on_command-OneSent _ _ io _ _
                                  (without_args-OneSent _ cmd_list_room p.args io v tt)
                                  (on_command-OneSent _ _ io _ _
                                    (with_args-OneSent _ cmd_history p.args io v c
                                      (λ a b x y. (x, y)))
                                    (on_command-OneSent _ _ io _ _ (execute_help-OneSent p.args io)
                                      (print_line-OneSent _ io)))))))))))))))))
