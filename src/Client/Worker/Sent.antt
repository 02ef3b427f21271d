-- ===== src/Client/Worker/Sent.antt =====
-- What the client puts on the wire for a line is a command that the server reads.
use socket_prac.Prelude.{
  ℕ, suc, eqb_iff, is_pos, negsuc, ℤ, pos, ◌≡◌, refl, sym, ap, inl, inr, Bool, true, false, not,
  ◌&&◌, Option, none, some, List, [], ◌∷◌, Text, codes, is_empty, text_eq, if◌then◌else◌, has_byte,
  arith, Bool-cases, Each,
}
use mathlib.Core.Path.{subst}
use socket_prac.Core.Number.{digits, is_digit, to_string}
use socket_prac.Core.Number.RoundTrip.{AllDigits, digits-AllDigits, digits_filled}
use socket_prac.Protocol.Codec.{cmd_say, cr, lf}
use socket_prac.Protocol.Codec.Tokens.{Clean}
use socket_prac.Net.Buffer.View.{IsValid}
use socket_prac.Client.Worker.{
  ParsedCommand, ChatIo, tokens, parsed, parse, print_line, send_command, say, is_open_command,
  is_slash, execute_parsed, client_execute,
}
use socket_prac.Client.Worker.Commands.{
  OneSent, nothing, tokens-Clean, send_command-OneSent, print_line-OneSent, execute_slash-OneSent,
}

digits-no_byte : (b : ℕ) (s : Text) → AllDigits s → is_digit b ≡ false → has_byte b s ≡ false
digits-no_byte b [] h e = refl
digits-no_byte b (x ∷ xs) h e = ground (arith, digits-no_byte b xs h.1 e, eqb_iff x b, h.0)

Clean-to_string : (id : ℤ) → is_pos id ≡ true → Clean (to_string id)
unfolding to_string
Clean-to_string (pos n) h = record {
  filled = ground (arith, digits_filled n n);
  no_cr = digits-no_byte cr (digits (suc n) n) (digits-AllDigits (suc n) n) refl;
  no_lf = digits-no_byte lf (digits (suc n) n) (digits-AllDigits (suc n) n) refl;
}
Clean-to_string (negsuc n) h = absurd (ground arith)

-- A room that is selected has a positive id.
abbrev pub RoomIsValid : Option ℤ → Type 0
RoomIsValid none = Unit
RoomIsValid (some id) = is_pos id ≡ true

say_lem :
    (line : Text) (io : ChatIo) (id : ℤ)
    → io.selected_room_id ≡ some id
    → say line io ≡ send_command (cmd_say (to_string id) line) io
unfolding say
say_lem line io id e =
    ap
      (λ o. elim o as (λ _. ChatIo) [
        | none ↦ print_line (codes "select room first: /select_room <room_id>") io
        | some id' ↦ send_command (cmd_say (to_string id') line) io
      ])
      e

say_line-OneSent :
    (line : Text) (io : ChatIo) (room : Option ℤ)
    → IsValid io.send
    → Clean line
    → RoomIsValid room
    → io.selected_room_id ≡ room
    → OneSent io (elim room [
      | none ↦ print_line (codes "select room first: /select_room <room_id>") io
      | some id ↦ say line io
    ])
say_line-OneSent line io none v c r e = print_line-OneSent _ io
say_line-OneSent line io (some id) v c r e =
    subst (OneSent io) (sym (say_lem line io id e))
      (send_command-OneSent (cmd_say (to_string id) line) io v (Clean-to_string id r, c))

parsed-Clean : (ts : List Text) → Each Clean ts → Each Clean (parsed ts).args
parsed-Clean [] c = tt
parsed-Clean (t ∷ ts) c = c.1

parse-Clean :
    (line : Text)
    → has_byte cr line ≡ false
    → has_byte lf line ≡ false
    → Each Clean (parse line).args
unfolding parse
parse-Clean line a b = parsed-Clean (tokens [] line) (tokens-Clean [] line refl refl a b)

choose-OneSent :
    (b : Bool) (io x y : ChatIo) → OneSent io x → OneSent io y → OneSent io (if b then x else y)
choose-OneSent true io x y p q = p
choose-OneSent false io x y p q = q

execute_parsed-OneSent :
    (line : Text) (p : ParsedCommand) (io : ChatIo)
    → IsValid io.send
    → Clean line
    → Each Clean p.args
    → RoomIsValid io.selected_room_id
    → OneSent io (execute_parsed line p io)
unfolding execute_parsed
execute_parsed-OneSent line p io v c cs r = choose-OneSent (is_empty p.cmd) io io _ (nothing refl) (
    choose-OneSent (not io.logged_in && not (is_open_command p.cmd)) io _ _
      (print_line-OneSent _ io)
      (choose-OneSent (not (is_slash p.cmd)) io _ _
        (say_line-OneSent line io io.selected_room_id v c r refl)
        (execute_slash-OneSent p io v cs)))

-- For an input line without CR and LF, over a valid send buffer and with no room selected or one of
-- positive id, the client appends nothing to its unread output, or the encoding of one command that
-- the server decodes to that very command.
pub client_execute-OneSent :
    (line : Text) (io : ChatIo)
    → IsValid io.send
    → has_byte cr line ≡ false
    → has_byte lf line ≡ false
    → RoomIsValid io.selected_room_id
    → OneSent io (client_execute line io)
unfolding client_execute
client_execute-OneSent line io v a b r = elim (Bool-cases (is_empty line)) [
  | inl none_ ↦ rw (none_, client_execute) (nothing refl)
  | inr some_ ↦
      rw (some_, client_execute)
        (execute_parsed-OneSent line (parse line) io v
          (record { filled = some_; no_cr = a; no_lf = b }) (parse-Clean line a b) r)
]
