-- ===== src/Witnesses/Wire.antt =====
-- Tests of the codec, the line parser and the numbers.
use socket_prac.Prelude.{
  pos, ◌≡◌, refl, ◌<◌, ◌^◌, some, [], ◌∷◌, ◌++◌, Text, codes, map, take, drop, arith,
}
use socket_prac.Core.ErrorCode.{ok}
use socket_prac.Core.Number.{to_string, parse_room_id}
use socket_prac.Core.Number.RoundTrip.{parse_room_id-to_string}
use socket_prac.Protocol.Codec.{Command, cmd_say, cmd_list_room, decode, encode, lf, cr}
use socket_prac.Protocol.Codec.Tokens.{Clean}
use socket_prac.Protocol.Codec.RoundTrip.{WellFormed, decode-encode}
use socket_prac.Protocol.Codec.Sound.{decode-WellFormed}
use socket_prac.Protocol.LineParser.{receive, parse_line}
use socket_prac.Protocol.LineParser.Framing.{
  Parses, Splits, concat, parse_line-Parses, receive-Splits, receive_chunking,
}
use socket_prac.Protocol.LineParser.Wire.{wire_delivery}
use socket_prac.Net.Buffer.{OffsetBuffer, empty_buffer, unread, remaining}
use socket_prac.Net.Buffer.View.{remaining_lem}
use socket_prac.Net.TlsError.{
  protocol_error, make_code, kind_of, reason_of, tls_error_code, make_code_parts,
}

Clean-seven : Clean (codes "7")
Clean-seven = record { filled = refl; no_cr = refl; no_lf = refl }

Clean-hi : Clean (codes "hi")
Clean-hi = record { filled = refl; no_cr = refl; no_lf = refl }

abbrev say_hi : Command
say_hi = cmd_say (codes "7") (codes "hi")

abbrev sent_text : Text
sent_text = codes "say" ++ cr ∷ codes "7" ++ cr ∷ codes "hi" ++ lf ∷ codes "list_room" ++ lf ∷ []

abbrev half_line : OffsetBuffer
half_line = record { buf = codes "xxsay"; offset = 2 }

abbrev line_ready : OffsetBuffer
line_ready = record { buf = codes "xx" ++ sent_text; offset = 2 }

decode-encode_example :
    decode (encode (cmd_say (codes "7") (codes "hi"))) ≡ ok (cmd_say (codes "7") (codes "hi"))
decode-encode_example = decode-encode say_hi (Clean-seven, Clean-hi)

decode-WellFormed_example : WellFormed say_hi × (decode (encode say_hi) ≡ ok say_hi)
unfolding decode
decode-WellFormed_example =
    decode-WellFormed (codes "say" ++ cr ∷ codes "7" ++ cr ∷ codes "hi") say_hi refl refl

wire_delivery_example :
    (map decode (receive empty_buffer (take 5 sent_text ∷ drop 5 sent_text ∷ [])).0
      ≡ map ok (say_hi ∷ cmd_list_room ∷ []))
    × (unread (receive empty_buffer (take 5 sent_text ∷ drop 5 sent_text ∷ [])).1 ≡ [])
unfolding encode
wire_delivery_example =
    wire_delivery empty_buffer (take 5 sent_text ∷ drop 5 sent_text ∷ [])
      (say_hi ∷ cmd_list_room ∷ []) (omega arith) refl ((Clean-seven, Clean-hi), (tt, tt)) refl

parse_line-Parses_example : Parses line_ready (parse_line line_ready)
parse_line-Parses_example = parse_line-Parses line_ready (omega arith)

receive-Splits_example :
    Splits
      (unread half_line ++ concat (drop 3 sent_text ∷ codes "more" ∷ []))
      (receive half_line (drop 3 sent_text ∷ codes "more" ∷ []))
receive-Splits_example =
    receive-Splits half_line (drop 3 sent_text ∷ codes "more" ∷ []) (omega arith) refl

receive_chunking_example :
    ((receive half_line (drop 3 sent_text ∷ [])).0
      ≡ (receive half_line (take 1 (drop 3 sent_text) ∷ drop 4 sent_text ∷ [])).0)
    × (unread (receive half_line (drop 3 sent_text ∷ [])).1
        ≡ unread (receive half_line (take 1 (drop 3 sent_text) ∷ drop 4 sent_text ∷ [])).1)
receive_chunking_example =
    receive_chunking half_line (drop 3 sent_text ∷ [])
      (take 1 (drop 3 sent_text) ∷ drop 4 sent_text ∷ []) (omega arith) refl refl

parse_room_id-to_string_example : parse_room_id (to_string (pos 907)) ≡ some (pos 907)
parse_room_id-to_string_example = parse_room_id-to_string 907 (omega arith) (omega arith)

remaining_lem_example : remaining half_line ≡ 3
remaining_lem_example = remaining_lem half_line (omega arith) (omega arith)

make_code_parts_example :
    (kind_of (make_code protocol_error 70000) ≡ tls_error_code protocol_error)
    × (reason_of (make_code protocol_error 70000) ≡ 4464)
    × (0 < make_code protocol_error 70000)
    × (make_code protocol_error 70000 < 2 ^ 31)
make_code_parts_example = make_code_parts protocol_error 70000
