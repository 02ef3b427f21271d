-- ===== src/Protocol/LineParser/Wire.antt =====
-- The codec over the line framing: what one side encodes is what the other side decodes.
use socket_prac.Prelude.{
  ◌≡◌, refl, sym, ap, ◌∙◌, false, List, [], ◌∷◌, ◌++◌, append-nil, append_assoc, map, Text, codes,
  has_byte, has_byte-append,
}
use socket_prac.Core.ErrorCode.{ok}
use socket_prac.Protocol.Codec.{
  cr, lf, Command, cmd_say, cmd_nick, cmd_response, cmd_login, cmd_register, cmd_friend_request,
  cmd_friend_accept, cmd_friend_reject, cmd_friend_remove, cmd_list_friend, cmd_list_friend_request,
  cmd_create_room, cmd_delete_room, cmd_invite_room, cmd_leave_room, cmd_list_room, cmd_history,
  encode, decode,
}
use socket_prac.Protocol.Codec.Tokens.{Clean, erase_delimeter-append, erase_delimeter_self}
use socket_prac.Protocol.Codec.RoundTrip.{WellFormed, decode-encode}
use socket_prac.Net.Buffer.{OffsetBuffer, unread}
use socket_prac.Net.Buffer.View.{IsValid}
use socket_prac.Protocol.LineParser.{receive}
use socket_prac.Protocol.LineParser.Framing.{join, NoLf, concat, receive-Splits, lines_unique}

-- One line: a text without a line feed, and a line feed.
abbrev Framed : Text → Type 0
Framed s = (body : Text) × (s ≡ body ++ lf ∷ []) × (has_byte lf body ≡ false)

module _ (w : Text) (no_lf : has_byte lf w ≡ false) where
  Framed-zero : Framed (w ++ lf ∷ [])
  Framed-zero = (w, refl, no_lf)

  Framed-one : (a : Text) → Clean a → Framed (w ++ cr ∷ (a ++ lf ∷ []))
  Framed-one a c = (
    w ++ cr ∷ a,
    sym (append_assoc w (cr ∷ a) (lf ∷ [])),
    has_byte-append lf w (cr ∷ a) no_lf c.no_lf,
  )

  Framed-two : (a b : Text) → Clean a → Clean b → Framed (w ++ cr ∷ (a ++ cr ∷ (b ++ lf ∷ [])))
  Framed-two a b ca cb = (
    w ++ cr ∷ (a ++ cr ∷ b),
    ap (λ s. w ++ cr ∷ s) (sym (append_assoc a (cr ∷ b) (lf ∷ [])))
        ∙ sym (append_assoc w (cr ∷ (a ++ cr ∷ b)) (lf ∷ [])),
    has_byte-append lf w _ no_lf (has_byte-append lf a (cr ∷ b) ca.no_lf cb.no_lf),
  )

encode-Framed : (c : Command) → WellFormed c → Framed (encode c)
unfolding encode
encode-Framed (cmd_say a b) h = Framed-two (codes "say") refl a b h.0 h.1
encode-Framed (cmd_nick a) h = Framed-one (codes "nick") refl a h
encode-Framed (cmd_response a) h = Framed-one (codes "response") refl a h
encode-Framed (cmd_login a b) h = Framed-two (codes "login") refl a b h.0 h.1
encode-Framed (cmd_register a b) h = Framed-two (codes "register") refl a b h.0 h.1
encode-Framed (cmd_friend_request a) h = Framed-one (codes "friend_request") refl a h
encode-Framed (cmd_friend_accept a) h = Framed-one (codes "friend_accept") refl a h
encode-Framed (cmd_friend_reject a) h = Framed-one (codes "friend_reject") refl a h
encode-Framed (cmd_friend_remove a) h = Framed-one (codes "friend_remove") refl a h
encode-Framed cmd_list_friend h = Framed-zero (codes "list_friend") refl
encode-Framed cmd_list_friend_request h = Framed-zero (codes "list_friend_request") refl
encode-Framed (cmd_create_room a) h = Framed-one (codes "create_room") refl a h
encode-Framed (cmd_delete_room a) h = Framed-one (codes "delete_room") refl a h
encode-Framed (cmd_invite_room a b) h = Framed-two (codes "invite_room") refl a b h.0 h.1
encode-Framed (cmd_leave_room a) h = Framed-one (codes "leave_room") refl a h
encode-Framed cmd_list_room h = Framed-zero (codes "list_room") refl
encode-Framed (cmd_history a b) h = Framed-two (codes "history") refl a b h.0 h.1

-- The line feed that `parse_line` has taken off does not matter to `decode`.
decode_of_line : (s : Text) → has_byte lf s ≡ false → decode s ≡ decode (s ++ lf ∷ [])
unfolding decode
decode_of_line s h = rw (erase_delimeter_self s h, erase_delimeter-append s)

abbrev pub AllWellFormed : List Command → Type 0
AllWellFormed [] = Unit
AllWellFormed (c ∷ cs) = WellFormed c × AllWellFormed cs

record Lines (cs : List Command) : Type 0 where
  lines : List Text
  joined : concat (map encode cs) ≡ join lines
  no_lf : NoLf lines
  decoded : map decode lines ≡ map ok cs

encode-Lines : (cs : List Command) → AllWellFormed cs → Lines cs
unfolding join
encode-Lines [] h = record { lines = []; joined = refl; no_lf = tt; decoded = refl }
encode-Lines (c ∷ cs) h =
    let (body, framed, absent) = encode-Framed c h.0 in
    let later = encode-Lines cs h.1 in
    record {
      lines = body ∷ later.lines;
      joined =
          ap (λ s. s ++ concat (map encode cs)) framed
          ∙ append_assoc body (lf ∷ []) (concat (map encode cs))
          ∙ ap (λ s. body ++ lf ∷ s) later.joined;
      no_lf = (absent, later.no_lf);
      decoded =
          ap (λ d. d ∷ map decode later.lines)
            (decode_of_line body absent ∙ ap decode (sym framed) ∙ decode-encode c h.0)
          ∙ ap (◌∷◌ (ok c)) later.decoded;
    }

-- Well-formed commands, encoded one after another and cut into any chunks, arrive whole, in
-- order and once each at a valid buffer with nothing unread; and nothing is left unread.
pub wire_delivery :
    (b : OffsetBuffer) (chunks : List Text) (cs : List Command)
    → IsValid b
    → unread b ≡ []
    → AllWellFormed cs
    → concat chunks ≡ concat (map encode cs)
    → (map decode (receive b chunks).0 ≡ map ok cs) × (unread (receive b chunks).1 ≡ [])
wire_delivery b chunks cs v idle h same =
    let e = encode-Lines cs h in
    let r = receive-Splits b chunks v (ap (has_byte lf) idle) in
    let (lines, rest) =
      lines_unique (receive b chunks).0 e.lines (unread (receive b chunks).1) [] r.lines e.no_lf
        r.partial refl
        (sym r.whole
          ∙ ap (λ s. s ++ concat chunks) idle
          ∙ same
          ∙ e.joined
          ∙ sym (append-nil (join e.lines))) in
    (ap (map decode) lines ∙ e.decoded, rest)
