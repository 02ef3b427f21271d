-- ===== src/Protocol/LineParser.antt =====
-- include/protocol/line_parser.hpp, src/protocol/line_parser.cpp and the loops that call `parse_line`.
pub mod Framing
pub mod Wire
use socket_prac.Prelude.{
  ℕ, zero, suc, ◌+◌, ◌-◌, Bool, true, false, Option, none, some, List, [], ◌∷◌, ◌++◌, Text,
  find_byte, take, drop, length, if◌then◌else◌,
}
use socket_prac.Protocol.Codec.{lf}
use socket_prac.Net.Buffer.{
  OffsetBuffer, set_offset, clear_if_done, compact_if_needed, recv_append, unread,
}

-- `s.find(c, start)`
unfoldable pub find_from : ℕ → Text → ℕ → Option ℕ
find_from c s start = elim (find_byte c (drop start s)) [ none ↦ none | some i ↦ some (start + i) ]

unfoldable pub has_line : OffsetBuffer → Bool
unfolding find_from
has_line b = elim (find_from lf b.buf b.offset) [ none ↦ false | some pos ↦ true ]

-- `if(!buf.clear_if_done()) buf.compact_if_needed();`
unfoldable pub clear_or_compact : OffsetBuffer → OffsetBuffer
unfolding clear_if_done compact_if_needed
clear_or_compact b =
    let (b', done) = clear_if_done b in if done then b' else (compact_if_needed b').0

unfoldable pub parse_line : OffsetBuffer → Option Text × OffsetBuffer
unfolding find_from set_offset clear_or_compact
parse_line b = elim (find_from lf b.buf b.offset) [
  | none ↦ (none, b)
  | some pos ↦ (
    some (take (pos - b.offset) (drop b.offset b.buf)),
    clear_or_compact (set_offset (pos + 1) b),
  )
]

abbrev pub prepend : Text → List Text × OffsetBuffer → List Text × OffsetBuffer
prepend line r = (line ∷ r.0, r.1)

-- `while(auto line = parse_line(buf))`: the lines in order. Each takes a character at least.
unfoldable pub drain_lines : ℕ → OffsetBuffer → List Text × OffsetBuffer
unfolding parse_line
drain_lines zero b = ([], b)
drain_lines (suc fuel) b =
    let (line?, b') = parse_line b in
    elim line? [ none ↦ ([], b') | some line ↦ prepend line (drain_lines fuel b') ]

-- Chunks as they arrive: each is appended, and the complete lines are taken out.
unfoldable pub receive : OffsetBuffer → List Text → List Text × OffsetBuffer
unfolding drain_lines recv_append
receive b [] = ([], b)
receive b (chunk ∷ chunks) =
    let arrived = recv_append b chunk in
    let (lines, b') = drain_lines (suc (length (unread arrived))) arrived in
    let (more, b'') = receive b' chunks in (lines ++ more, b'')
