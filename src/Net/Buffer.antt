-- ===== src/Net/Buffer.antt =====
-- `offset_buffer`, `send_buffer` and `recv_buffer` of include/net/io_helper.hpp and src/net/io_helper.cpp.
-- A size_t keeps its wrap at 2 ^ 64.
pub mod View
use socket_prac.Prelude.{
  ℕ, ◌+◌, ◌-◌, ◌*◌, ◌%◌, ◌^◌, Bool, true, false, not, ◌&&◌, [], ◌++◌, Text, length, drop, ltb, eqb,
  if◌then◌else◌,
}

pub record OffsetBuffer : Type 0 where
  pub buf : Text
  pub offset : ℕ

abbrev pub empty_buffer : OffsetBuffer
empty_buffer = record { buf = []; offset = 0 }

abbrev pub word64 : ℕ
word64 = 2 ^ 64

unfoldable pub clear_if_done : OffsetBuffer → OffsetBuffer × Bool
clear_if_done b =
    if not (eqb (length b.buf) b.offset)
    then (b, false)
    else (record b { buf = []; offset = 0 }, true)

-- `buf.erase(0, offset)` once half of a long buffer has been read.
unfoldable pub compact_if_needed : OffsetBuffer → OffsetBuffer × Bool
compact_if_needed b =
    if ltb b.offset 8192
    then (b, false)
    else if ltb ((b.offset * 2) % word64) (length b.buf)
    then (b, false)
    else (record b { buf = drop b.offset b.buf; offset = 0 }, true)

unfoldable pub has_pending : OffsetBuffer → Bool
has_pending b = ltb b.offset (length b.buf)

-- The characters from `current_data()` on.
abbrev pub unread : OffsetBuffer → Text
unread b = drop b.offset b.buf

unfoldable pub remaining : OffsetBuffer → ℕ
remaining b = (length b.buf + word64 - b.offset) % word64

unfoldable pub advance : ℕ → OffsetBuffer → OffsetBuffer
advance n b = record b { offset = b.offset + n }

unfoldable pub set_offset : ℕ → OffsetBuffer → OffsetBuffer
set_offset n b = record b { offset = n }

-- `send_buffer::append`: whether the buffer went from idle to pending.
unfoldable pub send_append : OffsetBuffer → Text → OffsetBuffer × Bool
unfolding has_pending
send_append b s =
    let b' : OffsetBuffer = record b { buf = b.buf ++ s } in
    (b', not (has_pending b) && has_pending b')

unfoldable pub recv_append : OffsetBuffer → Text → OffsetBuffer
recv_append b s = record b { buf = b.buf ++ s }

-- `std::move(buf)` and a cleared buffer.
unfoldable pub take_all : OffsetBuffer → Text × OffsetBuffer
take_all b = (b.buf, empty_buffer)
