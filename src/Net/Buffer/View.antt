-- ===== src/Net/Buffer/View.antt =====
-- What the operations on a buffer do to its unread text.
use socket_prac.Prelude.{
  ℕ, ◌-◌, ◌≤◌, ◌<◌, ◌≡◌, refl, [], ◌∷◌, ◌++◌, Text, length, drop, length-append, length-drop,
  drop-append_le, drop-drop, arith, ltb, is_empty, not,
}
use socket_prac.Net.Buffer.{
  OffsetBuffer, word64, clear_if_done, compact_if_needed, has_pending, unread, remaining, advance,
  send_append, recv_append,
}

-- The read offset stays within the text.
abbrev pub IsValid : OffsetBuffer → Type 0
IsValid b = b.offset ≤ length b.buf

drop-length : (s : Text) → drop (length s) s ≡ []
drop-length [] = refl
drop-length (x ∷ xs) = drop-length xs

pub unread-clear : (b : OffsetBuffer) → unread (clear_if_done b).0 ≡ unread b
unfolding clear_if_done
unread-clear b = ground (arith, drop-length b.buf)

pub clear-IsValid : (b : OffsetBuffer) → IsValid b → IsValid (clear_if_done b).0
unfolding clear_if_done
clear-IsValid b v = ground arith

pub unread-compact : (b : OffsetBuffer) → unread (compact_if_needed b).0 ≡ unread b
unfolding compact_if_needed
unread-compact b = ground arith

pub compact-IsValid : (b : OffsetBuffer) → IsValid b → IsValid (compact_if_needed b).0
unfolding compact_if_needed
compact-IsValid b v = ground arith

pub unread-recv_append :
    (b : OffsetBuffer) (s : Text) → IsValid b → unread (recv_append b s) ≡ unread b ++ s
unfolding recv_append
unread-recv_append b s v = drop-append_le b.offset b.buf s v

pub recv_append-IsValid : (b : OffsetBuffer) (s : Text) → IsValid b → IsValid (recv_append b s)
unfolding recv_append
recv_append-IsValid b s v = omega (arith, length-append b.buf s)

pub unread-send_append :
    (b : OffsetBuffer) (s : Text) → IsValid b → unread (send_append b s).0 ≡ unread b ++ s
unfolding send_append
unread-send_append b s v = drop-append_le b.offset b.buf s v

pub send_append-IsValid : (b : OffsetBuffer) (s : Text) → IsValid b → IsValid (send_append b s).0
unfolding send_append
send_append-IsValid b s v = omega (arith, length-append b.buf s)

pub unread-advance : (b : OffsetBuffer) (n : ℕ) → unread (advance n b) ≡ drop n (unread b)
unfolding advance
unread-advance b n = rw (drop-drop b.offset n b.buf)

length-unread : (b : OffsetBuffer) → length (unread b) ≡ length b.buf - b.offset
length-unread b = length-drop b.offset b.buf

-- Something is pending exactly while unread text is left.
pub has_pending_lem : (b : OffsetBuffer) → has_pending b ≡ not (is_empty (unread b))
unfolding has_pending
has_pending_lem b = go (unread b) (length-unread b)
  where
    go :
        (s : Text)
        → length s ≡ length b.buf - b.offset
        → ltb b.offset (length b.buf) ≡ not (is_empty s)
    go [] e = ground arith
    go (x ∷ xs) e = ground arith

-- In a valid buffer shorter than 2 ^ 64 characters, `remaining` is the length of the unread text, and
-- its size_t subtraction does not wrap.
pub remaining_lem :
    (b : OffsetBuffer) → IsValid b → length b.buf < word64 → remaining b ≡ length (unread b)
unfolding remaining
remaining_lem b v h = rw (length-unread b) (omega arith)
