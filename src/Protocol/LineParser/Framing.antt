-- ===== src/Protocol/LineParser/Framing.antt =====
-- `parse_line` and the loops over it split a stream at its line feeds.
use socket_prac.Prelude.{
  ℕ, zero, suc, ◌+◌, ◌-◌, ◌<◌, ◌≡◌, refl, sym, ap, ◌∙◌, ◌⊎◌, inl, inr, true, false, Option, none,
  some, List, [], ◌∷◌, ◌++◌, append_assoc, append-nil, Text, has_byte, find_byte_cases, take, drop,
  take-append, drop-drop, length-drop, length, length-append, arith,
}
use socket_prac.Protocol.Codec.{lf}
use socket_prac.Net.Buffer.{OffsetBuffer, set_offset, clear_if_done, recv_append, unread}
use socket_prac.Net.Buffer.View.{
  IsValid, unread-clear, clear-IsValid, unread-compact, compact-IsValid, unread-recv_append,
  recv_append-IsValid,
}
use socket_prac.Protocol.LineParser.{
  has_line, clear_or_compact, parse_line, prepend, drain_lines, receive,
}

-- No line feed stands in the buffer, which stays; or the first line is taken off.
abbrev pub Parses : OffsetBuffer → Option Text × OffsetBuffer → Type 0
Parses b r =
    ((r ≡ (none, b)) × (has_byte lf (unread b) ≡ false))
    ⊎ ((line : Text) × (b' : OffsetBuffer) × (r ≡ (some line, b'))
        × (unread b ≡ line ++ lf ∷ unread b')
        × (has_byte lf line ≡ false)
        × IsValid b')

unread-clear_or_compact : (b : OffsetBuffer) → unread (clear_or_compact b) ≡ unread b
unfolding clear_or_compact
unread-clear_or_compact b = ground (arith, unread-clear b, unread-compact (clear_if_done b).0)

clear_or_compact-IsValid : (b : OffsetBuffer) → IsValid b → IsValid (clear_or_compact b)
unfolding clear_or_compact
clear_or_compact-IsValid b v =
    ground (arith, clear-IsValid b v, compact-IsValid (clear_if_done b).0)

drop-suc : (before after : Text) → drop (length before + 1) (before ++ lf ∷ after) ≡ after
drop-suc before after =
    sym (drop-drop (length before) 1 (before ++ lf ∷ after)) ∙ ap (drop 1) (go before)
  where
    go : (s : Text) → drop (length s) (s ++ lf ∷ after) ≡ lf ∷ after
    go [] = refl
    go (x ∷ xs) = go xs

-- On a valid buffer `parse_line` returns the text before the first line feed and leaves unread what
-- stands behind it, or returns nothing and changes nothing when there is no line feed.
pub parse_line-Parses : (b : OffsetBuffer) → IsValid b → Parses b (parse_line b)
unfolding parse_line set_offset
parse_line-Parses b v = elim (find_byte_cases lf (unread b)) [
  | inl (absent, e) ↦ inl (rw (e, parse_line), absent)
  | inr (before, after, split, absent, e) ↦
      let pos = b.offset + length before in
      let moved = set_offset (pos + 1) b in
      let back : pos - b.offset ≡ length before = omega arith in
      let line : take (pos - b.offset) (unread b) ≡ before =
        rw (back, split) (take-append before (lf ∷ after)) in
      let sum : pos + 1 ≡ b.offset + (length before + 1) = omega arith in
      let rest : unread moved ≡ after =
        ap (λ k. drop k b.buf) sum
        ∙ sym (drop-drop b.offset (length before + 1) b.buf)
        ∙ ap (drop (length before + 1)) split
        ∙ drop-suc before after in
      let fits : IsValid moved =
        omega
          (arith, length-drop b.offset b.buf, ap length split, length-append before (lf ∷ after)) in
      inr (
        before,
        clear_or_compact moved,
        rw (e, parse_line) (ap (λ s. (some s, clear_or_compact moved)) line),
        split ∙ ap (λ s. before ++ lf ∷ s) (sym (unread-clear_or_compact moved ∙ rest)),
        absent,
        clear_or_compact-IsValid moved fits,
      )
]

-- The lines, each with its line feed.
unfoldable pub join : List Text → Text
join [] = []
join (line ∷ lines) = line ++ lf ∷ join lines

abbrev pub NoLf : List Text → Type 0
NoLf [] = Unit
NoLf (line ∷ lines) = (has_byte lf line ≡ false) × NoLf lines

-- The lines taken and the text that is left make up the input; nothing left is a line.
pub record Splits (input : Text) (r : List Text × OffsetBuffer) : Type 0 where
  pub whole : input ≡ join r.0 ++ unread r.1
  pub lines : NoLf r.0
  pub partial : has_byte lf (unread r.1) ≡ false
  pub valid : IsValid r.1

drain_lines-none :
    (fuel : ℕ) (b b' : OffsetBuffer)
    → parse_line b ≡ (none, b')
    → drain_lines (suc fuel) b ≡ ([], b')
unfolding drain_lines
drain_lines-none fuel b b' e = ground arith

drain_lines-some :
    (fuel : ℕ) (b b' : OffsetBuffer) (line : Text)
    → parse_line b ≡ (some line, b')
    → drain_lines (suc fuel) b ≡ prepend line (drain_lines fuel b')
unfolding drain_lines
drain_lines-some fuel b b' line e = ground arith

pub drain_lines-Splits :
    (fuel : ℕ) (b : OffsetBuffer)
    → IsValid b
    → length (unread b) < fuel
    → Splits (unread b) (drain_lines fuel b)
unfolding join
drain_lines-Splits zero b v h = absurd (omega arith)
drain_lines-Splits (suc fuel) b v h = elim (parse_line-Parses b v) [
  | inl (e, absent) ↦
      rw (drain_lines-none fuel b b e)
        (record { whole = refl; lines = tt; partial = absent; valid = v })
  | inr (line, b', e, split, absent, v') ↦
      let shorter : length (unread b') < fuel =
        omega (arith, ap length split, length-append line (lf ∷ unread b')) in
      let ih = drain_lines-Splits fuel b' v' shorter in
      rw (drain_lines-some fuel b b' line e) (record {
        whole =
            split
            ∙ ap (λ s. line ++ lf ∷ s) ih.whole
            ∙ sym (
                append_assoc line (lf ∷ join (drain_lines fuel b').0)
                  (unread (drain_lines fuel b').1));
        lines = (absent, ih.lines);
        partial = ih.partial;
        valid = ih.valid;
      })
]

join-append : (xs ys : List Text) → join (xs ++ ys) ≡ join xs ++ join ys
unfolding join
join-append [] ys = refl
join-append (x ∷ xs) ys =
    ap (λ s. x ++ lf ∷ s) (join-append xs ys) ∙ sym (append_assoc x (lf ∷ join xs) (join ys))

NoLf-append : (xs ys : List Text) → NoLf xs → NoLf ys → NoLf (xs ++ ys)
NoLf-append [] ys hx hy = hy
NoLf-append (x ∷ xs) ys hx hy = (hx.0, NoLf-append xs ys hx.1 hy)

abbrev pub concat : List Text → Text
concat [] = []
concat (x ∷ xs) = x ++ concat xs

-- When a valid buffer holds no line feed in its unread text, then however a stream is cut into
-- chunks, the lines that `receive` takes, each ended by a line feed, and the text it leaves unread
-- make up the unread text followed by the stream; no line and no text left holds a line feed, and
-- the buffer stays valid.
pub receive-Splits :
    (b : OffsetBuffer) (chunks : List Text)
    → IsValid b
    → has_byte lf (unread b) ≡ false
    → Splits (unread b ++ concat chunks) (receive b chunks)
unfolding receive join
receive-Splits b [] v absent = record {
  whole = append-nil (unread b);
  lines = tt;
  partial = absent;
  valid = v;
}
receive-Splits b (chunk ∷ chunks) v absent =
    let arrived = recv_append b chunk in
    let r = drain_lines (suc (length (unread arrived))) arrived in
    let first =
      drain_lines-Splits (suc (length (unread arrived))) arrived (recv_append-IsValid b chunk v)
        (omega arith) in
    let later = receive-Splits r.1 chunks first.valid first.partial in
    record {
      whole =
          sym (append_assoc (unread b) chunk (concat chunks))
          ∙ ap (λ s. s ++ concat chunks) (sym (unread-recv_append b chunk v) ∙ first.whole)
          ∙ append_assoc (join r.0) (unread r.1) (concat chunks)
          ∙ ap (λ s. join r.0 ++ s) later.whole
          ∙ sym (append_assoc (join r.0) (join (receive r.1 chunks).0) _)
          ∙ ap (λ s. s ++ unread (receive r.1 chunks).1)
              (sym (join-append r.0 (receive r.1 chunks).0));
      lines = NoLf-append r.0 (receive r.1 chunks).0 first.lines later.lines;
      partial = later.partial;
      valid = later.valid;
    }

-- A text with a line feed behind it splits in one way.
split_unique :
    (x y s t : Text)
    → has_byte lf x ≡ false
    → has_byte lf y ≡ false
    → x ++ lf ∷ s ≡ y ++ lf ∷ t
    → (x ≡ y) × (s ≡ t)
split_unique [] [] s t hx hy e = (refl, cc)
split_unique [] (y ∷ ys) s t hx hy e = absurd (ground arith)
split_unique (x ∷ xs) [] s t hx hy e = absurd (ground arith)
split_unique (x ∷ xs) (y ∷ ys) s t hx hy e =
    let rest = split_unique xs ys s t (ground arith) (ground arith) (cc) in
    (ground (arith, rest.0), rest.1)

has_byte-middle : (s t : Text) → has_byte lf (s ++ lf ∷ t) ≡ true
has_byte-middle [] t = refl
has_byte-middle (x ∷ xs) t = ground (arith, has_byte-middle xs t)

-- Lines and rest are determined by the text.
pub lines_unique :
    (xs ys : List Text) (s t : Text)
    → NoLf xs
    → NoLf ys
    → has_byte lf s ≡ false
    → has_byte lf t ≡ false
    → join xs ++ s ≡ join ys ++ t
    → (xs ≡ ys) × (s ≡ t)
unfolding join
lines_unique [] [] s t hx hy hs ht e = (refl, e)
lines_unique [] (y ∷ ys) s t hx hy hs ht e = absurd (
    ground (
      arith,
      ap (has_byte lf) e,
      ap (has_byte lf) (append_assoc y (lf ∷ join ys) t),
      has_byte-middle y (join ys ++ t),
    ))
lines_unique (x ∷ xs) [] s t hx hy hs ht e = absurd (
    ground (
      arith,
      ap (has_byte lf) e,
      ap (has_byte lf) (append_assoc x (lf ∷ join xs) s),
      has_byte-middle x (join xs ++ s),
    ))
lines_unique (x ∷ xs) (y ∷ ys) s t hx hy hs ht e =
    let first =
      split_unique x y (join xs ++ s) (join ys ++ t) hx.0 hy.0
        (sym (append_assoc x (lf ∷ join xs) s) ∙ e ∙ append_assoc y (lf ∷ join ys) t) in
    let later = lines_unique xs ys s t hx.1 hy.1 hs ht first.1 in (cc (first.0, later.0), later.1)

-- For a valid buffer without a line feed in its unread text, two ways of cutting the same stream
-- into chunks give the same lines and leave the same text unread.
pub receive_chunking :
    (b : OffsetBuffer) (chunks chunks' : List Text)
    → IsValid b
    → has_byte lf (unread b) ≡ false
    → concat chunks ≡ concat chunks'
    → ((receive b chunks).0 ≡ (receive b chunks').0)
      × (unread (receive b chunks).1 ≡ unread (receive b chunks').1)
receive_chunking b chunks chunks' v absent same =
    let p = receive-Splits b chunks v absent in
    let q = receive-Splits b chunks' v absent in
    lines_unique _ _ _ _ p.lines q.lines p.partial q.partial
      (sym p.whole ∙ ap (λ s. unread b ++ s) same ∙ q.whole)

-- `has_line` says whether `parse_line` will find a line.
has_line_lem :
    (b : OffsetBuffer) → has_line b ≡ (elim (parse_line b).0 [ none ↦ false | some line ↦ true ])
unfolding has_line parse_line
has_line_lem b = ground arith
