-- ===== src/Reactor/Interest.antt =====
-- The epoll event masks (uint32_t). A bit is given by its value, a power of two.
use socket_prac.Prelude.{ℕ, ◌+◌, ◌-◌, ◌/◌, ◌%◌, ◌≡◌, Bool, true, false, arith, eqb, if◌then◌else◌}

abbrev pub epollin : ℕ
epollin = 1

abbrev pub epollout : ℕ
epollout = 4

abbrev pub epollerr : ℕ
epollerr = 8

abbrev pub epollhup : ℕ
epollhup = 16

abbrev pub epollrdhup : ℕ
epollrdhup = 8192

-- `(events & bit) != 0`
unfoldable pub has_bit : ℕ → ℕ → Bool
has_bit bit events = eqb ((events / bit) % 2) 1

-- `events | bit`
unfoldable pub set_bit : ℕ → ℕ → ℕ
unfolding has_bit
set_bit bit events = if has_bit bit events then events else events + bit

-- `events & ~bit`
unfoldable pub clear_bit : ℕ → ℕ → ℕ
unfolding has_bit
clear_bit bit events = if has_bit bit events then events - bit else events

pub has_bit-set_bit : (events : ℕ) → has_bit epollout (set_bit epollout events) ≡ true
unfolding set_bit
has_bit-set_bit events = ground arith

pub has_bit-clear_bit : (events : ℕ) → has_bit epollout (clear_bit epollout events) ≡ false
unfolding clear_bit
has_bit-clear_bit events = ground arith
