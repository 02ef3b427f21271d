-- ===== src/Reactor/Registry/Sending.antt =====
-- The three ends of `append_send` of src/reactor/epoll_registry.cpp.
use socket_prac.Prelude.{
  ℕ, suc, ℤ, ◌≡◌, inl, inr, Bool, true, false, none, some, arith, Bool-cases, Option-cases, int_eq,
  text_eq,
}
use socket_prac.Core.ErrorCode.{Expected, ok, unexpected, from_errno}
use socket_prac.Protocol.Codec.{Command, encode}
use socket_prac.Net.Buffer.{send_append}
use socket_prac.Reactor.Interest.{epollout, set_bit}
use socket_prac.Net.Socket.{SocketInfo}
use socket_prac.Reactor.Registry.State.{Registry, store, unregister_fd}
use socket_prac.Reactor.Registry.Handlers.{Kernel, open_session, append_send}

-- The entry that `append_send` stores, and the one that it stores when it asks for EPOLLOUT.
abbrev pub with_send : SocketInfo → Command → SocketInfo
with_send si cmd = record si { send = (send_append si.send (encode cmd)).0 }

abbrev pub with_out : SocketInfo → Command → SocketInfo
with_out si cmd = record si {
  send = (send_append si.send (encode cmd)).0;
  interest = set_bit epollout si.interest;
}

abbrev pub armed : SocketInfo → Command → Bool
armed si cmd = (send_append si.send (encode cmd)).1

abbrev pub called : Registry → Registry
called reg = record reg { calls = suc reg.calls }

module _ (kernel : Kernel) where
  module _ (fd : ℤ) (si : SocketInfo) (cmd : Command) (reg : Registry) where
    append_send_quiet :
        armed si cmd ≡ false
        → append_send kernel fd si cmd reg ≡ (ok tt, store fd (with_send si cmd) reg)
    unfolding append_send
    append_send_quiet e = ground arith

    append_send_good :
        armed si cmd ≡ true
        → kernel.epoll_ctl_mod reg.calls si.ufd (set_bit epollout si.interest) ≡ none
        → append_send kernel fd si cmd reg ≡ (ok tt, called (store fd (with_out si cmd) reg))
    unfolding append_send
    append_send_good e m = ground arith

    append_send_bad :
        (ec : ℕ)
        → armed si cmd ≡ true
        → kernel.epoll_ctl_mod reg.calls si.ufd (set_bit epollout si.interest) ≡ some ec
        → append_send kernel fd si cmd reg ≡ (
          unexpected (from_errno ec),
          record ((unregister_fd si.ufd (called (store fd (with_out si cmd) reg))).1) {
            dangling = true;
          },
        )
    unfolding append_send
    append_send_bad ec e m = ground arith

  -- The three ends of `append_send`: nothing to ask for, EPOLLOUT set, or the connection dropped.
  pub append_send_cases {ℓ} :
      (P : Expected (Unit {0}) × Registry → Type ℓ) (fd : ℤ) (si : SocketInfo) (cmd : Command)
      (reg : Registry)
      → (armed si cmd ≡ false → P (ok tt, store fd (with_send si cmd) reg))
      → (armed si cmd ≡ true
          → kernel.epoll_ctl_mod reg.calls si.ufd (set_bit epollout si.interest) ≡ none
          → P (ok tt, called (store fd (with_out si cmd) reg)))
      → ((ec : ℕ)
          → armed si cmd ≡ true
          → kernel.epoll_ctl_mod reg.calls si.ufd (set_bit epollout si.interest) ≡ some ec
          → P (
            unexpected (from_errno ec),
            record ((unregister_fd si.ufd (called (store fd (with_out si cmd) reg))).1) {
              dangling = true;
            },
          ))
      → P (append_send kernel fd si cmd reg)
  append_send_cases P fd si cmd reg quiet good bad = elim (Bool-cases (armed si cmd)) [
    | inl e ↦
        elim (Option-cases (kernel.epoll_ctl_mod reg.calls si.ufd (set_bit epollout si.interest))) [
          | inl m ↦ rw (append_send_good fd si cmd reg e m) (good e m)
          | inr (ec, m) ↦ rw (append_send_bad fd si cmd reg ec e m) (bad ec e m)
        ]
    | inr e ↦ rw (append_send_quiet fd si cmd reg e) (quiet e)
  ]

  -- Opening a session touches neither the connections nor the indexes.
  pub open_session-same :
      (fd : ℤ) (interest : ℕ) (reg : Registry)
      → let reg' = (open_session kernel fd interest reg).1 in
        (reg'.infos ≡ reg.infos)
        × (reg'.room_online_fds ≡ reg.room_online_fds)
        × (reg'.user_online_fds ≡ reg.user_online_fds)
  unfolding open_session
  open_session-same fd interest reg = ground arith
