-- ===== src/Reactor/Registry/Handlers.antt =====
-- The parts of src/reactor/epoll_registry.cpp that call the kernel or OpenSSL, with the epoll_ctl
-- wrappers of src/reactor/epoll_utility.cpp, and the dispatch of the queued commands.
use socket_prac.Prelude.{
  ℕ, suc, ◌+◌, ℤ, Bool, true, false, not, Option, none, some, List, [], ◌∷◌, ◌++◌, map, Text, codes,
  length, ◌==◌, int_eq, text_eq, if◌then◌else◌, lookup, put,
}
use socket_prac.Core.ErrorCode.{Expected, ok, unexpected, from_errno, from_gai, einval, eexist}
use socket_prac.Core.Number.{to_string_ℕ}
use socket_prac.Protocol.Codec.{Command, cmd_response, encode}
use socket_prac.Net.Buffer.{send_append}
use socket_prac.Net.TlsSession.{TlsSession}
use socket_prac.Net.Socket.{SocketInfo, new_socket}
use socket_prac.Reactor.Interest.{epollout, set_bit}
use socket_prac.Reactor.Registry.State.{
  Request, register_command, unregister_command, send_one_command, broadcast_command,
  change_nickname_command, set_user_id_command, set_joined_rooms_command,
  set_joined_rooms_for_user_command, send_friend_list_command, room_broadcast_command, Registry,
  store, no_fd, unregister_fd, named_payload, handle_change_nickname, handle_set_user_id,
  handle_set_joined_rooms, handle_set_joined_rooms_for_user, friend_line,
}

-- What the kernel and OpenSSL answer to the n-th call: an errno, or `none` for success.
pub record Kernel : Type 0 where
  pub fcntl : ℕ → ℤ → Option ℕ
  pub getpeername : ℕ → ℤ → Option ℕ
  pub getnameinfo : ℕ → ℤ → Option ℤ
  pub epoll_ctl_add : ℕ → ℤ → ℕ → Option ℕ
  pub epoll_ctl_mod : ℕ → ℤ → ℕ → Option ℕ
  pub create_server : ℕ → ℤ → Expected TlsSession

abbrev pub errno_exp : Option ℕ → Expected (Unit {0})
errno_exp none = ok tt
errno_exp (some ec) = unexpected (from_errno ec)

abbrev pub gai_exp : Option ℤ → Expected (Unit {0})
gai_exp none = ok tt
gai_exp (some ec) = unexpected (from_gai ec)

abbrev pub is_some {ℓ} : {A : Type ℓ} → Option A → Bool
is_some none = false
is_some (some a) = true

-- The end of `register_fd`: the entry of a session that was made.
unfoldable pub with_session : ℤ → ℕ → Expected TlsSession × Registry → Expected ℤ × Registry
with_session fd interest (unexpected ec, reg) = (unexpected ec, reg)
with_session fd interest (ok tls, reg) =
    let infos' = put fd (new_socket tls interest fd) reg.infos in
    (ok fd, record reg { infos = infos'; connected_client_count = length infos' })

module _ (kernel : Kernel) where
  -- The steps of `register_fd` before the entry: each has one call, and the first failure returns.
  unfoldable pub open_session : ℤ → ℕ → Registry → Expected TlsSession × Registry
  open_session fd interest reg =
      let n = reg.calls in
      let at = λ (k : ℕ). record reg { calls = n + k } in
      elim (errno_exp (kernel.fcntl n fd)) [
        | unexpected ec ↦ (unexpected ec, at 1)
        | ok _ ↦ elim (errno_exp (kernel.getpeername (n + 1) fd)) [
          | unexpected ec ↦ (unexpected ec, at 2)
          | ok _ ↦ elim (gai_exp (kernel.getnameinfo (n + 2) fd)) [
            | unexpected ec ↦ (unexpected ec, at 3)
            | ok _ ↦ elim (errno_exp (kernel.epoll_ctl_add (n + 3) fd interest)) [
              | unexpected ec ↦ (unexpected ec, at 4)
              | ok _ ↦ (kernel.create_server (n + 4) fd, at 5)
            ]
          ]
        ]
      ]

  unfoldable pub register_fd : ℤ → ℕ → Registry → Expected ℤ × Registry
  unfolding open_session with_session
  register_fd fd interest reg =
      if fd == no_fd then (unexpected (from_errno einval), reg) else elim (lookup fd reg.infos) [
        | some si ↦ (unexpected (from_errno eexist), reg)
        | none ↦ with_session fd interest (open_session fd interest reg)
      ]

  -- EPOLL_CTL_MOD; a failure unregisters the connection.
  unfoldable pub sync_interest : SocketInfo → Registry → Expected (Unit {0}) × Registry
  unfolding unregister_fd
  sync_interest si reg =
      let reg' = record reg { calls = suc reg.calls } in
      elim (kernel.epoll_ctl_mod reg.calls si.ufd si.interest) [
        | none ↦ (ok tt, reg')
        | some ec ↦ (unexpected (from_errno ec), (unregister_fd si.ufd reg').1)
      ]

  -- When `sync_interest` fails the entry is gone, and the log line reads it.
  unfoldable pub append_send : ℤ → SocketInfo → Command → Registry → Expected (Unit {0}) × Registry
  unfolding sync_interest send_append
  append_send fd si cmd reg =
      let (send, armed) = send_append si.send (encode cmd) in
      let si' = record si { send = send } in
      if not armed
      then (ok tt, store fd si' reg)
      else let si'' = record si' { interest = set_bit epollout si.interest } in
        let (r, reg') = sync_interest si'' (store fd si'' reg) in
        elim r [
          | ok _ ↦ (ok tt, reg')
          | unexpected ec ↦ (unexpected ec, record reg' { dangling = true })
        ]

  -- `append_send` on the entry of `fd`, if there is one.
  unfoldable pub send_to : ℤ → Command → Registry → Registry
  unfolding append_send
  send_to fd cmd reg = elim (lookup fd reg.infos) [
    | none ↦ reg
    | some si ↦ (append_send fd si cmd reg).1
  ]

  unfoldable pub send_to_all : List ℤ → Command → Registry → Registry
  unfolding send_to
  send_to_all [] cmd reg = reg
  send_to_all (fd ∷ fds) cmd reg = send_to_all fds cmd (send_to fd cmd reg)

  unfoldable pub handle_broadcast : ℤ → Command → Registry → Registry
  unfolding send_to_all named_payload
  handle_broadcast fd cmd reg =
      send_to_all (map (λ entry. entry.0) reg.infos) (named_payload fd cmd reg) reg

  -- The reference `it` outlives the entry when a send fails.
  unfoldable pub send_friends : ℤ → List Text → Registry → Registry
  unfolding append_send
  send_friends fd [] reg = reg
  send_friends fd (friend_id ∷ friend_ids) reg =
      let is_online = is_some (lookup friend_id reg.user_online_fds) in
      send_friends fd friend_ids (elim (lookup fd reg.infos) [
        | none ↦ record reg { dangling = true }
        | some si ↦ (append_send fd si (cmd_response (friend_line friend_id is_online)) reg).1
      ])

  unfoldable pub handle_send_friend_list : ℤ → List Text → Registry → Registry
  unfolding send_friends
  handle_send_friend_list fd friend_ids reg = elim (lookup fd reg.infos) [
    | none ↦ reg
    | some si ↦
        let (header_exp, reg') =
          append_send fd si (cmd_response (codes "friends: " ++ to_string_ℕ (length friend_ids)))
            reg in
        elim header_exp [ ok _ ↦ send_friends fd friend_ids reg' | unexpected ec ↦ reg' ]
  ]

  -- The set of the room is copied before the loop.
  unfoldable pub handle_room_broadcast : ℤ → ℤ → Command → Registry → Registry
  unfolding send_to_all named_payload
  handle_room_broadcast sender_fd room_id cmd reg = elim (lookup room_id reg.room_online_fds) [
    | none ↦ reg
    | some targets ↦ send_to_all targets (named_payload sender_fd cmd reg) reg
  ]

  unfoldable pub handle_command : Request → Registry → Registry
  unfolding register_fd unregister_fd send_to handle_broadcast handle_change_nickname
      handle_set_user_id handle_set_joined_rooms handle_set_joined_rooms_for_user
      handle_send_friend_list handle_room_broadcast
  handle_command (register_command fd interest) reg = (register_fd fd interest reg).1
  handle_command (unregister_command fd) reg = (unregister_fd fd reg).1
  handle_command (send_one_command fd cmd) reg = send_to fd cmd reg
  handle_command (broadcast_command fd cmd) reg = handle_broadcast fd cmd reg
  handle_command (change_nickname_command fd nick) reg = handle_change_nickname fd nick reg
  handle_command (set_user_id_command fd user_id) reg = handle_set_user_id fd user_id reg
  handle_command (set_joined_rooms_command fd room_ids) reg =
      handle_set_joined_rooms fd room_ids reg
  handle_command (set_joined_rooms_for_user_command user_id room_ids) reg =
      handle_set_joined_rooms_for_user user_id room_ids reg
  handle_command (send_friend_list_command fd friend_ids) reg =
      handle_send_friend_list fd friend_ids reg
  handle_command (room_broadcast_command sender_fd room_id cmd) reg =
      handle_room_broadcast sender_fd room_id cmd reg

  unfoldable pub handle_all : List Request → Registry → Registry
  unfolding handle_command
  handle_all [] reg = reg
  handle_all (request ∷ requests) reg = handle_all requests (handle_command request reg)

  -- The queue is swapped out under the lock, and its commands are handled in order.
  unfoldable pub work : Registry → Registry
  unfolding handle_all
  work reg = handle_all reg.cmd_q (record reg { cmd_q = [] })
