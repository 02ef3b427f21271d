-- ===== src/Reactor/Registry/Wakeup.antt =====
-- A connection with unread output asks for EPOLLOUT, whatever commands are handled.
use socket_prac.Prelude.{
  ℕ, ℤ, refl, sym, inl, inr, List, [], ◌∷◌, map, Text, Bool-cases, Option-cases, ◌==◌, int_eq,
  text_eq, lookup, put,
}
use mathlib.Core.Path.{subst}
use socket_prac.Core.ErrorCode.{Expected, ok, unexpected}
use socket_prac.Protocol.Codec.{Command}
use socket_prac.Net.TlsSession.{TlsSession}
use socket_prac.Net.Socket.{SocketInfo}
use socket_prac.Reactor.Registry.State.{
  Request, register_command, unregister_command, send_one_command, broadcast_command,
  change_nickname_command, set_user_id_command, set_joined_rooms_command,
  set_joined_rooms_for_user_command, send_friend_list_command, room_broadcast_command, Registry,
  no_fd, store, handle_change_nickname, set_joined_rooms_all, handle_set_joined_rooms_for_user,
  named_payload,
}
use socket_prac.Reactor.Registry.Handlers.{
  Kernel, open_session, with_session, register_fd, append_send, send_to, send_to_all,
  handle_broadcast, send_friends, handle_send_friend_list, handle_room_broadcast, handle_command,
  handle_all, work,
}
use socket_prac.Reactor.Registry.Sending.{
  with_send, with_out, called, append_send_cases, open_session-same,
}
use socket_prac.Reactor.Registry.Armed.{
  IsArmed, AllArmed, Armed, put-AllArmed, unregister_fd-Armed, at_entry, at_sets, same_output,
  handle_set_joined_rooms-Armed, set_joined_rooms_all-Armed, handle_set_user_id-Armed,
  with_send-IsArmed, with_out-IsArmed, new_socket-IsArmed,
}

with_session-Armed :
    (fd : ℤ) (interest : ℕ) (r : Expected TlsSession × Registry)
    → Armed r.1
    → Armed (with_session fd interest r).1
unfolding with_session
with_session-Armed fd interest (unexpected ec, reg) v = v
with_session-Armed fd interest (ok tls, reg) v =
    put-AllArmed fd _ reg.infos v (new_socket-IsArmed tls interest fd)

module _ (kernel : Kernel) where
  append_send-Armed :
      (fd : ℤ) (si : SocketInfo) (cmd : Command) (reg : Registry)
      → Armed reg
      → IsArmed si
      → Armed (append_send kernel fd si cmd reg).1
  append_send-Armed fd si cmd reg v a =
      append_send_cases kernel (λ r. Armed r.1) fd si cmd reg
        (λ quiet. put-AllArmed fd (with_send si cmd) reg.infos v (with_send-IsArmed si cmd quiet a))
        (λ _ _. stored)
        (λ ec _ _. unregister_fd-Armed si.ufd (called (store fd (with_out si cmd) reg)) stored)
    where
      stored : AllArmed (put fd (with_out si cmd) reg.infos)
      stored = put-AllArmed fd (with_out si cmd) reg.infos v (with_out-IsArmed si cmd a)

  send_to-Armed :
      (fd : ℤ) (cmd : Command) (reg : Registry) → Armed reg → Armed (send_to kernel fd cmd reg)
  unfolding send_to
  send_to-Armed fd cmd reg v =
      at_entry fd reg (λ si. (append_send kernel fd si cmd reg).1) v
        (λ si a. append_send-Armed fd si cmd reg v a)

  send_to_all-Armed :
      (fds : List ℤ) (cmd : Command) (reg : Registry)
      → Armed reg
      → Armed (send_to_all kernel fds cmd reg)
  unfolding send_to_all
  send_to_all-Armed [] cmd reg v = v
  send_to_all-Armed (fd ∷ fds) cmd reg v =
      send_to_all-Armed fds cmd (send_to kernel fd cmd reg) (send_to-Armed fd cmd reg v)

  send_friends-Armed :
      (fd : ℤ) (friend_ids : List Text) (reg : Registry)
      → Armed reg
      → Armed (send_friends kernel fd friend_ids reg)
  unfolding send_friends
  send_friends-Armed fd [] reg v = v
  send_friends-Armed fd (friend_id ∷ friend_ids) reg v =
      send_friends-Armed fd friend_ids _ (elim (Option-cases (lookup fd reg.infos)) [
        | inl absent ↦ rw absent v
        | inr (si, e) ↦ rw e (append_send-Armed fd si _ reg v (v.at_fd fd si e))
      ])

  handle_send_friend_list-Armed :
      (fd : ℤ) (friend_ids : List Text) (reg : Registry)
      → Armed reg
      → Armed (handle_send_friend_list kernel fd friend_ids reg)
  unfolding handle_send_friend_list
  handle_send_friend_list-Armed fd friend_ids reg v =
      at_entry fd reg _ v
        (λ si a. header (append_send kernel fd si _ reg) (append_send-Armed fd si _ reg v a))
    where
      header :
          (r : Expected (Unit {0}) × Registry)
          → Armed r.1
          → Armed (elim r.0 [ ok _ ↦ send_friends kernel fd friend_ids r.1 | unexpected ec ↦ r.1 ])
      header (ok _, reg') v' = send_friends-Armed fd friend_ids reg' v'
      header (unexpected ec, reg') v' = v'

  register_fd-Armed :
      (fd : ℤ) (interest : ℕ) (reg : Registry)
      → Armed reg
      → Armed (register_fd kernel fd interest reg).1
  unfolding register_fd
  register_fd-Armed fd interest reg v = elim (Bool-cases (fd == no_fd)) [
    | inl bad ↦ rw (bad, register_fd) v
    | inr good ↦ elim (Option-cases (lookup fd reg.infos)) [
      | inr (si, found) ↦ rw (good, register_fd) (rw found v)
      | inl absent ↦
          rw (good, register_fd)
            (rw absent (
              with_session-Armed fd interest (open_session kernel fd interest reg)
                (subst AllArmed (sym (open_session-same kernel fd interest reg).0) v)))
    ]
  ]

  handle_command-Armed :
      (r : Request) (reg : Registry) → Armed reg → Armed (handle_command kernel r reg)
  unfolding handle_command handle_broadcast handle_change_nickname handle_set_joined_rooms_for_user
      handle_room_broadcast
  handle_command-Armed (register_command fd interest) reg v = register_fd-Armed fd interest reg v
  handle_command-Armed (unregister_command fd) reg v = unregister_fd-Armed fd reg v
  handle_command-Armed (send_one_command fd cmd) reg v = send_to-Armed fd cmd reg v
  handle_command-Armed (broadcast_command fd cmd) reg v =
      send_to_all-Armed (map (λ entry. entry.0) reg.infos) (named_payload fd cmd reg) reg v
  handle_command-Armed (change_nickname_command fd nick) reg v =
      at_entry fd reg _ v (λ si a. put-AllArmed fd _ reg.infos v (same_output si _ refl refl a))
  handle_command-Armed (set_user_id_command fd user_id) reg v =
      handle_set_user_id-Armed fd user_id reg v
  handle_command-Armed (set_joined_rooms_command fd room_ids) reg v =
      handle_set_joined_rooms-Armed fd room_ids reg v
  handle_command-Armed (set_joined_rooms_for_user_command user_id room_ids) reg v =
      at_sets (lookup user_id reg.user_online_fds) reg
        (λ fds. set_joined_rooms_all fds room_ids reg) v
        (λ fds. set_joined_rooms_all-Armed fds room_ids reg v)
  handle_command-Armed (send_friend_list_command fd friend_ids) reg v =
      handle_send_friend_list-Armed fd friend_ids reg v
  handle_command-Armed (room_broadcast_command sender_fd room_id cmd) reg v =
      at_sets (lookup room_id reg.room_online_fds) reg
        (λ fds. send_to_all kernel fds (named_payload sender_fd cmd reg) reg) v
        (λ fds. send_to_all-Armed fds (named_payload sender_fd cmd reg) reg v)

  handle_all-Armed :
      (rs : List Request) (reg : Registry) → Armed reg → Armed (handle_all kernel rs reg)
  unfolding handle_all
  handle_all-Armed [] reg v = v
  handle_all-Armed (r ∷ rs) reg v =
      handle_all-Armed rs (handle_command kernel r reg) (handle_command-Armed r reg v)

  -- If every connection with unread output has EPOLLOUT among its events, then so it is after `work`,
  -- whatever commands are queued and the kernel answers.
  pub work-Armed : (reg : Registry) → Armed reg → Armed (work kernel reg)
  unfolding work
  work-Armed reg v = handle_all-Armed reg.cmd_q (record reg { cmd_q = [] }) v
