-- ===== src/Reactor/Registry/Preserved.antt =====
-- Every command of the registry, whatever the kernel answers, keeps the indexes exact.
use socket_prac.Prelude.{
  ℕ, ℤ, ◌≡◌, refl, inl, inr, none, some, List, [], ◌∷◌, map, Text, Bool-cases, Option-cases, ◌==◌,
  int_eq, text_eq, lookup,
}
use socket_prac.Core.ErrorCode.{Expected, ok, unexpected}
use socket_prac.Protocol.Codec.{Command}
use socket_prac.Net.TlsSession.{TlsSession}
use socket_prac.Net.Socket.{SocketInfo, new_socket}
use socket_prac.Reactor.Registry.State.{
  Request, register_command, unregister_command, send_one_command, broadcast_command,
  change_nickname_command, set_user_id_command, set_joined_rooms_command,
  set_joined_rooms_for_user_command, send_friend_list_command, room_broadcast_command, Registry,
  no_fd, store, handle_change_nickname, handle_set_user_id, handle_set_joined_rooms_for_user,
  named_payload,
}
use socket_prac.Reactor.Registry.Handlers.{
  Kernel, open_session, with_session, register_fd, append_send, send_to, send_to_all,
  handle_broadcast, send_friends, handle_send_friend_list, handle_room_broadcast, handle_command,
  handle_all, work,
}
use socket_prac.Reactor.Registry.Sending.{
  with_send, with_out, called, append_send_cases, open_session-same,
}
use socket_prac.Reactor.Registry.Indexed.{IsIndexed}
use socket_prac.Reactor.Registry.Changes.{set_identity-IsIndexed, store-IsIndexed}
use socket_prac.Reactor.Registry.Entries.{
  unregister_fd-IsIndexed, at_sets, at_entry, handle_set_joined_rooms-IsIndexed,
  set_joined_rooms_all-IsIndexed, new_socket-IsIndexed,
}

module _ (kernel : Kernel) where
  append_send-IsIndexed :
      (fd : ℤ) (si : SocketInfo) (cmd : Command) (reg : Registry)
      → IsIndexed reg
      → lookup fd reg.infos ≡ some si
      → IsIndexed (append_send kernel fd si cmd reg).1
  append_send-IsIndexed fd si cmd reg v e =
      append_send_cases kernel (λ r. IsIndexed r.1) fd si cmd reg
        (λ _. store-IsIndexed fd si reg v e (with_send si cmd) refl refl refl) (λ _ _. stored)
        (λ ec _ _. unregister_fd-IsIndexed si.ufd (called (store fd (with_out si cmd) reg)) stored)
    where
      stored : IsIndexed (store fd (with_out si cmd) reg)
      stored = store-IsIndexed fd si reg v e (with_out si cmd) refl refl refl

  send_to-IsIndexed :
      (fd : ℤ) (cmd : Command) (reg : Registry)
      → IsIndexed reg
      → IsIndexed (send_to kernel fd cmd reg)
  unfolding send_to
  send_to-IsIndexed fd cmd reg v =
      at_entry fd reg (λ si. (append_send kernel fd si cmd reg).1) v
        (λ si e. append_send-IsIndexed fd si cmd reg v e)

  send_to_all-IsIndexed :
      (fds : List ℤ) (cmd : Command) (reg : Registry)
      → IsIndexed reg
      → IsIndexed (send_to_all kernel fds cmd reg)
  unfolding send_to_all
  send_to_all-IsIndexed [] cmd reg v = v
  send_to_all-IsIndexed (fd ∷ fds) cmd reg v =
      send_to_all-IsIndexed fds cmd (send_to kernel fd cmd reg) (send_to-IsIndexed fd cmd reg v)

  send_friends-IsIndexed :
      (fd : ℤ) (friend_ids : List Text) (reg : Registry)
      → IsIndexed reg
      → IsIndexed (send_friends kernel fd friend_ids reg)
  unfolding send_friends
  send_friends-IsIndexed fd [] reg v = v
  send_friends-IsIndexed fd (friend_id ∷ friend_ids) reg v =
      send_friends-IsIndexed fd friend_ids _ (elim (Option-cases (lookup fd reg.infos)) [
        | inl absent ↦ rw absent v
        | inr (si, e) ↦ rw e (append_send-IsIndexed fd si _ reg v e)
      ])

  handle_send_friend_list-IsIndexed :
      (fd : ℤ) (friend_ids : List Text) (reg : Registry)
      → IsIndexed reg
      → IsIndexed (handle_send_friend_list kernel fd friend_ids reg)
  unfolding handle_send_friend_list
  handle_send_friend_list-IsIndexed fd friend_ids reg v =
      at_entry fd reg _ v
        (λ si e. header (append_send kernel fd si _ reg) (append_send-IsIndexed fd si _ reg v e))
    where
      header :
          (r : Expected (Unit {0}) × Registry)
          → IsIndexed r.1
          → IsIndexed
              (elim r.0 [ ok _ ↦ send_friends kernel fd friend_ids r.1 | unexpected ec ↦ r.1 ])
      header (ok _, reg') v' = send_friends-IsIndexed fd friend_ids reg' v'
      header (unexpected ec, reg') v' = v'

  handle_room_broadcast-IsIndexed :
      (sender_fd room_id : ℤ) (cmd : Command) (reg : Registry)
      → IsIndexed reg
      → IsIndexed (handle_room_broadcast kernel sender_fd room_id cmd reg)
  unfolding handle_room_broadcast
  handle_room_broadcast-IsIndexed sender_fd room_id cmd reg v =
      at_sets room_id reg.room_online_fds reg _ v
        (λ fds. send_to_all-IsIndexed fds (named_payload sender_fd cmd reg) reg v)

  handle_set_joined_rooms_for_user-IsIndexed :
      (user_id : Text) (room_ids : List ℤ) (reg : Registry)
      → IsIndexed reg
      → IsIndexed (handle_set_joined_rooms_for_user user_id room_ids reg)
  unfolding handle_set_joined_rooms_for_user
  handle_set_joined_rooms_for_user-IsIndexed user_id room_ids reg v =
      at_sets user_id reg.user_online_fds reg _ v
        (λ fds. set_joined_rooms_all-IsIndexed fds room_ids reg v)

  register_fd-IsIndexed :
      (fd : ℤ) (interest : ℕ) (reg : Registry)
      → IsIndexed reg
      → IsIndexed (register_fd kernel fd interest reg).1
  unfolding register_fd with_session
  register_fd-IsIndexed fd interest reg v = elim (Bool-cases (fd == no_fd)) [
    | inl bad ↦ rw (bad, register_fd) v
    | inr good ↦ elim (Option-cases (lookup fd reg.infos)) [
      | inr (si, found) ↦ rw (good, register_fd) (rw found v)
      | inl absent ↦
          rw (good, register_fd)
            (rw absent (
              opened absent (open_session kernel fd interest reg)
                (open_session-same kernel fd interest reg)))
    ]
  ]
    where
      opened :
          lookup fd reg.infos ≡ none
          → (r : Expected TlsSession × Registry)
          → (r.1.infos ≡ reg.infos)
            × (r.1.room_online_fds ≡ reg.room_online_fds)
            × (r.1.user_online_fds ≡ reg.user_online_fds)
          → IsIndexed (with_session fd interest r).1
      opened absent (unexpected ec, reg') (a, b, c) = rw (a, b, c) v
      opened absent (ok tls, reg') same =
          new_socket-IsIndexed fd (new_socket tls interest fd) reg reg' v absent same refl refl refl

  handle_command-IsIndexed :
      (r : Request) (reg : Registry) → IsIndexed reg → IsIndexed (handle_command kernel r reg)
  unfolding handle_command handle_broadcast handle_change_nickname handle_set_user_id
  handle_command-IsIndexed (register_command fd interest) reg v =
      register_fd-IsIndexed fd interest reg v
  handle_command-IsIndexed (unregister_command fd) reg v = unregister_fd-IsIndexed fd reg v
  handle_command-IsIndexed (send_one_command fd cmd) reg v = send_to-IsIndexed fd cmd reg v
  handle_command-IsIndexed (broadcast_command fd cmd) reg v =
      send_to_all-IsIndexed (map (λ entry. entry.0) reg.infos) (named_payload fd cmd reg) reg v
  handle_command-IsIndexed (change_nickname_command fd nick) reg v =
      at_entry fd reg _ v
        (λ si e. store-IsIndexed fd si reg v e (record si { nickname = nick }) refl refl refl)
  handle_command-IsIndexed (set_user_id_command fd user_id) reg v =
      at_entry fd reg _ v (λ si e. set_identity-IsIndexed fd si reg v e user_id)
  handle_command-IsIndexed (set_joined_rooms_command fd room_ids) reg v =
      handle_set_joined_rooms-IsIndexed fd room_ids reg v
  handle_command-IsIndexed (set_joined_rooms_for_user_command user_id room_ids) reg v =
      handle_set_joined_rooms_for_user-IsIndexed user_id room_ids reg v
  handle_command-IsIndexed (send_friend_list_command fd friend_ids) reg v =
      handle_send_friend_list-IsIndexed fd friend_ids reg v
  handle_command-IsIndexed (room_broadcast_command sender_fd room_id cmd) reg v =
      handle_room_broadcast-IsIndexed sender_fd room_id cmd reg v

  handle_all-IsIndexed :
      (rs : List Request) (reg : Registry) → IsIndexed reg → IsIndexed (handle_all kernel rs reg)
  unfolding handle_all
  handle_all-IsIndexed [] reg v = v
  handle_all-IsIndexed (r ∷ rs) reg v =
      handle_all-IsIndexed rs (handle_command kernel r reg) (handle_command-IsIndexed r reg v)

  -- If the room and user indexes hold exactly the rooms and users of the connections before `work`, so
  -- they do after it, whatever commands are queued and whatever the kernel answers to each call.
  pub work-IsIndexed : (reg : Registry) → IsIndexed reg → IsIndexed (work kernel reg)
  unfolding work
  work-IsIndexed reg v = handle_all-IsIndexed reg.cmd_q (record reg { cmd_q = [] }) v
