-- ===== src/Reactor/Registry/Delivery.antt =====
-- Whom a message reaches, as long as the kernel accepts every EPOLL_CTL_MOD.
use socket_prac.Prelude.{
  ℕ, ℤ, ◌≡◌, refl, sym, ap, ◌∙◌, inl, inr, Bool, true, false, Option, none, some, List, [], ◌∷◌,
  ◌++◌, append-nil, arith, if◌then◌else◌, Bool-cases, Option-cases, ◌==◌, int_eq, text_eq, eq_ℤ_iff,
  lookup, put, lookup-put, contains, Text, codes, is_empty,
}
use socket_prac.Protocol.Codec.{Command, cmd_response, encode}
use socket_prac.Net.Buffer.{unread}
use socket_prac.Net.Buffer.View.{IsValid, unread-send_append}
use socket_prac.Net.Socket.{SocketInfo}
use socket_prac.Reactor.Interest.{epollout, set_bit}
use socket_prac.Reactor.Index.{Distinct, indexed}
use socket_prac.Reactor.Registry.State.{Registry, named_payload, sender_name}
use socket_prac.Reactor.Registry.Handlers.{
  Kernel, append_send, send_to, send_to_all, handle_room_broadcast,
}
use socket_prac.Reactor.Registry.Indexed.{IsIndexed, joined_in}
use socket_prac.Reactor.Registry.Sending.{with_send, with_out, armed, append_send_cases}

-- The kernel accepts every change of the events of a descriptor.
abbrev pub AcceptsMods : Kernel → Type 0
AcceptsMods kernel = (n : ℕ) (fd : ℤ) (interest : ℕ) → kernel.epoll_ctl_mod n fd interest ≡ none

-- How the members of a room read a response: behind the name of its sender.
abbrev pub spoken_name : Option SocketInfo → Text
spoken_name none = codes "guest"
spoken_name (some si) = if is_empty si.nickname then codes "guest" else si.nickname

abbrev pub spoken : Option SocketInfo → Command → Command
spoken sender (cmd_response text) = cmd_response (spoken_name sender ++ (codes ": " ++ text))
spoken sender cmd = cmd

named_payload_lem :
    (fd : ℤ) (cmd : Command) (reg : Registry)
    → named_payload fd cmd reg ≡ spoken (lookup fd reg.infos) cmd
unfolding named_payload sender_name
named_payload_lem fd (cmd_response text) reg = elim (Option-cases (lookup fd reg.infos)) [
  | inl absent ↦ rw (absent, named_payload, sender_name) refl
  | inr (si, found) ↦ rw (found, named_payload, sender_name) refl
]
named_payload_lem fd cmd reg = refl

-- A connection after a message was queued for it.
abbrev pub queued : Command → SocketInfo → SocketInfo
queued cmd si = if armed si cmd then with_out si cmd else with_send si cmd

abbrev pub after_send : Command → Bool → Option SocketInfo → Option SocketInfo
after_send cmd b none = none
after_send cmd b (some si) = some (if b then queued cmd si else si)

after_send-false : (cmd : Command) (o : Option SocketInfo) → after_send cmd false o ≡ o
after_send-false cmd none = refl
after_send-false cmd (some si) = refl

after_send_twice :
    (cmd : Command) (a b : Bool) (o : Option SocketInfo)
    → (a ≡ true → b ≡ false)
    → after_send cmd b (after_send cmd a o) ≡ after_send cmd (if a then true else b) o
after_send_twice cmd a b none once = refl
after_send_twice cmd true b (some si) once = rw (once refl) refl
after_send_twice cmd false b (some si) once = refl

pub unread-after :
    (cmd : Command) (b : Bool) (si : SocketInfo)
    → IsValid si.send
    → unread (if b then queued cmd si else si).send
      ≡ unread si.send ++ (if b then encode cmd else [])
unread-after cmd true si valid = elim (Bool-cases (armed si cmd)) [
  | inl e ↦ rw e (unread-send_append si.send (encode cmd) valid)
  | inr e ↦ rw e (unread-send_append si.send (encode cmd) valid)
]
unread-after cmd false si valid = sym (append-nil (unread si.send))

pub same-after :
    (cmd : Command) (b : Bool) (si : SocketInfo)
    → record (if b then queued cmd si else si) { send = si.send; interest = si.interest } ≡ si
same-after cmd true si = elim (Bool-cases (armed si cmd)) [ inl e ↦ rw e refl | inr e ↦ rw e refl ]
same-after cmd false si = refl

module _ (kernel : Kernel) (accepts : AcceptsMods kernel) where
  append_send-infos :
      (fd : ℤ) (si : SocketInfo) (cmd : Command) (reg : Registry)
      → (append_send kernel fd si cmd reg).1.infos ≡ put fd (queued cmd si) reg.infos
        × ((append_send kernel fd si cmd reg).1.room_online_fds ≡ reg.room_online_fds)
  append_send-infos fd si cmd reg =
      append_send_cases kernel
        (λ r.
          (r.1.infos ≡ put fd (queued cmd si) reg.infos)
          × (r.1.room_online_fds ≡ reg.room_online_fds))
        fd si cmd reg (λ e. (rw e refl, refl)) (λ e _. (rw e refl, refl))
        (λ ec _ m. absurd (ground (arith, accepts reg.calls si.ufd (set_bit epollout si.interest))))

  pub lookup-send_to :
      (fd fd' : ℤ) (cmd : Command) (reg : Registry)
      → lookup fd' (send_to kernel fd cmd reg).infos
        ≡ after_send cmd (fd == fd') (lookup fd' reg.infos)
  unfolding send_to
  lookup-send_to fd fd' cmd reg = elim (Option-cases (lookup fd reg.infos)) [
    | inl absent ↦ elim (Bool-cases (fd == fd')) [
      | inl same ↦ rw (absent, send_to) (ground (arith, eq_ℤ_iff fd fd', absent))
      | inr other ↦ rw (absent, send_to, other) (sym (after_send-false cmd (lookup fd' reg.infos)))
    ]
    | inr (si, e) ↦
        rw
          (
            e,
            send_to,
            (append_send-infos fd si cmd reg).0,
            lookup-put fd fd' (queued cmd si) reg.infos,
          )
          (elim (Bool-cases (fd == fd')) [
            | inl same ↦ ground (arith, eq_ℤ_iff fd fd')
            | inr other ↦ rw other (sym (after_send-false cmd (lookup fd' reg.infos)))
          ])
  ]

  pub lookup-send_to_all :
      (fds : List ℤ) (fd' : ℤ) (cmd : Command) (reg : Registry)
      → Distinct fds
      → lookup fd' (send_to_all kernel fds cmd reg).infos
        ≡ after_send cmd (contains fd' fds) (lookup fd' reg.infos)
  unfolding send_to_all contains
  lookup-send_to_all [] fd' cmd reg d = sym (after_send-false cmd (lookup fd' reg.infos))
  lookup-send_to_all (fd ∷ fds) fd' cmd reg d =
      lookup-send_to_all fds fd' cmd (send_to kernel fd cmd reg) d.1
      ∙ ap (after_send cmd (contains fd' fds)) (lookup-send_to fd fd' cmd reg)
      ∙ after_send_twice cmd (fd == fd') (contains fd' fds) (lookup fd' reg.infos)
          (λ same. ground (arith, eq_ℤ_iff fd fd', d.0))

  pub handle_room_broadcast-members :
      (sender_fd room_id fd : ℤ) (cmd : Command) (reg : Registry)
      → IsIndexed reg
      → lookup fd (handle_room_broadcast kernel sender_fd room_id cmd reg).infos
        ≡ after_send
            (named_payload sender_fd cmd reg)
            (joined_in room_id (lookup fd reg.infos))
            (lookup fd reg.infos)
  unfolding handle_room_broadcast indexed contains
  handle_room_broadcast-members sender_fd room_id fd cmd reg v =
      elim (Option-cases (lookup room_id reg.room_online_fds)) [
        | inl absent ↦
            rw (absent, handle_room_broadcast, sym (v.by_room room_id fd))
              (rw (absent, indexed)
                (sym (after_send-false (named_payload sender_fd cmd reg) (lookup fd reg.infos))))
        | inr (fds, found) ↦
            rw (found, handle_room_broadcast, sym (v.by_room room_id fd))
              (rw (found, indexed)
                (lookup-send_to_all fds fd _ reg (v.room_sets.at_key room_id fds found).0))
      ]

  -- When the kernel accepts every change of events, a room broadcast of a command puts its encoding
  -- once at the end of the unread output of each connection that has joined the room and of no other
  -- connection; the text of a response then stands behind the nickname of the sender's connection, or
  -- behind "guest" without a connection or a nickname, and ": ". Nothing but the output and the
  -- events of a connection changes.
  pub handle_room_broadcast_reaches :
      (sender_fd room_id fd : ℤ) (cmd : Command) (si : SocketInfo) (reg : Registry)
      → IsIndexed reg
      → lookup fd reg.infos ≡ some si
      → IsValid si.send
      → (si' : SocketInfo) × (lookup fd
            (handle_room_broadcast kernel sender_fd room_id cmd reg).infos
          ≡ some si')
        × (unread si'.send
            ≡ unread si.send
              ++ (if contains room_id si.joined_room_ids
                  then encode (spoken (lookup sender_fd reg.infos) cmd)
                  else []))
        × (record si' { send = si.send; interest = si.interest } ≡ si)
  handle_room_broadcast_reaches sender_fd room_id fd cmd si reg v found valid =
      let payload = named_payload sender_fd cmd reg in
      let members = handle_room_broadcast-members sender_fd room_id fd cmd reg v in
      (
        (if contains room_id si.joined_room_ids then queued payload si else si),
        members ∙ ap (λ o. after_send payload (joined_in room_id o) o) found,
        unread-after payload (contains room_id si.joined_room_ids) si valid
            ∙ ap
                (λ (said : Command).
                  unread si.send
                  ++ (if contains room_id si.joined_room_ids then encode said else []))
                (named_payload_lem sender_fd cmd reg),
        same-after payload (contains room_id si.joined_room_ids) si,
      )
