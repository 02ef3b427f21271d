-- ===== src/Reactor/Registry/Sessions.antt =====
-- What the commands of a login do to the connections, one after the other.
use socket_prac.Prelude.{
  ℤ, pos, is_pos, ◌≡◌, refl, ◌∙◌, false, ◌&&◌, some, List, [], ◌∷◌, Text, arith, ◌==◌, int_eq,
  text_eq, Map, lookup, put, lookup-put, contains, beq_refl,
}
use socket_prac.Net.Socket.{SocketInfo}
use socket_prac.Reactor.Registry.State.{
  set_user_id_command, set_joined_rooms_command, change_nickname_command, Registry, remove_rooms,
  add_rooms, set_fd_joined_rooms, remove_fd_from_room_index, remove_fd_from_user_index,
  set_identity, handle_set_user_id, join_rooms, handle_set_joined_rooms, handle_change_nickname,
}
use socket_prac.Reactor.Registry.Handlers.{Kernel, handle_command, handle_all}
use socket_prac.Reactor.Registry.Rooms.{contains-add_rooms}

-- The connections after a change of one of them.
pub record Changed (fd : ℤ) (si : SocketInfo) (before after : Map ℤ SocketInfo) : Type 0 where
  pub here : lookup fd after ≡ some si
  pub others : (fd' : ℤ) → (fd == fd') ≡ false → lookup fd' after ≡ lookup fd' before

put-Changed :
    (fd : ℤ) (si : SocketInfo) (infos : Map ℤ SocketInfo) → Changed fd si infos (put fd si infos)
put-Changed fd si infos = record {
  here = ground (arith, lookup-put fd fd si infos, beq_refl fd);
  others = λ fd' other. ground (arith, lookup-put fd fd' si infos);
}

Changed-trans :
    {fd : ℤ} {si si' : SocketInfo} {a b c : Map ℤ SocketInfo}
    → Changed fd si a b
    → Changed fd si' b c
    → Changed fd si' a c
Changed-trans p q = record {
  here = q.here;
  others = λ fd' other. q.others fd' other ∙ p.others fd' other;
}

-- The set of rooms that a list of room ids leaves a connection with.
unfoldable pub room_set : List ℤ → List ℤ
unfolding add_rooms
room_set room_ids = (add_rooms (pos 0) room_ids [] []).0

add_rooms_joined :
    (fd fd' : ℤ) (room_ids joined : List ℤ) (idx idx' : Map ℤ (List ℤ))
    → (add_rooms fd room_ids joined idx).0 ≡ (add_rooms fd' room_ids joined idx').0
unfolding add_rooms
add_rooms_joined fd fd' [] joined idx idx' = refl
add_rooms_joined fd fd' (r ∷ rs) joined idx idx' = add_rooms_joined fd fd' rs _ _ _

pub contains-room_set :
    (room_ids : List ℤ) (room_id : ℤ)
    → contains room_id (room_set room_ids) ≡ (contains room_id room_ids && is_pos room_id)
unfolding room_set contains
contains-room_set room_ids room_id =
    contains-add_rooms (pos 0) room_ids [] [] room_id ∙ ground arith

module _ (fd : ℤ) (si : SocketInfo) (reg : Registry) (found : lookup fd reg.infos ≡ some si) where
  set_user_id-Changed :
      (user_id : Text)
      → Changed fd
          (record si { user_id = user_id; joined_room_ids = [] })
          reg.infos
          (handle_set_user_id fd user_id reg).infos
  unfolding handle_set_user_id set_identity set_fd_joined_rooms remove_fd_from_room_index
      remove_fd_from_user_index add_rooms
  set_user_id-Changed user_id = rw (found, handle_set_user_id) (put-Changed fd _ reg.infos)

  set_joined_rooms-Changed :
      (room_ids : List ℤ)
      → Changed fd
          (record si { joined_room_ids = room_set room_ids })
          reg.infos
          (handle_set_joined_rooms fd room_ids reg).infos
  unfolding handle_set_joined_rooms join_rooms set_fd_joined_rooms remove_fd_from_room_index
      room_set
  set_joined_rooms-Changed room_ids =
      rw
        (
          found,
          handle_set_joined_rooms,
          add_rooms_joined (pos 0) si.ufd room_ids [] []
              (remove_rooms si.ufd si.joined_room_ids reg.room_online_fds),
        )
        (put-Changed fd _ reg.infos)

  change_nickname-Changed :
      (nick : Text)
      → Changed fd
          (record si { nickname = nick })
          reg.infos
          (handle_change_nickname fd nick reg).infos
  unfolding handle_change_nickname
  change_nickname-Changed nick = rw (found, handle_change_nickname) (put-Changed fd _ reg.infos)

-- With the rooms as the list that `room_set` makes of them.
pub room_set-Changed :
    (kernel : Kernel) (fd : ℤ) (si : SocketInfo) (reg : Registry) (user_id : Text)
    (room_ids : List ℤ) (nick : Text)
    → lookup fd reg.infos ≡ some si
    → Changed fd
        (record si { user_id = user_id; joined_room_ids = room_set room_ids; nickname = nick })
        reg.infos
        (handle_all kernel
          (set_user_id_command fd user_id
            ∷ set_joined_rooms_command fd room_ids
            ∷ change_nickname_command fd nick
            ∷ [])
          reg).infos
unfolding handle_all handle_command
room_set-Changed kernel fd si reg user_id room_ids nick found =
    let reg1 = handle_set_user_id fd user_id reg in
    let reg2 = handle_set_joined_rooms fd room_ids reg1 in
    let c1 = set_user_id-Changed fd si reg found user_id in
    let c2 = set_joined_rooms-Changed fd _ reg1 c1.here room_ids in
    Changed-trans c1 (Changed-trans c2 (change_nickname-Changed fd _ reg2 c2.here nick))

-- The three commands of a login, handled in their order, give the connection of a descriptor that
-- is connected the user and the nickname that they carry and, in place of the rooms it had joined,
-- exactly the carried ones with a positive id. They change nothing else of that connection and no
-- other connection, whatever the kernel answers.
pub identity-Changed :
    (kernel : Kernel) (fd : ℤ) (si : SocketInfo) (reg : Registry) (user_id : Text)
    (room_ids : List ℤ) (nick : Text)
    → lookup fd reg.infos ≡ some si
    → (si' : SocketInfo) × Changed fd si' reg.infos
        (handle_all kernel
          (set_user_id_command fd user_id
            ∷ set_joined_rooms_command fd room_ids
            ∷ change_nickname_command fd nick
            ∷ [])
          reg).infos
      × (si'.user_id ≡ user_id)
      × (si'.nickname ≡ nick)
      × ((room_id : ℤ)
          → contains room_id si'.joined_room_ids ≡ (contains room_id room_ids && is_pos room_id))
      × (record si' {
        user_id = si.user_id;
        joined_room_ids = si.joined_room_ids;
        nickname = si.nickname;
      }
          ≡ si)
identity-Changed kernel fd si reg user_id room_ids nick found = (
  record si { user_id = user_id; joined_room_ids = room_set room_ids; nickname = nick },
  room_set-Changed kernel fd si reg user_id room_ids nick found,
  refl,
  refl,
  contains-room_set room_ids,
  refl,
)
