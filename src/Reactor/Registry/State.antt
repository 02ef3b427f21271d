-- ===== src/Reactor/Registry/State.antt =====
-- The state of include/reactor/epoll_registry.hpp and the parts of src/reactor/epoll_registry.cpp that make no
-- system call. A reference into `infos` is its key with the entry's value, written back where the
-- source changes it. Log lines are left out. File descriptors are ints.
use socket_prac.Prelude.{
  ℕ, suc, ℤ, negsuc, is_pos, Bool, false, none, some, List, [], ◌∷◌, ◌++◌, Text, codes, is_empty,
  length, ◌==◌, int_eq, text_eq, if◌then◌else◌, Map, lookup, erase, put, insert,
}
use socket_prac.Core.ErrorCode.{Expected, ok, unexpected, from_errno, einval}
use socket_prac.Protocol.Codec.{Command, cmd_response}
use socket_prac.Net.Socket.{SocketInfo}
use socket_prac.Reactor.Index.{index_insert, index_remove}

-- The commands of `cmd_q`.
pub data Request : Type 0 where
  register_command : ℤ → ℕ → Request
  unregister_command : ℤ → Request
  send_one_command : ℤ → Command → Request
  broadcast_command : ℤ → Command → Request
  change_nickname_command : ℤ → Text → Request
  set_user_id_command : ℤ → Text → Request
  set_joined_rooms_command : ℤ → List ℤ → Request
  set_joined_rooms_for_user_command : Text → List ℤ → Request
  send_friend_list_command : ℤ → List Text → Request
  room_broadcast_command : ℤ → ℤ → Command → Request

-- `calls` counts the calls of the kernel and of OpenSSL, which may answer each one differently.
-- `dangling` tells that the code has used a reference to an erased entry.
pub record Registry : Type 0 where
  pub cmd_q : List Request
  pub infos : Map ℤ SocketInfo
  pub room_online_fds : Map ℤ (List ℤ)
  pub user_online_fds : Map Text (List ℤ)
  pub connected_client_count : ℕ
  pub calls : ℕ
  pub dangling : Bool

abbrev pub empty_registry : Registry
empty_registry = record {
  cmd_q = [];
  infos = [];
  room_online_fds = [];
  user_online_fds = [];
  connected_client_count = 0;
  calls = 0;
  dangling = false;
}

abbrev pub store : ℤ → SocketInfo → Registry → Registry
store fd si reg = record reg { infos = put fd si reg.infos }

abbrev pub no_fd : ℤ
no_fd = negsuc 0

-- `std::string + std::string`
abbrev pub named : Text → Text → Text
named nickname text = nickname ++ (codes ": " ++ text)

-- Removal from the two indexes.
unfoldable pub remove_rooms : ℤ → List ℤ → Map ℤ (List ℤ) → Map ℤ (List ℤ)
unfolding index_remove
remove_rooms fd [] idx = idx
remove_rooms fd (room_id ∷ room_ids) idx = remove_rooms fd room_ids (index_remove room_id fd idx)

unfoldable pub remove_fd_from_room_index : SocketInfo → Registry → SocketInfo × Registry
unfolding remove_rooms
remove_fd_from_room_index si reg = (
  record si { joined_room_ids = [] },
  record reg { room_online_fds = remove_rooms si.ufd si.joined_room_ids reg.room_online_fds },
)

unfoldable pub remove_fd_from_user_index : SocketInfo → Registry → Registry
unfolding index_remove
remove_fd_from_user_index si reg = record reg {
  user_online_fds =
      if is_empty si.user_id
      then reg.user_online_fds
      else index_remove si.user_id si.ufd reg.user_online_fds;
}

-- The loop of `set_fd_joined_rooms`, over the joined rooms and the index.
unfoldable pub add_rooms : ℤ → List ℤ → List ℤ → Map ℤ (List ℤ) → List ℤ × Map ℤ (List ℤ)
unfolding index_insert
add_rooms fd [] joined idx = (joined, idx)
add_rooms fd (room_id ∷ room_ids) joined idx =
    let valid = is_pos room_id in
    add_rooms fd room_ids (if valid then insert room_id joined else joined)
      (if valid then index_insert room_id fd idx else idx)

unfoldable pub set_fd_joined_rooms : List ℤ → SocketInfo → Registry → SocketInfo × Registry
unfolding remove_fd_from_room_index add_rooms
set_fd_joined_rooms room_ids si reg =
    let (si', reg') = remove_fd_from_room_index si reg in
    let (joined, idx) = add_rooms si'.ufd room_ids si'.joined_room_ids reg'.room_online_fds in
    (record si' { joined_room_ids = joined }, record reg' { room_online_fds = idx })

-- The two removals and the erased entry.
unfoldable pub forget : ℤ → SocketInfo → Registry → Registry
unfolding remove_fd_from_room_index remove_fd_from_user_index
forget fd si reg =
    let (si', reg') = remove_fd_from_room_index si reg in
    let reg'' = remove_fd_from_user_index si' reg' in
    let infos' = erase fd reg''.infos in
    record reg'' { infos = infos'; connected_client_count = length infos' }

-- EPOLL_CTL_DEL is called; whatever it answers, the entry goes.
unfoldable pub unregister_fd : ℤ → Registry → Expected (Unit {0}) × Registry
unfolding forget
unregister_fd fd reg =
    if fd == no_fd then (unexpected (from_errno einval), reg) else elim (lookup fd reg.infos) [
      | none ↦ (ok tt, reg)
      | some si ↦ (ok tt, forget fd si (record reg { calls = suc reg.calls }))
    ]

-- The nickname of a sender that is connected and has one.
unfoldable pub sender_name : ℤ → Registry → Text
sender_name fd reg = elim (lookup fd reg.infos) [
  | none ↦ codes "guest"
  | some si ↦ if is_empty si.nickname then codes "guest" else si.nickname
]

unfoldable pub named_payload : ℤ → Command → Registry → Command
unfolding sender_name
named_payload fd (cmd_response text) reg = cmd_response (named (sender_name fd reg) text)
named_payload fd cmd reg = cmd

unfoldable pub handle_change_nickname : ℤ → Text → Registry → Registry
handle_change_nickname fd nick reg = elim (lookup fd reg.infos) [
  | none ↦ reg
  | some si ↦ store fd (record si { nickname = nick }) reg
]

unfoldable pub set_identity : ℤ → Text → SocketInfo → Registry → Registry
unfolding remove_fd_from_user_index set_fd_joined_rooms
set_identity fd user_id si reg =
    let reg' = remove_fd_from_user_index si reg in
    let (si', reg'') = set_fd_joined_rooms [] si reg' in
    let reg3 = store fd (record si' { user_id = user_id }) reg'' in
    record reg3 {
      user_online_fds =
          if is_empty user_id
          then reg3.user_online_fds
          else index_insert user_id si'.ufd reg3.user_online_fds;
    }

unfoldable pub handle_set_user_id : ℤ → Text → Registry → Registry
unfolding set_identity
handle_set_user_id fd user_id reg = elim (lookup fd reg.infos) [
  | none ↦ reg
  | some si ↦ set_identity fd user_id si reg
]

unfoldable pub join_rooms : ℤ → List ℤ → SocketInfo → Registry → Registry
unfolding set_fd_joined_rooms
join_rooms fd room_ids si reg =
    let (si', reg') = set_fd_joined_rooms room_ids si reg in store fd si' reg'

unfoldable pub handle_set_joined_rooms : ℤ → List ℤ → Registry → Registry
unfolding join_rooms
handle_set_joined_rooms fd room_ids reg = elim (lookup fd reg.infos) [
  | none ↦ reg
  | some si ↦ join_rooms fd room_ids si reg
]

unfoldable pub set_joined_rooms_all : List ℤ → List ℤ → Registry → Registry
unfolding handle_set_joined_rooms
set_joined_rooms_all [] room_ids reg = reg
set_joined_rooms_all (fd ∷ fds) room_ids reg =
    set_joined_rooms_all fds room_ids (handle_set_joined_rooms fd room_ids reg)

-- The set of the user is copied before the loop.
unfoldable pub handle_set_joined_rooms_for_user : Text → List ℤ → Registry → Registry
unfolding set_joined_rooms_all
handle_set_joined_rooms_for_user user_id room_ids reg = elim (lookup user_id reg.user_online_fds) [
  | none ↦ reg
  | some fds ↦ set_joined_rooms_all fds room_ids reg
]

abbrev pub friend_line : Text → Bool → Text
friend_line friend_id is_online =
    codes "friend: "
    ++ (friend_id
        ++ (codes " (" ++ ((if is_online then codes "online" else codes "offline") ++ codes ")")))

-- The `request_…` operations: the command goes to the end of the queue.
unfoldable pub request : Request → Registry → Registry
request r reg = record reg { cmd_q = reg.cmd_q ++ r ∷ [] }

unfoldable pub request_all : List Request → Registry → Registry
request_all rs reg = record reg { cmd_q = reg.cmd_q ++ rs }
