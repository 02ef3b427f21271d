-- ===== src/Reactor/Registry/Armed.antt =====
-- Connections with unread output ask for EPOLLOUT: the operations that make no system call.
use socket_prac.Prelude.{
  ℕ, ℤ, ◌≡◌, refl, sym, ap, ◌∙◌, inl, inr, true, false, Option, none, some, List, [], ◌∷◌, Text,
  arith, Bool-cases, Option-cases, ◌==◌, int_eq, text_eq, Map, lookup, put, erase, lookup-put,
  lookup-erase,
}
use mathlib.Core.Path.{subst}
use socket_prac.Protocol.Codec.{Command}
use socket_prac.Net.Buffer.{has_pending, send_append}
use socket_prac.Net.TlsSession.{TlsSession}
use socket_prac.Net.Socket.{SocketInfo, new_socket}
use socket_prac.Reactor.Interest.{epollout, has_bit, has_bit-set_bit}
use socket_prac.Reactor.Registry.State.{
  Registry, no_fd, forget, unregister_fd, set_identity, handle_set_user_id, join_rooms,
  handle_set_joined_rooms, set_joined_rooms_all, remove_fd_from_room_index,
  remove_fd_from_user_index, set_fd_joined_rooms,
}
use socket_prac.Reactor.Registry.Sending.{with_send, with_out, armed}

-- EPOLLOUT is among the events once there is unread output.
pub record IsArmed (si : SocketInfo) : Type 0 where
  pub asks : has_pending si.send ≡ true → has_bit epollout si.interest ≡ true

pub record AllArmed (infos : Map ℤ SocketInfo) : Type 0 where
  pub at_fd : (fd : ℤ) (si : SocketInfo) → lookup fd infos ≡ some si → IsArmed si

abbrev pub Armed : Registry → Type 0
Armed reg = AllArmed reg.infos

pub empty-AllArmed : AllArmed []
unfolding lookup
empty-AllArmed = record { at_fd = λ fd si e. absurd (ground arith) }

pub put-AllArmed :
    (fd : ℤ) (si : SocketInfo) (infos : Map ℤ SocketInfo)
    → AllArmed infos
    → IsArmed si
    → AllArmed (put fd si infos)
put-AllArmed fd si infos v a = record {
  at_fd = λ fd' si' e. elim (Bool-cases (fd == fd')) [
    | inl same ↦
        let eq : si ≡ si' = ground (arith, lookup-put fd fd' si infos) in subst IsArmed eq a
    | inr other ↦ v.at_fd fd' si' (ground (arith, lookup-put fd fd' si infos))
  ];
}

erase-AllArmed : (fd : ℤ) (infos : Map ℤ SocketInfo) → AllArmed infos → AllArmed (erase fd infos)
erase-AllArmed fd infos v = record {
  at_fd = λ fd' si' e. elim (Bool-cases (fd == fd')) [
    | inl same ↦ absurd (ground (arith, lookup-erase fd fd' infos))
    | inr other ↦ v.at_fd fd' si' (ground (arith, lookup-erase fd fd' infos))
  ];
}

pub unregister_fd-Armed : (fd : ℤ) (reg : Registry) → Armed reg → Armed (unregister_fd fd reg).1
unfolding unregister_fd forget remove_fd_from_room_index remove_fd_from_user_index
unregister_fd-Armed fd reg v = elim (Bool-cases (fd == no_fd)) [
  | inl bad ↦ rw (bad, unregister_fd) v
  | inr good ↦ elim (Option-cases (lookup fd reg.infos)) [
    | inl absent ↦ rw (good, unregister_fd) (rw absent v)
    | inr (si, found) ↦ rw (good, unregister_fd) (rw found (erase-AllArmed fd reg.infos v))
  ]
]

pub at_entry :
    (fd : ℤ) (reg : Registry) (act : SocketInfo → Registry)
    → Armed reg
    → ((si : SocketInfo) → IsArmed si → Armed (act si))
    → Armed (elim (lookup fd reg.infos) [ none ↦ reg | some si ↦ act si ])
at_entry fd reg act v found = elim (Option-cases (lookup fd reg.infos)) [
  | inl absent ↦ rw absent v
  | inr (si, e) ↦ rw e (found si (v.at_fd fd si e))
]

pub at_sets {ℓ} :
    {K : Type ℓ} (fds_opt : Option K) (reg : Registry) (act : K → Registry)
    → Armed reg
    → ((fds : K) → Armed (act fds))
    → Armed (elim fds_opt [ none ↦ reg | some fds ↦ act fds ])
at_sets none reg act v found = v
at_sets (some fds) reg act v found = found fds

pub same_output :
    (si si' : SocketInfo)
    → si'.send ≡ si.send
    → si'.interest ≡ si.interest
    → IsArmed si
    → IsArmed si'
same_output si si' s i a = record {
  asks = λ pending. ap (has_bit epollout) i ∙ a.asks (ap has_pending (sym s) ∙ pending);
}

pub handle_set_joined_rooms-Armed :
    (fd : ℤ) (room_ids : List ℤ) (reg : Registry)
    → Armed reg
    → Armed (handle_set_joined_rooms fd room_ids reg)
unfolding handle_set_joined_rooms join_rooms set_fd_joined_rooms remove_fd_from_room_index
handle_set_joined_rooms-Armed fd room_ids reg v =
    at_entry fd reg (λ si. join_rooms fd room_ids si reg) v
      (λ si a. put-AllArmed fd _ reg.infos v (same_output si _ refl refl a))

pub set_joined_rooms_all-Armed :
    (fds room_ids : List ℤ) (reg : Registry)
    → Armed reg
    → Armed (set_joined_rooms_all fds room_ids reg)
unfolding set_joined_rooms_all
set_joined_rooms_all-Armed [] room_ids reg v = v
set_joined_rooms_all-Armed (fd ∷ fds) room_ids reg v =
    set_joined_rooms_all-Armed fds room_ids (handle_set_joined_rooms fd room_ids reg)
      (handle_set_joined_rooms-Armed fd room_ids reg v)

pub handle_set_user_id-Armed :
    (fd : ℤ) (user_id : Text) (reg : Registry)
    → Armed reg
    → Armed (handle_set_user_id fd user_id reg)
unfolding handle_set_user_id set_identity set_fd_joined_rooms remove_fd_from_room_index
    remove_fd_from_user_index
handle_set_user_id-Armed fd user_id reg v =
    at_entry fd reg (λ si. set_identity fd user_id si reg) v
      (λ si a. put-AllArmed fd _ reg.infos v (same_output si _ refl refl a))

pub with_send-IsArmed :
    (si : SocketInfo) (cmd : Command)
    → armed si cmd ≡ false
    → IsArmed si
    → IsArmed (with_send si cmd)
unfolding send_append
with_send-IsArmed si cmd quiet a = record { asks = λ pending. a.asks (ground arith) }

pub with_out-IsArmed : (si : SocketInfo) (cmd : Command) → IsArmed si → IsArmed (with_out si cmd)
with_out-IsArmed si cmd a = record { asks = λ pending. has_bit-set_bit si.interest }

pub new_socket-IsArmed :
    (tls : TlsSession) (interest : ℕ) (fd : ℤ) → IsArmed (new_socket tls interest fd)
unfolding has_pending
new_socket-IsArmed tls interest fd = record { asks = λ pending. absurd (ground arith) }
