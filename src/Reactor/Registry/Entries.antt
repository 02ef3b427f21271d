-- ===== src/Reactor/Registry/Entries.antt =====
-- The indexes stay exact under the operations of one entry, those without a system call.
use socket_prac.Prelude.{
  suc, ℤ, ◌≡◌, refl, sym, ap, ◌∙◌, inl, inr, none, some, List, [], ◌∷◌, arith, Eq, Bool-cases,
  Option-cases, ◌==◌, int_eq, text_eq, eq_text_iff, Map, lookup, put, contains,
}
use socket_prac.Net.Socket.{SocketInfo}
use socket_prac.Reactor.Index.{indexed}
use socket_prac.Reactor.Registry.State.{
  Registry, empty_registry, no_fd, unregister_fd, join_rooms, handle_set_joined_rooms,
  set_joined_rooms_all,
}
use socket_prac.Reactor.Registry.Indexed.{Indexed, IsIndexed, joined_in, user_in, put-Indexed}
use socket_prac.Reactor.Registry.Changes.{forget-IsIndexed, join_rooms-IsIndexed}

pub empty-IsIndexed : IsIndexed empty_registry
unfolding indexed lookup contains
empty-IsIndexed = record {
  keyed = λ fd si e. absurd (ground arith);
  by_room = λ room_id fd. refl;
  by_user = λ user_id fd. refl;
  room_sets = record { at_key = λ k fds e. absurd (ground arith) };
  user_sets = record { at_key = λ k fds e. absurd (ground arith) };
}

pub unregister_fd-IsIndexed :
    (fd : ℤ) (reg : Registry) → IsIndexed reg → IsIndexed (unregister_fd fd reg).1
unfolding unregister_fd
unregister_fd-IsIndexed fd reg v = elim (Bool-cases (fd == no_fd)) [
  | inl bad ↦ rw (bad, unregister_fd) v
  | inr good ↦ elim (Option-cases (lookup fd reg.infos)) [
    | inl absent ↦ rw (good, unregister_fd) (rw absent v)
    | inr (si, found) ↦
        rw (good, unregister_fd)
          (rw found (forget-IsIndexed fd si (record reg { calls = suc reg.calls }) v found))
  ]
]

-- A handler that looks its descriptor up does nothing, or acts on the entry.
pub at_sets {ℓ} :
    {K : Type ℓ} ⦃e : Eq K⦄ (k : K) (idx : Map K (List ℤ)) (reg : Registry)
    (act : List ℤ → Registry)
    → IsIndexed reg
    → ((fds : List ℤ) → IsIndexed (act fds))
    → IsIndexed (elim (lookup k idx) [ none ↦ reg | some fds ↦ act fds ])
at_sets k idx reg act v found = elim (Option-cases (lookup k idx)) [
  | inl absent ↦ rw absent v
  | inr (fds, e) ↦ rw e (found fds)
]

pub at_entry :
    (fd : ℤ) (reg : Registry) (act : SocketInfo → Registry)
    → IsIndexed reg
    → ((si : SocketInfo) → lookup fd reg.infos ≡ some si → IsIndexed (act si))
    → IsIndexed (elim (lookup fd reg.infos) [ none ↦ reg | some si ↦ act si ])
at_entry fd reg act v found = elim (Option-cases (lookup fd reg.infos)) [
  | inl absent ↦ rw absent v
  | inr (si, e) ↦ rw e (found si e)
]

pub handle_set_joined_rooms-IsIndexed :
    (fd : ℤ) (room_ids : List ℤ) (reg : Registry)
    → IsIndexed reg
    → IsIndexed (handle_set_joined_rooms fd room_ids reg)
unfolding handle_set_joined_rooms
handle_set_joined_rooms-IsIndexed fd room_ids reg v =
    at_entry fd reg (λ si. join_rooms fd room_ids si reg) v
      (λ si e. join_rooms-IsIndexed fd si reg v e room_ids)

pub set_joined_rooms_all-IsIndexed :
    (fds room_ids : List ℤ) (reg : Registry)
    → IsIndexed reg
    → IsIndexed (set_joined_rooms_all fds room_ids reg)
unfolding set_joined_rooms_all
set_joined_rooms_all-IsIndexed [] room_ids reg v = v
set_joined_rooms_all-IsIndexed (fd ∷ fds) room_ids reg v =
    set_joined_rooms_all-IsIndexed fds room_ids (handle_set_joined_rooms fd room_ids reg)
      (handle_set_joined_rooms-IsIndexed fd room_ids reg v)

-- A new connection has no room and no user.
pub new_socket-IsIndexed :
    (fd : ℤ) (si : SocketInfo) (reg reg' : Registry)
    → IsIndexed reg
    → lookup fd reg.infos ≡ none
    → (reg'.infos ≡ reg.infos)
      × (reg'.room_online_fds ≡ reg.room_online_fds)
      × (reg'.user_online_fds ≡ reg.user_online_fds)
    → si.ufd ≡ fd
    → si.joined_room_ids ≡ []
    → si.user_id ≡ []
    → Indexed (put fd si reg'.infos) reg'.room_online_fds reg'.user_online_fds
unfolding contains
new_socket-IsIndexed fd si reg reg' v absent (a, b, c) own no_rooms no_user =
    rw (a, b, c)
      (put-Indexed fd v (λ room_id fd' other. refl) (λ user_id fd' other. refl) v.room_sets
        v.user_sets si own
        (λ room_id.
          v.by_room room_id fd
          ∙ ap (joined_in room_id) absent
          ∙ ap (contains room_id) (sym no_rooms))
        (λ user_id.
          v.by_user user_id fd
          ∙ ap (user_in user_id) absent
          ∙ ground (arith, eq_text_iff si.user_id user_id)))
