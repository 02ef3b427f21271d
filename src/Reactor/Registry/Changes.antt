-- ===== src/Reactor/Registry/Changes.antt =====
-- The handlers that make no system call keep the indexes exact.
use socket_prac.Prelude.{
  ℤ, ◌≡◌, refl, sym, ap, ◌∙◌, inl, inr, false, not, ◌&&◌, some, List, [], Text, is_empty, arith,
  if◌then◌else◌, Bool-cases, ◌==◌, int_eq, text_eq, eq_text_iff, beq_refl, Map, lookup, contains,
}
use socket_prac.Net.Socket.{SocketInfo}
use socket_prac.Reactor.Index.{
  indexed, index_insert, indexed-index_insert, indexed-index_remove, IsSets, index_insert-IsSets,
  index_remove-IsSets,
}
use socket_prac.Reactor.Registry.State.{
  Registry, store, remove_rooms, remove_fd_from_room_index, remove_fd_from_user_index, add_rooms,
  set_fd_joined_rooms, forget, set_identity, join_rooms,
}
use socket_prac.Reactor.Registry.Indexed.{joined_in, user_in, IsIndexed, put-Indexed, erase-Indexed}
use socket_prac.Reactor.Registry.Rooms.{
  remove_rooms-IsSets, add_rooms-IsSets, indexed-remove_rooms, add_rooms_other, add_rooms_self,
}

module _ (fd : ℤ) (si : SocketInfo) (reg : Registry) (v : IsIndexed reg)
    (found : lookup fd reg.infos ≡ some si) where
  own : si.ufd ≡ fd
  own = v.keyed fd si found

  at_room :
      (room_id : ℤ) → indexed room_id fd reg.room_online_fds ≡ contains room_id si.joined_room_ids
  at_room room_id = v.by_room room_id fd ∙ ap (joined_in room_id) found

  at_user : (user_id : Text) → indexed user_id fd reg.user_online_fds ≡ user_in user_id (some si)
  at_user user_id = v.by_user user_id fd ∙ ap (user_in user_id) found

  rooms_cleared :
      (room_id : ℤ)
      → indexed room_id fd (remove_rooms si.ufd si.joined_room_ids reg.room_online_fds) ≡ false
  rooms_cleared room_id =
      indexed-remove_rooms si.ufd si.joined_room_ids reg.room_online_fds room_id fd
      ∙ ground (arith, own, at_room room_id, beq_refl fd)

  rooms_other :
      (room_id fd' : ℤ)
      → (fd == fd') ≡ false
      → indexed room_id fd' (remove_rooms si.ufd si.joined_room_ids reg.room_online_fds)
        ≡ indexed room_id fd' reg.room_online_fds
  rooms_other room_id fd' other =
      indexed-remove_rooms si.ufd si.joined_room_ids reg.room_online_fds room_id fd'
      ∙ ground (arith, own)

  users_cleared :
      (user_id : Text)
      → indexed user_id fd (remove_fd_from_user_index si reg).user_online_fds ≡ false
  unfolding remove_fd_from_user_index
  users_cleared user_id = ground (
    arith,
    own,
    at_user user_id,
    beq_refl fd,
    eq_text_iff si.user_id user_id,
    indexed-index_remove si.user_id user_id si.ufd fd reg.user_online_fds,
  )

  users_other :
      (user_id : Text) (fd' : ℤ)
      → (fd == fd') ≡ false
      → indexed user_id fd' (remove_fd_from_user_index si reg).user_online_fds
        ≡ indexed user_id fd' reg.user_online_fds
  unfolding remove_fd_from_user_index
  users_other user_id fd' other =
      ground (arith, own, indexed-index_remove si.user_id user_id si.ufd fd' reg.user_online_fds)

  cleared-IsSets : IsSets (remove_rooms si.ufd si.joined_room_ids reg.room_online_fds)
  cleared-IsSets = remove_rooms-IsSets si.ufd si.joined_room_ids reg.room_online_fds v.room_sets

  set_rooms-IsSets :
      (room_ids : List ℤ)
      → IsSets
          (add_rooms si.ufd room_ids []
            (remove_rooms si.ufd si.joined_room_ids reg.room_online_fds)).1
  set_rooms-IsSets room_ids = add_rooms-IsSets si.ufd room_ids [] _ cleared-IsSets

  user_removed-IsSets : IsSets (remove_fd_from_user_index si reg).user_online_fds
  unfolding remove_fd_from_user_index
  user_removed-IsSets = elim (Bool-cases (is_empty si.user_id)) [
    | inl anonymous ↦ rw anonymous v.user_sets
    | inr named ↦ rw named (index_remove-IsSets si.user_id si.ufd reg.user_online_fds v.user_sets)
  ]

  user_set-IsSets :
      (user_id : Text)
      → IsSets (
          if is_empty user_id
          then (remove_fd_from_user_index si reg).user_online_fds
          else index_insert user_id si.ufd (remove_fd_from_user_index si reg).user_online_fds)
  user_set-IsSets user_id = elim (Bool-cases (is_empty user_id)) [
    | inl anonymous ↦ rw anonymous user_removed-IsSets
    | inr named ↦ rw named (index_insert-IsSets user_id si.ufd _ user_removed-IsSets)
  ]

  pub forget-IsIndexed : IsIndexed (forget fd si reg)
  unfolding forget remove_fd_from_room_index remove_fd_from_user_index
  forget-IsIndexed =
      erase-Indexed fd v rooms_other users_other cleared-IsSets user_removed-IsSets rooms_cleared
        users_cleared

  rooms_set :
      (room_ids : List ℤ) (room_id : ℤ)
      → let r =
          add_rooms si.ufd room_ids []
            (remove_rooms si.ufd si.joined_room_ids reg.room_online_fds) in
        indexed room_id fd r.1 ≡ contains room_id r.0
  rooms_set room_ids room_id =
      ap (λ k. indexed room_id k (add_rooms si.ufd room_ids [] cleared).1) (sym own)
      ∙ add_rooms_self si.ufd room_ids [] cleared
          (λ k. ap (λ f. indexed k f cleared) own ∙ rooms_cleared k ∙ unfold contains in refl)
          room_id
    where
      cleared : Map ℤ (List ℤ)
      cleared = remove_rooms si.ufd si.joined_room_ids reg.room_online_fds

  rooms_set_other :
      (room_ids : List ℤ) (room_id fd' : ℤ)
      → (fd == fd') ≡ false
      → indexed room_id fd'
          (add_rooms si.ufd room_ids []
            (remove_rooms si.ufd si.joined_room_ids reg.room_online_fds)).1
        ≡ indexed room_id fd' reg.room_online_fds
  rooms_set_other room_ids room_id fd' other =
      add_rooms_other si.ufd room_ids [] _ room_id fd' (ap (λ k. k == fd') own ∙ other)
      ∙ rooms_other room_id fd' other

  pub join_rooms-IsIndexed : (room_ids : List ℤ) → IsIndexed (join_rooms fd room_ids si reg)
  unfolding join_rooms set_fd_joined_rooms remove_fd_from_room_index
  join_rooms-IsIndexed room_ids =
      put-Indexed fd v (rooms_set_other room_ids) (λ user_id fd' other. refl)
        (set_rooms-IsSets room_ids) v.user_sets _ own (rooms_set room_ids) at_user

  pub set_identity-IsIndexed : (user_id : Text) → IsIndexed (set_identity fd user_id si reg)
  unfolding set_identity set_fd_joined_rooms remove_fd_from_room_index
  set_identity-IsIndexed user_id =
      put-Indexed fd v (rooms_set_other [])
        (λ uid fd' other. ground (
          arith,
          own,
          users_other uid fd' other,
          indexed-index_insert user_id uid si.ufd fd'
              (remove_fd_from_user_index si reg).user_online_fds,
        ))
        (set_rooms-IsSets []) (user_set-IsSets user_id) _ own (rooms_set [])
        (λ uid. ground (
          arith,
          own,
          users_cleared uid,
          eq_text_iff user_id uid,
          beq_refl fd,
          indexed-index_insert user_id uid si.ufd fd
              (remove_fd_from_user_index si reg).user_online_fds,
        ))

  -- A change of other fields of one connection.
  pub store-IsIndexed :
      (si' : SocketInfo)
      → si'.ufd ≡ si.ufd
      → si'.joined_room_ids ≡ si.joined_room_ids
      → si'.user_id ≡ si.user_id
      → IsIndexed (store fd si' reg)
  store-IsIndexed si' e r u =
      put-Indexed fd v (λ room_id fd' other. refl) (λ user_id fd' other. refl) v.room_sets
        v.user_sets si' (e ∙ own) (λ room_id. at_room room_id ∙ ap (contains room_id) (sym r))
        (λ user_id. at_user user_id ∙ ap (λ w. not (is_empty user_id) && (w == user_id)) (sym u))
