-- ===== src/Reactor/Registry/Indexed.antt =====
-- The two indexes of the registry against its connections.
use socket_prac.Prelude.{
  ℤ, ◌≡◌, ◌∙◌, inl, inr, Bool, false, not, ◌&&◌, Option, none, some, List, Text, is_empty, arith,
  Bool-cases, ◌==◌, int_eq, text_eq, eq_ℤ_iff, Map, lookup, erase, put, lookup-erase, lookup-put,
  contains,
}
use socket_prac.Net.Socket.{SocketInfo}
use socket_prac.Reactor.Index.{indexed, IsSets}
use socket_prac.Reactor.Registry.State.{Registry}

-- Whether a connection has joined a room, and whether it is a user's.
abbrev pub joined_in : ℤ → Option SocketInfo → Bool
joined_in room_id none = false
joined_in room_id (some si) = contains room_id si.joined_room_ids

abbrev pub user_in : Text → Option SocketInfo → Bool
user_in user_id none = false
user_in user_id (some si) = not (is_empty user_id) && (si.user_id == user_id)

-- The room index holds exactly the joined rooms of the connections, the user index exactly their
-- users, and every connection is stored under its own descriptor.
pub record Indexed (infos : Map ℤ SocketInfo) (rooms : Map ℤ (List ℤ)) (users : Map Text (List ℤ))
    : Type 0 where
  pub keyed : (fd : ℤ) (si : SocketInfo) → lookup fd infos ≡ some si → si.ufd ≡ fd
  pub by_room : (room_id fd : ℤ) → indexed room_id fd rooms ≡ joined_in room_id (lookup fd infos)
  pub by_user :
      (user_id : Text) (fd : ℤ) → indexed user_id fd users ≡ user_in user_id (lookup fd infos)
  pub room_sets : IsSets rooms
  pub user_sets : IsSets users

abbrev pub IsIndexed : Registry → Type 0
IsIndexed reg = Indexed reg.infos reg.room_online_fds reg.user_online_fds

module _ {infos : Map ℤ SocketInfo} {rooms rooms' : Map ℤ (List ℤ)}
    {users users' : Map Text (List ℤ)} (fd : ℤ) (v : Indexed infos rooms users)
    (same_rooms : (room_id fd' : ℤ)
      → (fd == fd') ≡ false
      → indexed room_id fd' rooms' ≡ indexed room_id fd' rooms)
    (same_users : (user_id : Text) (fd' : ℤ)
      → (fd == fd') ≡ false
      → indexed user_id fd' users' ≡ indexed user_id fd' users)
    (room_sets' : IsSets rooms') (user_sets' : IsSets users') where
  -- One connection changes, and the indexes change for it alone.
  pub put-Indexed :
      (si : SocketInfo)
      → si.ufd ≡ fd
      → ((room_id : ℤ) → indexed room_id fd rooms' ≡ contains room_id si.joined_room_ids)
      → ((user_id : Text) → indexed user_id fd users' ≡ user_in user_id (some si))
      → Indexed (put fd si infos) rooms' users'
  put-Indexed si own at_rooms at_users = record {
    keyed = λ fd' si' e. elim (Bool-cases (fd == fd')) [
      | inl same ↦ ground (arith, eq_ℤ_iff fd fd', lookup-put fd fd' si infos)
      | inr other ↦ ground (arith, v.keyed fd' si', lookup-put fd fd' si infos)
    ];
    by_room = λ room_id fd'. elim (Bool-cases (fd == fd')) [
      | inl same ↦ ground (arith, eq_ℤ_iff fd fd', lookup-put fd fd' si infos, at_rooms room_id)
      | inr other ↦
          rw (lookup-put fd fd' si infos, other)
            (same_rooms room_id fd' other ∙ v.by_room room_id fd')
    ];
    by_user = λ user_id fd'. elim (Bool-cases (fd == fd')) [
      | inl same ↦ ground (arith, eq_ℤ_iff fd fd', lookup-put fd fd' si infos, at_users user_id)
      | inr other ↦
          rw (lookup-put fd fd' si infos, other)
            (same_users user_id fd' other ∙ v.by_user user_id fd')
    ];
    room_sets = room_sets';
    user_sets = user_sets';
  }

  pub erase-Indexed :
      ((room_id : ℤ) → indexed room_id fd rooms' ≡ false)
      → ((user_id : Text) → indexed user_id fd users' ≡ false)
      → Indexed (erase fd infos) rooms' users'
  erase-Indexed at_rooms at_users = record {
    keyed = λ fd' si' e. elim (Bool-cases (fd == fd')) [
      | inl same ↦ absurd (ground (arith, lookup-erase fd fd' infos))
      | inr other ↦ ground (arith, v.keyed fd' si', lookup-erase fd fd' infos)
    ];
    by_room = λ room_id fd'. elim (Bool-cases (fd == fd')) [
      | inl same ↦ ground (arith, eq_ℤ_iff fd fd', lookup-erase fd fd' infos, at_rooms room_id)
      | inr other ↦
          rw (lookup-erase fd fd' infos, other)
            (same_rooms room_id fd' other ∙ v.by_room room_id fd')
    ];
    by_user = λ user_id fd'. elim (Bool-cases (fd == fd')) [
      | inl same ↦ ground (arith, eq_ℤ_iff fd fd', lookup-erase fd fd' infos, at_users user_id)
      | inr other ↦
          rw (lookup-erase fd fd' infos, other)
            (same_users user_id fd' other ∙ v.by_user user_id fd')
    ];
    room_sets = room_sets';
    user_sets = user_sets';
  }
