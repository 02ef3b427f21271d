-- ===== src/Database/Executor/Login.antt =====
-- A login, from the task of the client's command to the state of its connection.
use socket_prac.Prelude.{
  ℤ, is_pos, ◌≡◌, ap, ◌∙◌, Bool, true, ◌&&◌, Option, some, List, [], ◌∷◌, ◌++◌, Text, codes, map,
  ◌==◌, int_eq, text_eq, lookup, contains, beq_refl,
}
use socket_prac.Core.ErrorCode.{Expected, ok, unexpected}
use socket_prac.Protocol.Codec.{cmd_login, cmd_response, encode}
use socket_prac.Net.Buffer.{unread}
use socket_prac.Net.Buffer.View.{IsValid}
use socket_prac.Net.Socket.{SocketInfo}
use socket_prac.Reactor.Registry.State.{
  set_user_id_command, set_joined_rooms_command, change_nickname_command, Registry, request_all,
}
use socket_prac.Reactor.Registry.Handlers.{Kernel, handle_command, handle_all, work}
use socket_prac.Reactor.Registry.Sessions.{room_set, contains-room_set, room_set-Changed}
use socket_prac.Reactor.Registry.Delivery.{
  AcceptsMods, after_send, queued, lookup-send_to, unread-after, same-after,
}
use socket_prac.Database.Service.{RoomInfo, DbService}
use socket_prac.Database.Reply.{Acts, reply, load_joined_room_ids}
use socket_prac.Database.Account.{identity, login_rooms, login_answer, execute_login}
use socket_prac.Database.Executor.{execute, worker_step}

module _ {S : Type 0} (db : DbService S) where
  load_joined_room_ids_lem :
      (id : Text) (s s' : S) (rooms : List RoomInfo)
      → db.list_rooms id s ≡ (ok rooms, s')
      → load_joined_room_ids db id s ≡ (ok (map (λ (room : RoomInfo). room.id) rooms), s')
  unfolding load_joined_room_ids
  load_joined_room_ids_lem id s s' rooms lists =
      ap
        (λ (r : Expected (List RoomInfo) × S). elim r.0 as (λ _. Expected (List ℤ) × S) [
          | unexpected ec ↦ (unexpected ec, r.1)
          | ok found ↦ (ok (map (λ (room : RoomInfo). room.id) found), r.1)
        ])
        lists

  execute_login_lem :
      (fd : ℤ) (id pw user : Text) (s s1 s2 : S) (nick : Text) (rooms : List RoomInfo)
      → db.login id pw s ≡ (ok (some nick), s1)
      → db.list_rooms id s1 ≡ (ok rooms, s2)
      → execute db (record { cmd = cmd_login id pw; fd = fd; user_id = user }) s ≡ (
        identity fd id
            (map (λ (room : RoomInfo). room.id) rooms)
            nick
            (reply fd (codes "login success") ∷ []),
        s2,
      )
  unfolding execute execute_login login_answer login_rooms load_joined_room_ids
  execute_login_lem fd id pw user s s1 s2 nick rooms accepts lists =
      ap (λ (r : Expected (Option Text) × S). login_answer db fd id r.0 r.1) accepts
      ∙ ap (λ (r : Expected (List ℤ) × S). login_rooms db fd id nick r.0 r.1)
          (load_joined_room_ids_lem id s1 s2 rooms lists)

module _ (kernel : Kernel) (accepts : AcceptsMods kernel) where
  -- The requests of a successful login, handled one after the other.
  login_handled :
      (fd : ℤ) (si : SocketInfo) (reg : Registry) (id : Text) (room_ids : List ℤ) (nick : Text)
      → lookup fd reg.infos ≡ some si
      → lookup fd
          (handle_all kernel
            (identity fd id room_ids nick (reply fd (codes "login success") ∷ []))
            reg).infos
        ≡ some (
            queued
              (cmd_response (codes "login success"))
              (record si { user_id = id; joined_room_ids = room_set room_ids; nickname = nick }))
  unfolding handle_all handle_command
  login_handled fd si reg id room_ids nick found =
      let cmd = cmd_response (codes "login success") in
      let reg' =
        handle_all kernel
          (set_user_id_command fd id
            ∷ set_joined_rooms_command fd room_ids
            ∷ change_nickname_command fd nick
            ∷ [])
          reg in
      lookup-send_to kernel accepts fd fd cmd reg'
      ∙ ap (after_send cmd (fd == fd))
          (room_set-Changed kernel fd si reg id room_ids nick found).here
      ∙ ap
          (λ b. after_send cmd b (
            some
              (record si { user_id = id; joined_room_ids = room_set room_ids; nickname = nick })))
          (beq_refl fd)

  -- When the database accepts a login's password and lists the user's rooms, and the kernel every
  -- change of events, then after a worker's turn on the login's task and the registry's next
  -- `work` the connection has the user, the nickname of the database and exactly the listed rooms
  -- with a positive id, and "login success" is at the end of its unread output.
  pub login_session :
      {S : Type 0} (db : DbService S) (fd : ℤ) (id pw user : Text) (s s1 s2 : S) (nick : Text)
      (rooms : List RoomInfo) (run : Bool) (si : SocketInfo) (reg : Registry)
      → db.login id pw s ≡ (ok (some nick), s1)
      → db.list_rooms id s1 ≡ (ok rooms, s2)
      → lookup fd reg.infos ≡ some si
      → reg.cmd_q ≡ []
      → IsValid si.send
      → let served =
          worker_step db
            (record {
              tasks = record { cmd = cmd_login id pw; fd = fd; user_id = user } ∷ [];
              run = run;
            })
            reg
            s in
        (si' : SocketInfo) × (lookup fd (work kernel served.1).infos ≡ some si')
        × (si'.user_id ≡ id)
        × (si'.nickname ≡ nick)
        × ((room_id : ℤ)
            → contains room_id si'.joined_room_ids
              ≡ (contains room_id (map (λ (room : RoomInfo). room.id) rooms) && is_pos room_id))
        × (unread si'.send ≡ unread si.send ++ encode (cmd_response (codes "login success")))
  unfolding worker_step request_all work
  login_session {S} db fd id pw user s s1 s2 nick rooms run si reg logged lists found idle valid =
      let room_ids = map (λ (room : RoomInfo). room.id) rooms in
      let cmd = cmd_response (codes "login success") in
      let before : SocketInfo = record si {
        user_id = id;
        joined_room_ids = room_set room_ids;
        nickname = nick;
      } in
      let requests = (execute db (record { cmd = cmd_login id pw; fd = fd; user_id = user }) s).0 in
      let queue =
        ap (λ q. q ++ requests) idle
        ∙ ap (λ (r : Acts S). r.0)
            (execute_login_lem db fd id pw user s s1 s2 nick rooms logged lists) in
      let same = same-after cmd true before in
      (
        queued cmd before,
        ap (λ q. lookup fd (handle_all kernel q (record reg { cmd_q = [] })).infos) queue
            ∙ login_handled fd si (record reg { cmd_q = [] }) id room_ids nick found,
        ap (λ (x : SocketInfo). x.user_id) same,
        ap (λ (x : SocketInfo). x.nickname) same,
        λ room_id.
            ap (λ (x : SocketInfo). contains room_id x.joined_room_ids) same
            ∙ contains-room_set room_ids room_id,
        unread-after cmd true before valid,
      )
