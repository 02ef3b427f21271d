-- ===== src/Witnesses/Chat.antt =====
-- Tests of the registry, the database executor and the server.
use socket_prac.Prelude.{
  is_pos, ◌&&◌, ◌≤◌, ℤ, pos, ◌≡◌, refl, true, ◌&&◌, some, List, [], ◌∷◌, ◌++◌, Text, codes, map,
  arith, is_pos, int_eq, lookup, put, insert, contains, Each, if◌then◌else◌,
}
use socket_prac.Protocol.Codec.{cmd_login, cmd_response, encode, lf}
use socket_prac.Protocol.LineParser.{drain_lines}
use socket_prac.Net.Buffer.{unread}
use socket_prac.Net.Socket.{SocketInfo}
use socket_prac.Reactor.Registry.State.{
  Registry, empty_registry, request_all, set_user_id_command, set_joined_rooms_command,
  change_nickname_command,
}
use socket_prac.Reactor.Registry.Handlers.{handle_all, handle_room_broadcast, work}
use socket_prac.Reactor.Registry.Indexed.{IsIndexed}
use socket_prac.Reactor.Registry.Entries.{empty-IsIndexed}
use socket_prac.Reactor.Registry.Preserved.{work-IsIndexed}
use socket_prac.Reactor.Registry.Sessions.{Changed, identity-Changed}
use socket_prac.Reactor.Registry.Delivery.{handle_room_broadcast_reaches}
use socket_prac.Reactor.Registry.Armed.{Armed, empty-AllArmed}
use socket_prac.Reactor.Registry.Wakeup.{work-Armed}
use socket_prac.Database.Reply.{reply}
use socket_prac.Database.Executor.{execute, worker_step}
use socket_prac.Database.Executor.Answers.{execute_anonymous}
use socket_prac.Database.Executor.Authority.{Justified}
use socket_prac.Database.Executor.Authority.Rooms.{execute-Justified}
use socket_prac.Database.Executor.Queue.{execute_in_order, worker_turns, worker_turns-drain}
use socket_prac.Database.Executor.{is_db_command}
use socket_prac.Database.Executor.Heard.Turns.{answers_to, worker_turns-answers}
use socket_prac.Database.Executor.Login.{login_session}
use socket_prac.Database.Service.{RoomInfo}
use socket_prac.Server.Execute.{execute_loop}
use socket_prac.Server.Execute.Lines.{
  line_tasks, line_replies, queue_tasks, add_requests, with_recv, execute_loop-drain_lines,
}
use socket_prac.Server.Loop.{Event, to_conn, handle_event}
use socket_prac.Server.Invariant.{
  Sound, World, accept_fd, with_server, Reaches, starts, accepts, works, handles, Reaches-Sound,
}
use socket_prac.Witnesses.Data.{
  member, calm_kernel, asked_registry, room_seven, small_db, say_task, busy_executor, running_pools,
  line_replies_env,
}

work-IsIndexed_example : IsIndexed (work calm_kernel asked_registry)
work-IsIndexed_example = work-IsIndexed calm_kernel asked_registry empty-IsIndexed

work-Armed_example : Armed (work calm_kernel asked_registry)
work-Armed_example = work-Armed calm_kernel asked_registry empty-AllArmed

abbrev in_room : SocketInfo
in_room = record member { joined_room_ids = pos 7 ∷ [] }

in_room_found : lookup (pos 5) (work calm_kernel asked_registry).infos ≡ some in_room
unfolding work lookup put insert
in_room_found = refl

handle_room_broadcast_reaches_example :
    (si' : SocketInfo) × (lookup
        (pos 5)
        (handle_room_broadcast calm_kernel
          (pos 6)
          (pos 7)
          (cmd_response (codes "hi"))
          (work calm_kernel asked_registry)).infos
      ≡ some si')
    × (unread si'.send
        ≡ unread in_room.send
          ++ (if contains (pos 7) in_room.joined_room_ids
              then encode (cmd_response (codes "guest: hi"))
              else []))
    × (record si' { send = in_room.send; interest = in_room.interest } ≡ in_room)
unfolding lookup work put
handle_room_broadcast_reaches_example =
    handle_room_broadcast_reaches calm_kernel (λ n fd interest. refl) (pos 6) (pos 7) (pos 5)
      (cmd_response (codes "hi")) in_room (work calm_kernel asked_registry) work-IsIndexed_example
      in_room_found (omega arith)

identity-Changed_example :
    (si' : SocketInfo) × Changed
      (pos 5)
      si'
      (work calm_kernel asked_registry).infos
      (handle_all calm_kernel
        (set_user_id_command (pos 5) (codes "ann")
          ∷ set_joined_rooms_command (pos 5) (pos 0 ∷ pos 9 ∷ [])
          ∷ change_nickname_command (pos 5) (codes "Ann")
          ∷ [])
        (work calm_kernel asked_registry)).infos
    × (si'.user_id ≡ codes "ann")
    × (si'.nickname ≡ codes "Ann")
    × ((room_id : ℤ)
        → contains room_id si'.joined_room_ids
          ≡ (contains room_id (pos 0 ∷ pos 9 ∷ []) && is_pos room_id))
    × (record si' {
      user_id = in_room.user_id;
      joined_room_ids = in_room.joined_room_ids;
      nickname = in_room.nickname;
    }
        ≡ in_room)
identity-Changed_example =
    identity-Changed calm_kernel (pos 5) in_room (work calm_kernel asked_registry) (codes "ann")
      (pos 0 ∷ pos 9 ∷ []) (codes "Ann") in_room_found

execute_anonymous_example :
    execute small_db (record say_task { user_id = [] }) []
    ≡ (reply (pos 5) (codes "login first") ∷ [], [])
execute_anonymous_example =
    execute_anonymous small_db (record say_task { user_id = [] }) [] refl refl

execute-Justified_example : Each (Justified small_db say_task []) (execute small_db say_task []).0
execute-Justified_example = execute-Justified small_db say_task []

worker_turns-drain_example : worker_turns small_db 2 busy_executor empty_registry [] ≡ (
  record busy_executor { tasks = [] },
  request_all (execute_in_order small_db busy_executor.tasks []).0 empty_registry,
  (execute_in_order small_db busy_executor.tasks []).1,
)
worker_turns-drain_example = worker_turns-drain small_db busy_executor empty_registry []

worker_turns-answers_example :
    2 ≤ answers_to (pos 5) (worker_turns small_db 2 busy_executor empty_registry []).1.cmd_q
unfolding is_db_command
worker_turns-answers_example = worker_turns-answers small_db (pos 5) busy_executor empty_registry []

abbrev asked : SocketInfo
asked = record member {
  recv = record { buf = codes "list_room" ++ lf ∷ codes "nick" ++ lf ∷ []; offset = 0 };
}

execute_loop-drain_lines_example : execute_loop 3 (to_conn asked) running_pools ≡ (
  add_requests
      (line_replies asked (drain_lines 3 asked.recv).0)
      (with_recv (drain_lines 3 asked.recv).1 (to_conn asked)),
  queue_tasks (line_tasks asked (drain_lines 3 asked.recv).0) running_pools,
)
execute_loop-drain_lines_example = execute_loop-drain_lines 3 (to_conn asked) running_pools refl

abbrev idle_registry : Registry
idle_registry = record empty_registry { infos = (pos 5, member) ∷ [] }

login_session_example :
    (si' : SocketInfo) × (lookup
        (pos 5)
        (work calm_kernel
          (worker_step small_db
            (record {
              tasks =
                  record { cmd = cmd_login (codes "ann") (codes "pw"); fd = pos 5; user_id = [] }
                  ∷ [];
              run = true;
            })
            idle_registry
            []).1).infos
      ≡ some si')
    × (si'.user_id ≡ codes "ann")
    × (si'.nickname ≡ codes "Ann")
    × ((room_id : ℤ)
        → contains room_id si'.joined_room_ids ≡ (
            contains room_id (map (λ (room : RoomInfo). room.id) (room_seven ∷ []))
            && is_pos room_id))
    × (unread si'.send ≡ unread member.send ++ encode (cmd_response (codes "login success")))
unfolding lookup
login_session_example =
    login_session calm_kernel (λ n fd interest. refl) small_db (pos 5) (codes "ann") (codes "pw") []
      [] [] [] (codes "Ann") (room_seven ∷ []) true member idle_registry refl refl refl refl
      (omega arith)

-- A client is accepted, registered and sends a line.
abbrev started : World (List Text)
started = record {
  server = record { registry = empty_registry; pools = running_pools };
  db_state = [];
}

abbrev registered : World (List Text)
registered =
    with_server (accept_fd (pos 5) 1 started) (record (accept_fd (pos 5) 1 started).server {
      registry = work calm_kernel (accept_fd (pos 5) 1 started).server.registry;
    })

abbrev read_event : Event
read_event = record { fd = pos 5; events = 1; replies = line_replies_env }

reached : Reaches small_db registered
reached = works calm_kernel (accepts (pos 5) 1 (starts running_pools []))

Reaches-Sound_example : Sound (handle_event read_event registered.server).registry
Reaches-Sound_example =
    Reaches-Sound small_db (with_server registered (handle_event read_event registered.server))
      (handles read_event reached)
