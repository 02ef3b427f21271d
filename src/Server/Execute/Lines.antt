-- ===== src/Server/Execute/Lines.antt =====
-- The loop executes exactly the complete lines that the connection has received, in their order.
use socket_prac.Prelude.{
  ℕ, zero, suc, ◌≡◌, refl, ap, ◌∙◌, ◌⊎◌, inl, inr, Bool, true, false, none, some, List, [], ◌∷◌,
  ◌++◌, append-nil, append_assoc, Text, arith, Option-cases,
}
use socket_prac.Core.ErrorCode.{Expected, ok, unexpected}
use socket_prac.Protocol.Codec.{
  Command, cmd_say, cmd_nick, cmd_response, cmd_login, cmd_register, cmd_friend_request,
  cmd_friend_accept, cmd_friend_reject, cmd_friend_remove, cmd_list_friend, cmd_list_friend_request,
  cmd_create_room, cmd_delete_room, cmd_invite_room, cmd_leave_room, cmd_list_room, cmd_history,
  decode,
}
use socket_prac.Protocol.LineParser.{parse_line, drain_lines}
use socket_prac.Net.Buffer.{OffsetBuffer}
use socket_prac.Net.Socket.{SocketInfo}
use socket_prac.Reactor.Registry.State.{Request, send_one_command}
use socket_prac.Database.Executor.{Task, is_db_command, push_task, enqueue}
use socket_prac.Server.ThreadPool.{is_pool_command}
use socket_prac.Server.Connection.{Conn}
use socket_prac.Server.Execute.{
  Pools, visit_command, execute_command, execute_line, handle_execute, execute_loop,
}

-- The tasks and the replies that decoded lines stand for.
abbrev pub command_tasks : SocketInfo → Expected Command → List Task
command_tasks si (unexpected ec) = []
command_tasks si (ok (cmd_response text)) = []
command_tasks si (ok cmd) = record { cmd = cmd; fd = si.ufd; user_id = si.user_id } ∷ []

abbrev pub command_replies : SocketInfo → Expected Command → List Request
command_replies si (ok (cmd_response text)) = send_one_command si.ufd (cmd_response text) ∷ []
command_replies si _ = []

abbrev pub line_tasks : SocketInfo → List Text → List Task
line_tasks si [] = []
line_tasks si (line ∷ lines) = command_tasks si (decode line) ++ line_tasks si lines

abbrev pub line_replies : SocketInfo → List Text → List Request
line_replies si [] = []
line_replies si (line ∷ lines) = command_replies si (decode line) ++ line_replies si lines

-- A connection and pools after some tasks were queued and some replies requested.
abbrev pub queue_tasks : List Task → Pools → Pools
queue_tasks ts pools = record pools {
  db_pool = record pools.db_pool { tasks = pools.db_pool.tasks ++ ts };
}

abbrev pub add_requests : List Request → Conn → Conn
add_requests rs c = record c { requests = c.requests ++ rs }

abbrev pub with_recv : OffsetBuffer → Conn → Conn
with_recv b c = record c { si = record c.si { recv = b } }

queued_lem :
    (cmd : Command) (c : Conn) (pools : Pools)
    → pools.db_pool.run ≡ true
    → is_db_command cmd ≡ true
    → execute_command cmd c pools ≡ (
      true,
      add_requests [] c,
      queue_tasks (record { cmd = cmd; fd = c.si.ufd; user_id = c.si.user_id } ∷ []) pools,
    )
unfolding execute_command enqueue push_task
queued_lem cmd c pools run db = rw (append-nil c.requests) (ground arith)

command_lem :
    (cmd : Command) (c : Conn) (pools : Pools)
    → pools.db_pool.run ≡ true
    → execute_command cmd c pools ≡ (
      true,
      add_requests (command_replies c.si (ok cmd)) c,
      queue_tasks (command_tasks c.si (ok cmd)) pools,
    )
unfolding execute_command is_db_command is_pool_command visit_command
command_lem (cmd_response text) c pools run = rw (append-nil pools.db_pool.tasks) refl
command_lem (cmd_say room_id text) c pools run = queued_lem (cmd_say room_id text) c pools run refl
command_lem (cmd_nick nick) c pools run = queued_lem (cmd_nick nick) c pools run refl
command_lem (cmd_login id pw) c pools run = queued_lem (cmd_login id pw) c pools run refl
command_lem (cmd_register id pw) c pools run = queued_lem (cmd_register id pw) c pools run refl
command_lem (cmd_friend_request to_user_id) c pools run =
    queued_lem (cmd_friend_request to_user_id) c pools run refl
command_lem (cmd_friend_accept from_user_id) c pools run =
    queued_lem (cmd_friend_accept from_user_id) c pools run refl
command_lem (cmd_friend_reject from_user_id) c pools run =
    queued_lem (cmd_friend_reject from_user_id) c pools run refl
command_lem (cmd_friend_remove friend_user_id) c pools run =
    queued_lem (cmd_friend_remove friend_user_id) c pools run refl
command_lem cmd_list_friend c pools run = queued_lem cmd_list_friend c pools run refl
command_lem cmd_list_friend_request c pools run =
    queued_lem cmd_list_friend_request c pools run refl
command_lem (cmd_create_room room_name) c pools run =
    queued_lem (cmd_create_room room_name) c pools run refl
command_lem (cmd_delete_room room_id) c pools run =
    queued_lem (cmd_delete_room room_id) c pools run refl
command_lem (cmd_invite_room room_id friend_user_id) c pools run =
    queued_lem (cmd_invite_room room_id friend_user_id) c pools run refl
command_lem (cmd_leave_room room_id) c pools run =
    queued_lem (cmd_leave_room room_id) c pools run refl
command_lem cmd_list_room c pools run = queued_lem cmd_list_room c pools run refl
command_lem (cmd_history room_id limit) c pools run =
    queued_lem (cmd_history room_id limit) c pools run refl

line_lem :
    (line : Text) (c : Conn) (pools : Pools)
    → pools.db_pool.run ≡ true
    → execute_line line c pools ≡ (
      true,
      add_requests (command_replies c.si (decode line)) c,
      queue_tasks (command_tasks c.si (decode line)) pools,
    )
unfolding execute_line
line_lem line c pools run = go (decode line)
  where
    go :
        (r : Expected Command)
        → elim r as (λ _. Bool × Conn × Pools) [
          | unexpected ec ↦ (true, c, pools)
          | ok cmd ↦ execute_command cmd c pools
        ]
          ≡ (
            true,
            add_requests (command_replies c.si r) c,
            queue_tasks (command_tasks c.si r) pools,
          )
    go (ok cmd) = command_lem cmd c pools run
    go (unexpected ec) = rw (append-nil c.requests, append-nil pools.db_pool.tasks) refl

handle_execute-none :
    (c : Conn) (pools : Pools) (b : OffsetBuffer)
    → parse_line c.si.recv ≡ (none, b)
    → handle_execute c pools ≡ (false, with_recv b c, pools)
unfolding handle_execute
handle_execute-none c pools b e = rw (e, handle_execute, ap (λ r. r.1) e) refl

handle_execute-some :
    (c : Conn) (pools : Pools) (line : Text) (b : OffsetBuffer)
    → pools.db_pool.run ≡ true
    → parse_line c.si.recv ≡ (some line, b)
    → handle_execute c pools ≡ (
      true,
      add_requests (command_replies c.si (decode line)) (with_recv b c),
      queue_tasks (command_tasks c.si (decode line)) pools,
    )
unfolding handle_execute
handle_execute-some c pools line b run e =
    rw (e, handle_execute, ap (λ r. r.1) e) (line_lem line (with_recv b c) pools run)

drain_lines-none :
    (fuel : ℕ) (b b' : OffsetBuffer)
    → parse_line b ≡ (none, b')
    → drain_lines (suc fuel) b ≡ ([], b')
unfolding drain_lines
drain_lines-none fuel b b' e = rw (e, drain_lines, ap (λ r. r.1) e) refl

drain_lines-some :
    (fuel : ℕ) (b b' : OffsetBuffer) (line : Text)
    → parse_line b ≡ (some line, b')
    → drain_lines (suc fuel) b ≡ (line ∷ (drain_lines fuel b').0, (drain_lines fuel b').1)
unfolding drain_lines
drain_lines-some fuel b b' line e = rw (e, drain_lines, ap (λ r. r.1) e) refl

parse_line-cases :
    (b : OffsetBuffer)
    → ((b' : OffsetBuffer) × (parse_line b ≡ (none, b')))
      ⊎ ((line : Text) × (b' : OffsetBuffer) × (parse_line b ≡ (some line, b')))
parse_line-cases b = elim (Option-cases (parse_line b).0) [
  | inl e ↦ inl ((parse_line b).1, ap (λ o. (o, (parse_line b).1)) e)
  | inr (line, e) ↦ inr (line, (parse_line b).1, ap (λ o. (o, (parse_line b).1)) e)
]

nothing_more :
    (c : Conn) (pools : Pools) (b : OffsetBuffer)
    → ◌≡◌ {A = Conn × Pools}
        (with_recv b c, pools)
        (add_requests [] (with_recv b c), queue_tasks [] pools)
nothing_more c pools b = rw (append-nil c.requests, append-nil pools.db_pool.tasks) refl

one_more :
    (rs rs' : List Request) (ts ts' : List Task) (c : Conn) (pools : Pools)
    → ◌≡◌ {A = Conn × Pools}
        (add_requests rs' (add_requests rs c), queue_tasks ts' (queue_tasks ts pools))
        (add_requests (rs ++ rs') c, queue_tasks (ts ++ ts') pools)
one_more rs rs' ts ts' c pools =
    rw (append_assoc c.requests rs rs', append_assoc pools.db_pool.tasks ts ts') refl

-- As long as the database pool runs, `while(on_execute(si));` takes the complete lines out of the
-- connection's buffer as `drain_lines` does, queues the database commands among them as tasks of
-- the connection and its user, and asks for a reply to each response, all in the lines' order.
pub execute_loop-drain_lines :
    (fuel : ℕ) (c : Conn) (pools : Pools)
    → pools.db_pool.run ≡ true
    → let (lines, recv') = drain_lines fuel c.si.recv in
      execute_loop fuel c pools ≡ (
        add_requests (line_replies c.si lines) (with_recv recv' c),
        queue_tasks (line_tasks c.si lines) pools,
      )
unfolding execute_loop
execute_loop-drain_lines zero c pools run = unfold drain_lines in nothing_more c pools c.si.recv
execute_loop-drain_lines (suc fuel) c pools run = elim (parse_line-cases c.si.recv) [
  | inl (b, e) ↦
      rw (handle_execute-none c pools b e, drain_lines-none fuel c.si.recv b e)
        (nothing_more c pools b)
  | inr (line, b, e) ↦
      rw (handle_execute-some c pools line b run e, drain_lines-some fuel c.si.recv b line e)
        (execute_loop-drain_lines fuel _ _ run
          ∙ one_more (command_replies c.si (decode line)) _ (command_tasks c.si (decode line)) _
              (with_recv (drain_lines fuel b).1 c) pools)
]
