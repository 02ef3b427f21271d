-- ===== src/Server/Execute.antt =====
-- `handle_execute` of src/server/epoll_server.cpp and the loop that event_loop::run calls it in.
pub mod Lines
use socket_prac.Prelude.{
  ℕ, zero, suc, Bool, true, false, Option, none, some, List, [], ◌∷◌, ◌++◌, Text, length,
  if◌then◌else◌,
}
use socket_prac.Core.ErrorCode.{Expected, ok, unexpected}
use socket_prac.Protocol.Codec.{Command, cmd_say, cmd_nick, cmd_response, decode}
use socket_prac.Protocol.LineParser.{parse_line}
use socket_prac.Reactor.Registry.State.{
  send_one_command, broadcast_command, change_nickname_command,
}
use socket_prac.Database.Executor.{Executor, is_db_command, enqueue}
use socket_prac.Server.ThreadPool.{ThreadPool, is_pool_command, pool_enqueue}
use socket_prac.Server.Connection.{Conn}

-- The two pools of the server.
pub record Pools : Type 0 where
  pub db_pool : Executor
  pub pool : ThreadPool

-- The visitor on a command that neither pool takes.
unfoldable pub visit_command : Command → Conn → Conn
visit_command (cmd_say room_id text) c = record c {
  requests = c.requests ++ broadcast_command c.si.ufd (cmd_response text) ∷ [];
}
visit_command (cmd_nick nick) c = record c {
  requests = c.requests ++ change_nickname_command c.si.ufd nick ∷ [];
}
visit_command (cmd_response text) c = record c {
  requests = c.requests ++ send_one_command c.si.ufd (cmd_response text) ∷ [];
}
visit_command cmd c = c

unfoldable pub execute_command : Command → Conn → Pools → Bool × Conn × Pools
unfolding enqueue is_pool_command pool_enqueue visit_command
execute_command cmd c pools =
    if is_db_command cmd
    then (let (queued, db_pool') = enqueue cmd c.si pools.db_pool in
        (queued, c, record pools { db_pool = db_pool' }))
    else if is_pool_command cmd
    then (let (queued, pool') = pool_enqueue cmd c.si pools.pool in
        (queued, c, record pools { pool = pool' }))
    else (true, visit_command cmd c, pools)

unfoldable pub execute_line : Text → Conn → Pools → Bool × Conn × Pools
unfolding decode execute_command
execute_line line c pools = elim (decode line) [
  | unexpected ec ↦ (true, c, pools)
  | ok cmd ↦ execute_command cmd c pools
]

unfoldable pub handle_execute : Conn → Pools → Bool × Conn × Pools
unfolding parse_line execute_line
handle_execute c pools =
    let (line, recv') = parse_line c.si.recv in
    let c' : Conn = record c { si = record c.si { recv = recv' } } in
    elim line [ none ↦ (false, c', pools) | some text ↦ execute_line text c' pools ]

-- `while(on_execute(si));`: a line has a character at least, so the unread length bounds the turns.
unfoldable pub execute_loop : ℕ → Conn → Pools → Conn × Pools
unfolding handle_execute
execute_loop zero c pools = (c, pools)
execute_loop (suc fuel) c pools =
    let (more, c', pools') = handle_execute c pools in
    let rest = execute_loop fuel c' pools' in if more then rest else (c', pools')
