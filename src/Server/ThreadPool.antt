-- ===== src/Server/ThreadPool.antt =====
-- The queue and the dispatch of src/core/thread_pool.cpp. Waiting and joining are left out.
use socket_prac.Prelude.{ℤ, Bool, true, false, not, List, [], ◌∷◌, ◌++◌, if◌then◌else◌}
use socket_prac.Protocol.Codec.{Command, cmd_say, cmd_nick, cmd_response}
use socket_prac.Net.Socket.{SocketInfo}
use socket_prac.Reactor.Registry.State.{Request, broadcast_command, change_nickname_command}

pub record PoolTask : Type 0 where
  pub cmd : Command
  pub fd : ℤ

pub record ThreadPool : Type 0 where
  pub tasks : List PoolTask
  pub run : Bool

unfoldable pub is_pool_command : Command → Bool
is_pool_command cmd = false

unfoldable pub pool_enqueue : Command → SocketInfo → ThreadPool → Bool × ThreadPool
pool_enqueue cmd si pool =
    if not pool.run
    then (false, pool)
    else (true, record pool { tasks = pool.tasks ++ record { cmd = cmd; fd = si.ufd } ∷ [] })

unfoldable pub pool_stop : ThreadPool → ThreadPool
pool_stop pool = record pool { run = false }

abbrev pub pool_requests : ℤ → Command → List Request
pool_requests fd (cmd_say room_id text) = broadcast_command fd (cmd_response text) ∷ []
pool_requests fd (cmd_nick nick) = change_nickname_command fd nick ∷ []
pool_requests fd cmd = []

unfoldable pub pool_execute : PoolTask → List Request
pool_execute t = pool_requests t.fd t.cmd
