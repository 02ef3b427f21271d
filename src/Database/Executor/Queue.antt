-- ===== src/Database/Executor/Queue.antt =====
-- The queue of the database executor is served in order, and to its end.
use socket_prac.Prelude.{
  ℕ, zero, suc, ◌≡◌, refl, ◌∙◌, Bool, false, List, [], ◌∷◌, ◌++◌, append-nil, append_assoc, length,
  arith,
}
use socket_prac.Protocol.Codec.{Command}
use socket_prac.Net.Socket.{SocketInfo}
use socket_prac.Reactor.Registry.State.{Registry, request_all}
use socket_prac.Database.Service.{DbService}
use socket_prac.Database.Reply.{Acts}
use socket_prac.Database.Executor.{Task, Executor, push_task, enqueue, stop, execute, worker_step}

-- The tasks executed one after the other, with all their requests.
abbrev pub execute_in_order : {S : Type 0} → DbService S → List Task → S → Acts S
execute_in_order db [] s = ([], s)
execute_in_order db (t ∷ ts) s =
    let (requests, s') = execute db t s in
    let (more, s'') = execute_in_order db ts s' in (requests ++ more, s'')

-- Turns of a worker that is alone.
abbrev pub worker_turns :
    {S : Type 0} → DbService S → ℕ → Executor → Registry → S → Executor × Registry × S
worker_turns db zero ex reg s = (ex, reg, s)
worker_turns db (suc n) ex reg s =
    let (ex', reg', s') = worker_step db ex reg s in worker_turns db n ex' reg' s'

worker_turns_lem :
    {S : Type 0} (db : DbService S) (ts : List Task) (run : Bool) (reg : Registry) (s : S)
    → worker_turns db (length ts) (record { tasks = ts; run = run }) reg s ≡ (
      record { tasks = []; run = run },
      request_all (execute_in_order db ts s).0 reg,
      (execute_in_order db ts s).1,
    )
unfolding worker_step request_all
worker_turns_lem db [] run reg s = rw (append-nil reg.cmd_q) refl
worker_turns_lem db (t ∷ ts) run reg s =
    worker_turns_lem db ts run (request_all (execute db t s).0 reg) (execute db t s).1
    ∙ rw (append_assoc reg.cmd_q (execute db t s).0 (execute_in_order db ts (execute db t s).1).0)
        refl

-- As many turns of a worker as there are tasks empty the queue, whether or not the executor was
-- stopped: every task is executed once, in the order of the queue, and the requests reach the
-- registry's queue in that order.
pub worker_turns-drain :
    {S : Type 0} (db : DbService S) (ex : Executor) (reg : Registry) (s : S)
    → worker_turns db (length ex.tasks) ex reg s ≡ (
      record ex { tasks = [] },
      request_all (execute_in_order db ex.tasks s).0 reg,
      (execute_in_order db ex.tasks s).1,
    )
worker_turns-drain db ex reg s = worker_turns_lem db ex.tasks ex.run reg s

-- A stopped executor refuses every command and keeps its queue.
enqueue-stop :
    (cmd : Command) (si : SocketInfo) (ex : Executor) → enqueue cmd si (stop ex) ≡ (false, stop ex)
unfolding enqueue push_task stop
enqueue-stop cmd si ex = ground arith
