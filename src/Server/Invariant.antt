-- ===== src/Server/Invariant.antt =====
-- What holds in every state that the server can reach.
use socket_prac.Prelude.{
  ℕ, ℤ, ◌≡◌, refl, Bool, true, false, Option, none, some, List, [], ◌∷◌, int_eq, if◌then◌else◌,
  lookup,
}
use socket_prac.Net.Socket.{SocketInfo}
use socket_prac.Reactor.Registry.State.{
  register_command, Registry, empty_registry, request, request_all,
}
use socket_prac.Reactor.Registry.Handlers.{Kernel, work}
use socket_prac.Reactor.Registry.Indexed.{IsIndexed}
use socket_prac.Reactor.Registry.Changes.{store-IsIndexed}
use socket_prac.Reactor.Registry.Entries.{empty-IsIndexed}
use socket_prac.Reactor.Registry.Preserved.{work-IsIndexed}
use socket_prac.Reactor.Registry.Armed.{Armed, empty-AllArmed, put-AllArmed}
use socket_prac.Reactor.Registry.Wakeup.{work-Armed}
use socket_prac.Database.Service.{DbService}
use socket_prac.Database.Executor.{Task, Executor, execute, worker_step}
use socket_prac.Server.Connection.{Conn, handle_client_error}
use socket_prac.Server.Execute.{Pools}
use socket_prac.Server.Handled.{handle_client_error-Handled}
use socket_prac.Server.Loop.{
  Event, Server, is_error_event, to_conn, on_event, put_back, on_socket, handle_event,
}
use socket_prac.Server.Kept.{Kept, Handled-Kept, on_event-Kept}

-- The invariant of the registry.
pub record Sound (reg : Registry) : Type 0 where
  pub indexed : IsIndexed reg
  pub armed : Armed reg

put_back-Sound :
    (fd : ℤ) (si : SocketInfo) (r : Conn × Pools) (srv : Server)
    → Sound srv.registry
    → lookup fd srv.registry.infos ≡ some si
    → Kept si r.0.si
    → Sound (put_back fd r srv).registry
unfolding request_all
put_back-Sound fd si r srv v found k = record {
  indexed = store-IsIndexed fd si srv.registry v.indexed found r.0.si k.ufd k.joined k.user_id;
  armed = put-AllArmed fd r.0.si srv.registry.infos v.armed (k.armed (v.armed.at_fd fd si found));
}

on_socket-Sound :
    (ev : Event) (si : SocketInfo) (srv : Server)
    → Sound srv.registry
    → lookup ev.fd srv.registry.infos ≡ some si
    → Sound (on_socket ev si srv).registry
unfolding on_socket
on_socket-Sound ev si srv v found = go (is_error_event ev.events)
  where
    go :
        (b : Bool)
        → Sound
            (if b
              then put_back ev.fd (handle_client_error (to_conn si), srv.pools) srv
              else put_back ev.fd (on_event ev (to_conn si) srv.pools) srv).registry
    go true =
        put_back-Sound ev.fd si (handle_client_error (to_conn si), srv.pools) srv v found
          (Handled-Kept (handle_client_error-Handled (to_conn si)))
    go false =
        put_back-Sound ev.fd si (on_event ev (to_conn si) srv.pools) srv v found
          (on_event-Kept ev (to_conn si) srv.pools)

handle_event-Sound :
    (ev : Event) (srv : Server) → Sound srv.registry → Sound (handle_event ev srv).registry
unfolding handle_event
handle_event-Sound ev srv v = go (lookup ev.fd srv.registry.infos) refl
  where
    go :
        (o : Option SocketInfo)
        → lookup ev.fd srv.registry.infos ≡ o
        → Sound (elim o as (λ _. Server) [ none ↦ srv | some si ↦ on_socket ev si srv ]).registry
    go none e = v
    go (some si) e = on_socket-Sound ev si srv v e

work-Sound : (kernel : Kernel) (reg : Registry) → Sound reg → Sound (work kernel reg)
work-Sound kernel reg v = record {
  indexed = work-IsIndexed kernel reg v.indexed;
  armed = work-Armed kernel reg v.armed;
}

-- The server with its database, and the steps of its threads: the acceptor hands a connection
-- over, the loop handles the queued commands or an event, a database worker executes a task.
pub record World (S : Type 0) : Type 0 where
  pub server : Server
  pub db_state : S

abbrev pub accept_fd : {S : Type 0} → ℤ → ℕ → World S → World S
accept_fd fd interest w = record w {
  server = record w.server { registry = request (register_command fd interest) w.server.registry };
}

abbrev pub with_server : {S : Type 0} → World S → Server → World S
with_server w srv = record w { server = srv }

abbrev pub served : {S : Type 0} → DbService S → World S → World S
served db w =
    let (ex, reg, s) = worker_step db w.server.pools.db_pool w.server.registry w.db_state in
    record {
      server = record { registry = reg; pools = record w.server.pools { db_pool = ex } };
      db_state = s;
    }

pub data Reaches {S : Type 0} (db : DbService S) : World S → Type 0 where
  starts :
      (pools : Pools) (s : S)
      → Reaches db
          (record { server = record { registry = empty_registry; pools = pools }; db_state = s })
  accepts :
      {w : World S} (fd : ℤ) (interest : ℕ) → Reaches db w → Reaches db (accept_fd fd interest w)
  works :
      {w : World S} (kernel : Kernel)
      → Reaches db w
      → Reaches db (with_server w (record w.server { registry = work kernel w.server.registry }))
  handles :
      {w : World S} (ev : Event)
      → Reaches db w
      → Reaches db (with_server w (handle_event ev w.server))
  serves : {w : World S} → Reaches db w → Reaches db (served db w)

worker_step-Sound :
    {S : Type 0} (db : DbService S) (ex : Executor) (reg : Registry) (s : S)
    → Sound reg
    → Sound (worker_step db ex reg s).1
unfolding worker_step request_all
worker_step-Sound {S} db ex reg s v = go ex.tasks
  where
    go :
        (ts : List Task)
        → Sound
            (elim ts as (λ _. Executor × Registry × S) [
              | [] ↦ (ex, reg, s)
              | t ∷ ts' ↦ (
                record ex { tasks = ts' },
                request_all (execute db t s).0 reg,
                (execute db t s).1,
              )
            ]).1
    go [] = v
    go (t ∷ ts') = record { indexed = v.indexed; armed = v.armed }

-- In every state that the server reaches, whatever the clients, the kernel, OpenSSL and the database
-- answer and however the threads' steps follow one another, the room and user indexes hold
-- exactly the rooms and the users of the connections, each connection is stored under its own
-- descriptor, and a connection with unread output asks for EPOLLOUT.
pub Reaches-Sound :
    {S : Type 0} (db : DbService S) (w : World S) → Reaches db w → Sound w.server.registry
unfolding request
Reaches-Sound db _ (starts pools s) = record { indexed = empty-IsIndexed; armed = empty-AllArmed }
Reaches-Sound db _ (accepts {w} fd interest r) =
    let v = Reaches-Sound db w r in record { indexed = v.indexed; armed = v.armed }
Reaches-Sound db _ (works {w} kernel r) = work-Sound kernel w.server.registry (Reaches-Sound db w r)
Reaches-Sound db _ (handles {w} ev r) = handle_event-Sound ev w.server (Reaches-Sound db w r)
Reaches-Sound db _ (serves {w} r) =
    worker_step-Sound db w.server.pools.db_pool w.server.registry w.db_state (Reaches-Sound db w r)
