-- ===== src/Server/Loop.antt =====
-- src/reactor/event_loop.cpp over the handlers of the server. The answers of OpenSSL and of the kernel
-- to the calls of one event come with the event; a stop request ends the loop between two turns.
use socket_prac.Prelude.{
  ℕ, suc, ℤ, Bool, true, not, ◌||◌, none, some, List, [], ◌∷◌, length, int_eq, if◌then◌else◌,
  lookup,
}
use socket_prac.Net.Buffer.{unread}
use socket_prac.Net.Socket.{SocketInfo}
use socket_prac.Reactor.Interest.{epollin, epollout, epollerr, epollhup, epollrdhup, has_bit}
use socket_prac.Reactor.Registry.State.{Registry, store, request_all}
use socket_prac.Reactor.Registry.Handlers.{Kernel, work}
use socket_prac.Server.Connection.{Replies, Conn, handle_send, handle_recv, handle_client_error}
use socket_prac.Server.Execute.{Pools, execute_loop}

pub record Event : Type 0 where
  pub fd : ℤ
  pub events : ℕ
  pub replies : Replies

pub record Server : Type 0 where
  pub registry : Registry
  pub pools : Pools

abbrev pub is_read_event : ℕ → Bool
is_read_event event = has_bit epollin event || has_bit epollrdhup event || has_bit epollhup event

abbrev pub is_write_event : ℕ → Bool
is_write_event event = has_bit epollout event

abbrev pub is_error_event : ℕ → Bool
is_error_event event = has_bit epollerr event

-- The connection of an event, before a handler has asked for anything.
abbrev pub to_conn : SocketInfo → Conn
to_conn si = record { si = si; requests = []; calls = 0 }

-- `while(on_execute(si));` with a turn for each character at most.
abbrev pub execute_all : Conn → Pools → Conn × Pools
execute_all c pools = execute_loop (suc (length (unread c.si.recv))) c pools

unfoldable pub after_recv : Event → Conn → Pools → Conn × Pools
unfolding handle_send execute_loop
after_recv ev c pools =
    let c' = if is_write_event ev.events then handle_send ev.replies c else c in
    if is_read_event ev.events then execute_all c' pools else (c', pools)

unfoldable pub on_event : Event → Conn → Pools → Conn × Pools
unfolding handle_recv after_recv
on_event ev c pools =
    let (keep_alive, c') =
      (if is_read_event ev.events then handle_recv ev.replies ev.events c else (true, c)) in
    if not keep_alive then (c', pools) else after_recv ev c' pools

-- A connection that is handled is written back, and its requests are queued.
abbrev pub put_back : ℤ → Conn × Pools → Server → Server
put_back fd r srv = record {
  registry = request_all r.0.requests (store fd r.0.si srv.registry);
  pools = r.1;
}

unfoldable pub on_socket : Event → SocketInfo → Server → Server
unfolding on_event handle_client_error request_all
on_socket ev si srv =
    if is_error_event ev.events
    then put_back ev.fd (handle_client_error (to_conn si), srv.pools) srv
    else put_back ev.fd (on_event ev (to_conn si) srv.pools) srv

unfoldable pub handle_event : Event → Server → Server
unfolding on_socket
handle_event ev srv = elim (lookup ev.fd srv.registry.infos) [
  | none ↦ srv
  | some si ↦ on_socket ev si srv
]

unfoldable pub handle_events : List Event → Server → Server
unfolding handle_event
handle_events [] srv = srv
handle_events (ev ∷ evs) srv = handle_events evs (handle_event ev srv)

-- One turn of the loop: the queued commands, then the events that epoll_wait returned.
unfoldable pub turn : Kernel → List Event → Server → Server
unfolding work handle_events
turn kernel evs srv = handle_events evs (record srv { registry = work kernel srv.registry })
