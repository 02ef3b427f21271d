-- ===== src/Server/Kept.antt =====
-- An event leaves a connection the one it was, and its output armed.
use socket_prac.Prelude.{
  ℕ, zero, suc, ◌≡◌, refl, sym, ◌∙◌, inl, inr, Bool, true, false, not, Option, none, some, Text,
  int_eq, if◌then◌else◌, Bool-cases, length, arith,
}
use mathlib.Core.Path.{subst}
use socket_prac.Core.ErrorCode.{Expected, ok, unexpected}
use socket_prac.Protocol.Codec.{Command, decode}
use socket_prac.Protocol.LineParser.{parse_line}
use socket_prac.Net.Buffer.{unread}
use socket_prac.Net.Socket.{SocketInfo}
use socket_prac.Reactor.Registry.Armed.{IsArmed}
use socket_prac.Database.Executor.{is_db_command}
use socket_prac.Server.ThreadPool.{is_pool_command}
use socket_prac.Server.Connection.{Conn, handle_send, handle_recv}
use socket_prac.Server.Execute.{
  Pools, visit_command, execute_command, execute_line, handle_execute, execute_loop,
}
use socket_prac.Server.Handled.{Handled}
use socket_prac.Server.Closing.{handle_send-Handled, handle_recv-Handled}
use socket_prac.Server.Loop.{
  Event, is_read_event, is_write_event, execute_all, after_recv, on_event,
}

-- Who the connection is stays, and its output stays armed.
pub record Kept (si si' : SocketInfo) : Type 0 where
  pub ufd : si'.ufd ≡ si.ufd
  pub user_id : si'.user_id ≡ si.user_id
  pub joined : si'.joined_room_ids ≡ si.joined_room_ids
  pub armed : IsArmed si → IsArmed si'

Kept-refl : (si : SocketInfo) → Kept si si
Kept-refl si = record { ufd = refl; user_id = refl; joined = refl; armed = λ a. a }

Kept-trans : {a b c : SocketInfo} → Kept a b → Kept b c → Kept a c
Kept-trans p q = record {
  ufd = q.ufd ∙ p.ufd;
  user_id = q.user_id ∙ p.user_id;
  joined = q.joined ∙ p.joined;
  armed = λ a. q.armed (p.armed a);
}

pub Handled-Kept : {c c' : Conn} → Handled c c' → Kept c.si c'.si
Handled-Kept h = record { ufd = h.ufd; user_id = h.user_id; joined = h.joined; armed = h.armed }

visit_command-si : (cmd : Command) (c : Conn) → (visit_command cmd c).si ≡ c.si
unfolding visit_command
visit_command-si cmd c = ground arith

execute_command-si :
    (cmd : Command) (c : Conn) (pools : Pools) → (execute_command cmd c pools).1.si ≡ c.si
unfolding execute_command
execute_command-si cmd c pools = elim (Bool-cases (is_db_command cmd)) [
  | inl db ↦ rw (db, execute_command) refl
  | inr other ↦ rw (other, execute_command, is_pool_command) (visit_command-si cmd c)
]

execute_line-si : (line : Text) (c : Conn) (pools : Pools) → (execute_line line c pools).1.si ≡ c.si
unfolding execute_line
execute_line-si line c pools = go (decode line)
  where
    go :
        (r : Expected Command)
        → (elim r as (λ _. Bool × Conn × Pools) [
          | unexpected ec ↦ (true, c, pools)
          | ok cmd ↦ execute_command cmd c pools
        ]).1.si
          ≡ c.si
    go (ok cmd) = execute_command-si cmd c pools
    go (unexpected ec) = refl

handle_execute-Kept : (c : Conn) (pools : Pools) → Kept c.si (handle_execute c pools).1.si
unfolding handle_execute
handle_execute-Kept c pools = go (parse_line c.si.recv).0
  where
    c' : Conn
    c' = record c { si = record c.si { recv = (parse_line c.si.recv).1 } }

    moved : Kept c.si c'.si
    moved = record {
      ufd = refl;
      user_id = refl;
      joined = refl;
      armed = λ a. record { asks = a.asks };
    }

    go :
        (line : Option Text)
        → Kept c.si
            (elim line as (λ _. Bool × Conn × Pools) [
              | none ↦ (false, c', pools)
              | some text ↦ execute_line text c' pools
            ]).1.si
    go none = moved
    go (some text) = subst (Kept c.si) (sym (execute_line-si text c' pools)) moved

execute_loop-Kept :
    (fuel : ℕ) (c : Conn) (pools : Pools) → Kept c.si (execute_loop fuel c pools).0.si
unfolding execute_loop
execute_loop-Kept zero c pools = Kept-refl c.si
execute_loop-Kept (suc fuel) c pools =
    go (handle_execute c pools).0 (handle_execute-Kept c pools)
      (execute_loop-Kept fuel (handle_execute c pools).1 (handle_execute c pools).2)
  where
    c' : Conn
    c' = (handle_execute c pools).1

    pools' : Pools
    pools' = (handle_execute c pools).2

    go :
        (b : Bool)
        → Kept c.si c'.si
        → Kept c'.si (execute_loop fuel c' pools').0.si
        → Kept c.si
            (if◌then◌else◌ {A = Conn × Pools} b (execute_loop fuel c' pools') (c', pools')).0.si
    go true k later = Kept-trans k later
    go false k later = k

execute_all-Kept : (c : Conn) (pools : Pools) → Kept c.si (execute_all c pools).0.si
execute_all-Kept c pools = execute_loop-Kept (suc (length (unread c.si.recv))) c pools

after_recv-Kept : (ev : Event) (c : Conn) (pools : Pools) → Kept c.si (after_recv ev c pools).0.si
unfolding after_recv
after_recv-Kept ev c pools = go (is_write_event ev.events) (is_read_event ev.events)
  where
    sent : Bool → Conn
    sent w = if w then handle_send ev.replies c else c

    go :
        (w r : Bool)
        → Kept c.si
            (if◌then◌else◌ {A = Conn × Pools} r (execute_all (sent w) pools) (sent w, pools)).0.si
    go true true =
        Kept-trans (Handled-Kept (handle_send-Handled ev.replies c))
          (execute_all-Kept (sent true) pools)
    go false true = execute_all-Kept c pools
    go true false = Handled-Kept (handle_send-Handled ev.replies c)
    go false false = Kept-refl c.si

pub on_event-Kept : (ev : Event) (c : Conn) (pools : Pools) → Kept c.si (on_event ev c pools).0.si
unfolding on_event
on_event-Kept ev c pools =
    go (if is_read_event ev.events then handle_recv ev.replies ev.events c else (true, c))
      (received (is_read_event ev.events))
  where
    received :
        (b : Bool)
        → Kept c.si
            (if◌then◌else◌ {A = Bool × Conn} b (handle_recv ev.replies ev.events c) (true, c)).1.si
    received true = Handled-Kept (handle_recv-Handled ev.replies ev.events c)
    received false = Kept-refl c.si

    go :
        (r : Bool × Conn)
        → Kept c.si r.1.si
        → Kept c.si
            (if◌then◌else◌ {A = Conn × Pools} (not r.0) (r.1, pools) (after_recv ev r.1 pools)).0.si
    go (true, c') k = Kept-trans k (after_recv-Kept ev c' pools)
    go (false, c') k = k
