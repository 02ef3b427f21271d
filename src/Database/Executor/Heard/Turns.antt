-- ===== src/Database/Executor/Heard/Turns.antt =====
-- The answers that turns of the worker of src/database/db_executor.cpp add to the registry's queue.
use socket_prac.Prelude.{
  Bool-cases, ℤ, ℕ, suc, ◌+◌, ◌≤◌, Bool, true, ◌==◌, ◌&&◌, int_eq, beq_refl, if◌then◌else◌, sym,
  arith, ◌≡◌, refl, false, ◌⊎◌, inl, inr, List, [], ◌∷◌, ◌++◌, length,
}
use socket_prac.Protocol.Codec.{
  Command, cmd_say, cmd_nick, cmd_response, cmd_login, cmd_register, cmd_friend_request,
  cmd_friend_accept, cmd_friend_reject, cmd_friend_remove, cmd_list_friend, cmd_list_friend_request,
  cmd_create_room, cmd_delete_room, cmd_invite_room, cmd_leave_room, cmd_list_room, cmd_history,
}
use socket_prac.Reactor.Registry.State.{
  send_one_command, send_friend_list_command, room_broadcast_command, Request, Registry,
  request_all,
}
use socket_prac.Database.Service.{DbService}
use socket_prac.Database.Account.{execute_login}
use socket_prac.Database.Executor.{Task, Executor, is_db_command, execute}
use socket_prac.Database.Executor.Queue.{execute_in_order, worker_turns, worker_turns-drain}
use socket_prac.Database.Executor.Heard.{
  replied, listed, said, later, Heard, login_answer-Heard, register-Heard, nick-Heard,
  friend_request-Heard, friend_accept-Heard, friend_reject-Heard, friend_remove-Heard,
  list_friend-Heard, list_friend_request-Heard, say-Heard, create_room-Heard, delete_room-Heard,
  invite_room-Heard, leave_room-Heard, list_room-Heard, history-Heard,
}

module _ {S : Type 0} (db : DbService S) where
  execute-Heard : (t : Task) (s : S) → (is_db_command t.cmd ≡ false) ⊎ Heard t.fd (execute db t s).0
  unfolding execute execute_login is_db_command
  execute-Heard t s = go t.cmd
    where
      go :
          (cmd : Command)
          → (is_db_command cmd ≡ false) ⊎ Heard t.fd (execute db (record t { cmd = cmd }) s).0
      go (cmd_say room_id text) = inr (say-Heard db t.fd room_id text t.user_id s)
      go (cmd_nick nick) = inr (nick-Heard db t.fd nick t.user_id s)
      go (cmd_response text) = inl refl
      go (cmd_login id pw) =
          inr (login_answer-Heard db t.fd id (db.login id pw s).0 (db.login id pw s).1)
      go (cmd_register id pw) = inr (register-Heard db t.fd id pw s)
      go (cmd_friend_request user_id) = inr (friend_request-Heard db t.fd user_id t.user_id s)
      go (cmd_friend_accept user_id) = inr (friend_accept-Heard db t.fd user_id t.user_id s)
      go (cmd_friend_reject user_id) = inr (friend_reject-Heard db t.fd user_id t.user_id s)
      go (cmd_friend_remove user_id) = inr (friend_remove-Heard db t.fd user_id t.user_id s)
      go cmd_list_friend = inr (list_friend-Heard db t.fd t.user_id s)
      go cmd_list_friend_request = inr (list_friend_request-Heard db t.fd t.user_id s)
      go (cmd_create_room room_name) = inr (create_room-Heard db t.fd room_name t.user_id s)
      go (cmd_delete_room room_id) = inr (delete_room-Heard db t.fd room_id t.user_id s)
      go (cmd_invite_room room_id user_id) =
          inr (invite_room-Heard db t.fd room_id user_id t.user_id s)
      go (cmd_leave_room room_id) = inr (leave_room-Heard db t.fd room_id t.user_id s)
      go cmd_list_room = inr (list_room-Heard db t.fd t.user_id s)
      go (cmd_history room_id limit) = inr (history-Heard db t.fd room_id limit t.user_id s)

-- Whether a request answers a connection.
abbrev pub is_answer : ℤ → Request → Bool
is_answer fd (send_one_command to cmd) = to == fd
is_answer fd (send_friend_list_command to ids) = to == fd
is_answer fd (room_broadcast_command from room_id cmd) = from == fd
is_answer fd r = false

abbrev pub answers_to : ℤ → List Request → ℕ
answers_to fd [] = 0
answers_to fd (r ∷ rs) = let more = answers_to fd rs in if is_answer fd r then suc more else more

-- The tasks of a connection that wait for an answer.
abbrev pub tasks_of : ℤ → List Task → ℕ
tasks_of fd [] = 0
tasks_of fd (t ∷ ts) =
    let more = tasks_of fd ts in if t.fd == fd && is_db_command t.cmd then suc more else more

answers_to-append :
    (fd : ℤ) (rs qs : List Request) → answers_to fd (rs ++ qs) ≡ answers_to fd rs + answers_to fd qs
answers_to-append fd [] qs = omega arith
answers_to-append fd (r ∷ rs) qs = ground (arith, answers_to-append fd rs qs)

answered_once : (fd : ℤ) (rs : List Request) → Heard fd rs → 1 ≤ answers_to fd rs
answered_once fd rs (replied {cmd}) = rw (beq_refl fd) (omega arith)
answered_once fd rs (listed {ids}) = rw (beq_refl fd) (omega arith)
answered_once fd rs (said {room_id}) = rw (beq_refl fd) (omega arith)
answered_once fd rs (later {r} {rs = rest} h) = ground (arith, answered_once fd rest h)

module _ {S : Type 0} (db : DbService S) where
  task_answered :
      (fd : ℤ) (t : Task) (s : S)
      → (t.fd == fd && is_db_command t.cmd) ≡ true
      → 1 ≤ answers_to fd (execute db t s).0
  task_answered fd t s e = elim (execute-Heard db t s) [
    | inl silent ↦ absurd (ground arith)
    | inr heard ↦ moved t.fd fd (ground arith) heard
  ]
    where
      moved :
          (a b : ℤ)
          → (a == b) ≡ true
          → Heard a (execute db t s).0
          → 1 ≤ answers_to b (execute db t s).0
      moved a b same heard =
          answered_once b (execute db t s).0 (rw (sym ((int_eq.equals_iff a b).0 same)) heard)

  execute_in_order-answers :
      (fd : ℤ) (ts : List Task) (s : S)
      → tasks_of fd ts ≤ answers_to fd (execute_in_order db ts s).0
  execute_in_order-answers fd [] s = omega arith
  execute_in_order-answers fd (t ∷ ts) s =
      let s' = (execute db t s).1 in
      let apart = answers_to-append fd (execute db t s).0 (execute_in_order db ts s').0 in
      let rest = execute_in_order-answers fd ts s' in
      elim (Bool-cases (t.fd == fd && is_db_command t.cmd)) [
        | inl own ↦ rw own (omega (arith, apart, rest, task_answered fd t s own))
        | inr other ↦ rw other (omega (arith, apart, rest))
      ]

  -- Whatever the database answers, errors included, after as many turns of a worker as there are
  -- tasks, the registry's queue holds at least as many new answers to a connection (replies, its friend
  -- list, its messages to a room) as the connection had tasks with a command other than a response.
  pub worker_turns-answers :
      (fd : ℤ) (ex : Executor) (reg : Registry) (s : S)
      → answers_to fd reg.cmd_q + tasks_of fd ex.tasks
        ≤ answers_to fd (worker_turns db (length ex.tasks) ex reg s).1.cmd_q
  unfolding request_all
  worker_turns-answers fd ex reg s = rw (worker_turns-drain db ex reg s) (
      omega (
        arith,
        answers_to-append fd reg.cmd_q (execute_in_order db ex.tasks s).0,
        execute_in_order-answers fd ex.tasks s,
      ))
