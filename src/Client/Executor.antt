-- ===== src/Client/Executor.antt =====
-- src/client/chat_executor.cpp: the commands that the server sends are executed one after the other.
use socket_prac.Prelude.{
  ◌≡◌, refl, sym, ap, ◌∙◌, inl, inr, Bool-cases, Option, none, some, ◌||◌, Bool, true, false, List,
  [], ◌∷◌, ◌++◌, Text, codes, ◌==◌, text_eq, append-nil, append_assoc, if◌then◌else◌,
}
use socket_prac.Protocol.Codec.{Command, cmd_response}

-- `logged_in` and the console are shared with the input side.
pub record ChatExecutor : Type 0 where
  pub execute_q : List Command
  pub logged_in : Bool
  pub output : List Text

unfoldable pub request_execute : Command → ChatExecutor → ChatExecutor
request_execute cmd ex = record ex { execute_q = ex.execute_q ++ cmd ∷ [] }

abbrev pub login_state : Text → Bool → Bool
login_state text logged_in =
    if text == codes "login success"
    then true
    else if text == codes "login failed"
    then false
    else logged_in

unfoldable pub execute_answer : Command → ChatExecutor → ChatExecutor
execute_answer (cmd_response text) ex = record ex {
  logged_in = login_state text ex.logged_in;
  output = ex.output ++ text ∷ [];
}
execute_answer cmd ex = ex

-- The loop of `run`. It ends when a stop is asked for and the queue is empty; without a stop it then
-- waits, so that in both cases the queue has been executed to its end.
unfoldable pub run_queue : List Command → ChatExecutor → ChatExecutor
unfolding execute_answer
run_queue [] ex = record ex { execute_q = [] }
run_queue (cmd ∷ cmds) ex = run_queue cmds (execute_answer cmd ex)

unfoldable pub run_executor : ChatExecutor → ChatExecutor
unfolding run_queue
run_executor ex = run_queue ex.execute_q ex

-- The texts of the responses among some commands, and the login state after them.
abbrev pub responses : List Command → List Text
responses [] = []
responses (cmd ∷ cmds) = elim cmd [ cmd_response text ↦ text ∷ responses cmds | _ ↦ responses cmds ]

-- The last of the answers to logins among some texts.
abbrev last_answer : Text → Option Text → Option Text
last_answer text (some later) = some later
last_answer text none =
    if text == codes "login success" || text == codes "login failed" then some text else none

abbrev pub login_answer : List Text → Option Text
login_answer [] = none
login_answer (text ∷ texts) = last_answer text (login_answer texts)

abbrev is_success : Option Text → Bool → Bool
is_success none before = before
is_success (some answer) before = answer == codes "login success"

-- Whether a client is logged in that got these texts, and was or was not before.
abbrev pub last_login : List Text → Bool → Bool
last_login texts before = is_success (login_answer texts) before

last_login_cons :
    (text : Text) (later : Option Text) (before : Bool)
    → is_success later (login_state text before) ≡ is_success (last_answer text later) before
last_login_cons text (some later) before = refl
last_login_cons text none before = elim (Bool-cases (text == codes "login success")) [
  | inl success ↦ rw success (sym success)
  | inr other ↦ rw other (elim (Bool-cases (text == codes "login failed")) [
    | inl failure ↦ rw failure (sym other)
    | inr neither ↦ rw neither refl
  ])
]

run_queue_lem :
    (cmds : List Command) (ex : ChatExecutor)
    → run_queue cmds ex ≡ (record ex {
      execute_q = [];
      logged_in = last_login (responses cmds) ex.logged_in;
      output = ex.output ++ responses cmds;
    })
unfolding run_queue execute_answer
run_queue_lem [] ex = rw (append-nil ex.output) refl
run_queue_lem (cmd_response text ∷ cmds) ex =
    run_queue_lem cmds (execute_answer (cmd_response text) ex)
    ∙ ap
        (λ (b : Bool). record ex {
          execute_q = [];
          logged_in = b;
          output = (ex.output ++ text ∷ []) ++ responses cmds;
        })
        (last_login_cons text (login_answer (responses cmds)) ex.logged_in)
    ∙ rw (append_assoc ex.output (text ∷ []) (responses cmds)) refl
run_queue_lem (cmd ∷ cmds) ex = run_queue_lem cmds ex

-- The executor prints the text of every response, in the order in which they came and once each,
-- nothing else, and is logged in afterwards just if the last "login success" or "login failed"
-- among them is a success, or, without any, if it was before; no command is left.
pub run_executor_lem :
    (ex : ChatExecutor)
    → run_executor ex ≡ (record {
      execute_q = [];
      logged_in = last_login (responses ex.execute_q) ex.logged_in;
      output = ex.output ++ responses ex.execute_q;
    })
unfolding run_executor
run_executor_lem ex = run_queue_lem ex.execute_q ex
