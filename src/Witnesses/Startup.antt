-- ===== src/Witnesses/Startup.antt =====
-- Tests of the configuration, of the connection string and of the client's loop and answers.
use socket_prac.Prelude.{
  Bool, ◌≡◌, ◌∷◌, ◌++◌, pos, refl, true, false, lookup, Option, none, some, [], Text, codes,
}
use socket_prac.Core.ErrorCode.{ok}
use socket_prac.Core.ConfigLoader.{
  getlines, Config, trim, load_key_value_file, check_server_require,
}
use socket_prac.Core.ConfigLoader.Lines.{Reads}
use socket_prac.Core.ConfigLoader.Entries.{
  WellFormed, load_key_value_file-WellFormed, check_server_require_lem,
}
use socket_prac.Core.ConfigLoader.RoundTrip.{Plain, print, load_key_value_file-print}
use socket_prac.Storage.Connector.{make_conninfo}
use socket_prac.Storage.Connector.Quoting.{read_conninfo, read_conninfo-make_conninfo}
use socket_prac.Client.Worker.{on_command, with_args}
use socket_prac.Protocol.Codec.{encode, cmd_response, cmd_say}
use socket_prac.Net.Buffer.{empty_buffer}
use socket_prac.Net.TlsSession.{done, failed, want_read_error}
use socket_prac.Net.Socket.{new_socket}
use socket_prac.Client.Executor.{ChatExecutor, run_executor, run_executor_lem}
use socket_prac.Client.Session.{Answers, Client, PollEvents, polled, end_of_file, read_text}
use socket_prac.Client.Run.{run}
use socket_prac.Witnesses.Data.{live_tls}

read_conninfo-make_conninfo_example :
    read_conninfo (
      make_conninfo
        (codes "db")
        (codes "5432")
        (codes "chat")
        (codes "o'neil")
        (codes "a\\b' x='y"))
    ≡ some (codes "db", codes "5432", codes "chat", codes "o'neil", codes "a\\b' x='y")
read_conninfo-make_conninfo_example =
    read_conninfo-make_conninfo (codes "db") (codes "5432") (codes "chat") (codes "o'neil")
      (codes "a\\b' x='y")

abbrev settings : Config
settings = (codes "db.host", codes "localhost") ∷ (codes "db.name", codes "chat = room") ∷ []

abbrev written : Text
written =
    codes "# database" ++ 10 ∷ codes " db.host = localhost " ++ 10 ∷ codes "db.name=chat = room"

abbrev written_file : Option (Text × Bool)
written_file = some (written, false)

load_key_value_file-WellFormed_example :
    (text : Text) × (written_file ≡ some (text, false))
    × Reads (getlines false [] text) settings
    × WellFormed settings
unfolding load_key_value_file
load_key_value_file-WellFormed_example = load_key_value_file-WellFormed written_file settings refl

Plain-host : Plain (codes "db.host", codes "localhost")
unfolding trim
Plain-host = record {
  trimmed = record { named = refl; key = refl; value = refl };
  no_hash = refl;
  no_equals = refl;
  one_line_key = refl;
  one_line_value = refl;
}

Plain-name : Plain (codes "db.name", codes "chat = room")
unfolding trim
Plain-name = record {
  trimmed = record { named = refl; key = refl; value = refl };
  no_hash = refl;
  no_equals = refl;
  one_line_key = refl;
  one_line_value = refl;
}

load_key_value_file-print_example : load_key_value_file (some (print settings, false)) ≡ ok settings
unfolding lookup
load_key_value_file-print_example =
    load_key_value_file-print settings (Plain-host, (Plain-name, tt)) (refl, (refl, tt))

-- Each setting is there, in the configuration or in the environment.
abbrev with_keys : Config
with_keys =
    (codes "db.host", codes "db")
    ∷ (codes "db.port", codes "5432")
    ∷ (codes "db.name", codes "chat")
    ∷ (codes "tls.cert", codes "c.pem")
    ∷ (codes "tls.key", codes "k.pem")
    ∷ []

abbrev secrets : Config
secrets = (codes "db.user", codes "ann") ∷ (codes "db.password", codes "pw") ∷ []

check_server_require_lem_example : check_server_require with_keys secrets ≡ ok tt
unfolding lookup
check_server_require_lem_example = (check_server_require_lem with_keys secrets).1 (
  (codes "db", refl),
  (codes "5432", refl),
  (codes "chat", refl),
  (codes "ann", refl),
  (codes "c.pem", refl),
  (codes "k.pem", refl),
  (codes "pw", refl),
)

abbrev answered : ChatExecutor
answered = record {
  execute_q =
      cmd_response (codes "login success")
      ∷ cmd_say (codes "7") (codes "hi")
      ∷ cmd_response (codes "login failed")
      ∷ [];
  logged_in = false;
  output = codes "hello" ∷ [];
}

run_executor_lem_example : run_executor answered ≡ (record {
  execute_q = [];
  logged_in = false;
  output = codes "hello" ∷ codes "login success" ∷ codes "login failed" ∷ [];
})
run_executor_lem_example = run_executor_lem answered

abbrev typing_client : Client
typing_client = record {
  si = new_socket (record live_tls { handshake_done = false }) 0 (pos 3);
  logged_in = false;
  selected_room_id = none;
  output = [];
  execute_q = [];
  stdin_buf = empty_buffer;
  peer_verified = false;
  stdin_eof = false;
  flushes = 0;
}

abbrev quiet : PollEvents
quiet = record { pollin = false; pollout = false; pollerr = false; pollhup = false }

-- The terminal has a login, while the socket is not ready.
abbrev typed : Answers
typed = record {
  reason_text = λ reason. none;
  do_handshake = failed want_read_error;
  has_cert = true;
  verify_rc = 0;
  poll = polled true quiet;
  stdin = read_text (codes "/login ann pw" ++ 10 ∷ []);
  so_error = ok 0;
  writes = λ n. done 13 ∷ [];
  reads = [];
}

-- The handshake is done and what was typed is sent.
abbrev connected : Answers
connected = record typed {
  do_handshake = done tt;
  poll = polled true (record quiet { pollin = true; pollout = true });
  stdin = end_of_file;
}

abbrev after_chat : Client
after_chat = (run typed (typed ∷ connected ∷ []) typing_client).1

-- The login was flushed once, after the certificate was verified.
sent_once : (after_chat.flushes ≡ 1) × (after_chat.peer_verified ≡ true)
unfolding run on_command with_args encode
sent_once = (refl, refl)
