-- ===== src/Client/Session.antt =====
-- The parts of src/client/chat_io_worker.cpp that talk to the server or read the terminal. What poll,
-- OpenSSL and the terminal answer in one round is an argument; the executor of the answers has its
-- own thread.
use socket_prac.Prelude.{
  ℕ, zero, suc, ℤ, Bool, true, false, not, ◌&&◌, ◌||◌, Option, none, some, List, [], ◌∷◌, Text,
  is_empty, eqb, length, if◌then◌else◌,
}
use socket_prac.Core.ErrorCode.{Expected, ok, unexpected, from_errno, econnreset, eintr}
use socket_prac.Protocol.Codec.{Command, decode}
use socket_prac.Protocol.LineParser.{parse_line}
use socket_prac.Net.Buffer.{OffsetBuffer, unread, has_pending, recv_append}
use socket_prac.Net.TlsSession.{TlsIoResult, SslReply, handshake, verify_peer}
use socket_prac.Net.Socket.{SocketInfo, flush_send}
use socket_prac.Client.Worker.{ChatIo, client_execute}

pub record PollEvents : Type 0 where
  pub pollin : Bool
  pub pollout : Bool
  pub pollerr : Bool
  pub pollhup : Bool

-- The errno of a poll that failed, or whether the terminal is ready and the events of the socket.
pub data PollReply : Type 0 where
  poll_failed : ℕ → PollReply
  polled : Bool → PollEvents → PollReply

-- A read of the terminal: the end, an errno, or text.
pub data StdinRead : Type 0 where
  end_of_file : StdinRead
  read_error : ℕ → StdinRead
  read_text : Text → StdinRead

-- `writes` has the replies to the n-th flush, and `so_error` what getsockopt gives, or its errno.
pub record Answers : Type 0 where
  pub reason_text : ℕ → Option Text
  pub do_handshake : SslReply (Unit {0})
  pub has_cert : Bool
  pub verify_rc : ℕ
  pub poll : PollReply
  pub stdin : StdinRead
  pub so_error : Expected ℕ
  pub writes : ℕ → List (SslReply ℕ)
  pub reads : List (SslReply Text)

-- The members of the worker, with what it shares with the executor.
pub record Client : Type 0 where
  pub si : SocketInfo
  pub logged_in : Bool
  pub selected_room_id : Option ℤ
  pub output : List Text
  pub execute_q : List Command
  pub stdin_buf : OffsetBuffer
  pub peer_verified : Bool
  pub stdin_eof : Bool
  pub flushes : ℕ

-- POLLERR and POLLHUP are always asked for.
unfoldable pub socket_events : SocketInfo → PollEvents
unfolding has_pending
socket_events si =
    if not si.tls.handshake_done
    then record {
      pollin = si.tls.want_read || not si.tls.want_write;
      pollout = si.tls.want_write;
      pollerr = true;
      pollhup = true;
    }
    else record {
      pollin = true;
      pollout = has_pending si.send || si.tls.want_write;
      pollerr = true;
      pollhup = true;
    }

-- The worker's `execute`, on the members that it uses.
unfoldable pub execute_input : Text → Client → Client
unfolding client_execute
execute_input line c =
    let io : ChatIo = client_execute line (record {
      send = c.si.send;
      logged_in = c.logged_in;
      selected_room_id = c.selected_room_id;
      output = c.output;
    }) in
    record c {
      si = record c.si { send = io.send };
      selected_room_id = io.selected_room_id;
      output = io.output;
    }

abbrev pub Result : Type 0 → Type 0
Result A = Expected A × Client

-- The commands among the lines; a line that does not decode is only logged.
unfoldable pub decoded : List Text → List Command
decoded [] = []
decoded (line ∷ lines) = elim (decode line) [
  | ok cmd ↦ cmd ∷ decoded lines
  | unexpected e ↦ decoded lines
]

module _ (a : Answers) where
  unfoldable pub verify : Client → Result (Unit {0})
  unfolding verify_peer
  verify c = elim (verify_peer a.has_cert a.verify_rc c.si.tls) [
    | unexpected ec ↦ (unexpected ec, c)
    | ok _ ↦ (ok tt, record c { peer_verified = true })
  ]

  -- After the handshake's call.
  unfoldable pub shaken : Expected TlsIoResult → Client → Result (Unit {0})
  unfolding verify
  shaken (unexpected ec) c = (unexpected ec, c)
  shaken (ok io) c =
      if io.closed
      then (unexpected (from_errno econnreset), c)
      else if not c.si.tls.handshake_done
      then (ok tt, c)
      else verify c

  unfoldable pub progress_tls_handshake : Client → Result (Unit {0})
  unfolding verify shaken handshake
  progress_tls_handshake c =
      if c.si.tls.handshake_done
      then (if c.peer_verified then (ok tt, c) else verify c)
      else let (hs_exp, tls') = handshake a.reason_text a.do_handshake c.si.tls in
        shaken hs_exp (record c { si = record c.si { tls = tls' } })

  unfoldable pub flush : Client → Result (Unit {0})
  unfolding flush_send
  flush c =
      let (fs_exp, si') = flush_send a.reason_text (a.writes c.flushes) c.si in
      let c' : Client = record c { si = si'; flushes = suc c.flushes } in
      elim fs_exp [ unexpected ec ↦ (unexpected ec, c') | ok _ ↦ (ok tt, c') ]

  unfoldable pub flush_pending_send : Client → Result (Unit {0})
  unfolding flush has_pending
  flush_pending_send c = if has_pending c.si.send then flush c else (ok tt, c)

  -- One line of the terminal.
  unfoldable pub send_line : Text → Client → Result (Unit {0})
  unfolding execute_input flush has_pending
  send_line line c =
      if is_empty line
      then (ok tt, c)
      else let c' = execute_input line c in
        if not (has_pending c.si.send) && not (has_pending c'.si.send)
        then (ok tt, c')
        else if not c'.si.tls.handshake_done
        then (ok tt, c')
        else flush c'

  -- `while(auto line = line_parser::parse_line(stdin_buf))`
  unfoldable pub send_lines : ℕ → Client → Result Bool
  unfolding parse_line send_line
  send_lines zero c = (ok false, c)
  send_lines (suc fuel) c =
      let (line?, buf) = parse_line c.stdin_buf in
      let c' : Client = record c { stdin_buf = buf } in
      elim line? [
        | none ↦ (ok false, c')
        | some line ↦
            (let (sent, c'') = send_line line c' in
              elim sent [ unexpected ec ↦ (unexpected ec, c'') | ok _ ↦ send_lines fuel c'' ])
      ]

  unfoldable pub send_stdin : Client → Result Bool
  unfolding send_lines recv_append
  send_stdin c = elim a.stdin [
    | end_of_file ↦ (ok true, c)
    | read_error ec ↦ (if eqb ec eintr then ok false else unexpected (from_errno ec), c)
    | read_text text ↦
        (let c' : Client = record c { stdin_buf = recv_append c.stdin_buf text } in
          send_lines (suc (length (unread c'.stdin_buf))) c')
  ]
