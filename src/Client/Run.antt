-- ===== src/Client/Run.antt =====
-- The events of a round and the loop `run` of src/client/chat_io_worker.cpp.
pub mod Verified
use socket_prac.Prelude.{
  ℕ, zero, suc, ℤ, Bool, true, false, not, ◌&&◌, ◌||◌, Option, none, some, List, [], ◌∷◌, ◌++◌,
  Text, is_empty, eqb, length, if◌then◌else◌,
}
use socket_prac.Core.ErrorCode.{
  ErrorCode, Expected, ok, unexpected, from_errno, econnreset, eintr, eio,
}
use socket_prac.Protocol.Codec.{Command, decode}
use socket_prac.Protocol.LineParser.{parse_line, drain_lines}
use socket_prac.Net.Buffer.{OffsetBuffer, unread, has_pending, recv_append}
use socket_prac.Net.TlsSession.{TlsIoResult, TlsSession, SslReply, handshake, shutdown, verify_peer}
use socket_prac.Net.Socket.{SocketInfo, RecvInfo, flush_send, drain_recv}
use socket_prac.Client.Worker.{ChatIo, client_execute}
use socket_prac.Client.Session.{
  PollEvents, poll_failed, polled, Answers, Client, Result, decoded, progress_tls_handshake,
  flush_pending_send, send_stdin,
}

abbrev pub M : Type 0 → Type 0
M A = Client → Result A

infixl 5 ◌>>=◌ ◌>>◌
abbrev pub ◌>>=◌ : {A B : Type 0} → M A → (A → M B) → M B
◌>>=◌ m f c = let (r, c') = m c in elim r [ unexpected ec ↦ (unexpected ec, c') | ok a ↦ f a c' ]

abbrev pub ◌>>◌ : {B : Type 0} → M (Unit {0}) → M B → M B
m >> k = m >>= λ _. k

abbrev pub pure : {A : Type 0} → A → M A
pure a c = (ok a, c)

abbrev pub raise : {A : Type 0} → ErrorCode → M A
raise ec c = (unexpected ec, c)

module _ (a : Answers) where
  -- The terminal, until its end.
  unfoldable pub on_stdin : Bool → M (Unit {0})
  unfolding send_stdin
  on_stdin ready c =
      if not c.stdin_eof && ready
      then (send_stdin a >>= λ ended c. (ok tt, if ended then record c { stdin_eof = true } else c))
          c
      else (ok tt, c)

  -- An error of the socket ends the loop.
  unfoldable pub on_error : PollEvents → M (Unit {0})
  on_error ev c =
      if ev.pollerr
      then (elim a.so_error [
        | unexpected ec ↦ (unexpected ec, c)
        | ok ec ↦ (unexpected (from_errno (if eqb ec 0 then eio else ec)), c)
      ])
      else (ok tt, c)

  unfoldable pub on_handshake : PollEvents → M (Unit {0})
  unfolding progress_tls_handshake
  on_handshake ev c =
      if ev.pollin || ev.pollout || ev.pollhup
      then (progress_tls_handshake a >>= λ _ c.
            if ev.pollhup && not c.si.tls.handshake_done
            then (unexpected (from_errno econnreset), c)
            else (ok tt, c))
          c
      else (ok tt, c)

  unfoldable pub on_output : PollEvents → M (Unit {0})
  unfolding flush_pending_send
  on_output ev c =
      if c.si.tls.handshake_done && ev.pollout then flush_pending_send a c else (ok tt, c)

  -- The lines that have arrived go to the executor; the result tells that the peer has closed.
  unfoldable pub recv_socket : M Bool
  unfolding drain_recv drain_lines decoded
  recv_socket c =
      let (dr_exp, si') = drain_recv a.reason_text a.reads c.si in
      let (lines, buf) = drain_lines (suc (length (unread si'.recv))) si'.recv in
      elim dr_exp [
        | unexpected ec ↦ (unexpected ec, record c { si = si' })
        | ok info ↦ (
          ok info.closed,
          record c { si = record si' { recv = buf }; execute_q = c.execute_q ++ decoded lines },
        )
      ]

  unfoldable pub on_input : PollEvents → M Bool
  unfolding recv_socket
  on_input ev c =
      if c.si.tls.handshake_done && (ev.pollin || ev.pollhup) then recv_socket c else (ok false, c)

  -- Whether everything that was typed has been sent.
  unfoldable pub all_sent : M Bool
  unfolding has_pending
  all_sent c = (ok (c.stdin_eof && c.si.tls.handshake_done && not (has_pending c.si.send)), c)

  unfoldable pub on_events : Bool → PollEvents → M Bool
  unfolding on_stdin on_error on_handshake on_output on_input all_sent
  on_events ready ev = do
    on_stdin ready
    on_error ev
    on_handshake ev
    on_output ev
    closed ← on_input ev
    if closed then pure true else all_sent

  -- One round; the result tells that the loop is left.
  unfoldable pub round : M Bool
  unfolding on_events
  round c = elim a.poll [
    | poll_failed ec ↦ (if eqb ec eintr then ok false else unexpected (from_errno ec), c)
    | polled ready ev ↦ on_events ready ev c
  ]

-- The loop, for as many rounds as there are answers; then a stop is asked for.
unfoldable pub run_loop : List Answers → M (Unit {0})
unfolding round
run_loop [] = pure tt
run_loop (a ∷ later) = round a >>= λ left. elim left [ true ↦ pure tt | false ↦ run_loop later ]

-- The answers to the first handshake, and to the rounds. What SSL_shutdown answers at the end is only
-- logged.
unfoldable pub run : Answers → List Answers → M (Unit {0})
unfolding progress_tls_handshake run_loop
run first later = progress_tls_handshake first >> run_loop later
