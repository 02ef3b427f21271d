-- ===== src/Server/Connection.antt =====
-- The handlers of src/server/epoll_server.cpp that act on one connection, with `update_interest` of
-- src/reactor/epoll_utility.cpp. Their requests to the registry are listed in order.
use socket_prac.Prelude.{
  ℕ, suc, Bool, true, false, not, ◌&&◌, ◌||◌, Option, List, [], ◌∷◌, ◌++◌, Text, eqb, if◌then◌else◌,
}
use socket_prac.Core.ErrorCode.{Expected, ok, unexpected, from_errno, econnreset}
use socket_prac.Net.Buffer.{has_pending}
use socket_prac.Net.TlsSession.{SslReply, TlsIoResult, handshake}
use socket_prac.Net.Socket.{SocketInfo, RecvInfo, flush_send, drain_recv}
use socket_prac.Reactor.Interest.{epollout, epollrdhup, has_bit, set_bit, clear_bit}
use socket_prac.Reactor.Registry.State.{Request, unregister_command}
use socket_prac.Reactor.Registry.Handlers.{errno_exp}

-- What OpenSSL and the kernel answer while one event is handled: the n-th call of SSL_do_handshake,
-- SSL_shutdown and epoll_ctl, and the replies to the reads and writes of one drain or flush.
pub record Replies : Type 0 where
  pub reason_text : ℕ → Option Text
  pub do_handshake : ℕ → SslReply (Unit {0})
  pub do_shutdown : ℕ → SslReply (Unit {0})
  pub epoll_ctl_mod : ℕ → Option ℕ
  pub reads : List (SslReply Text)
  pub writes : List (SslReply ℕ)

-- A connection while an event is handled.
pub record Conn : Type 0 where
  pub si : SocketInfo
  pub requests : List Request
  pub calls : ℕ

-- The events that a connection should wait for.
unfoldable pub next_interest : SocketInfo → ℕ
unfolding has_pending set_bit clear_bit
next_interest si =
    if has_pending si.send || si.tls.want_write
    then set_bit epollout si.interest
    else clear_bit epollout si.interest

unfoldable pub request_unregister : Conn → Conn
request_unregister c = record c { requests = c.requests ++ unregister_command c.si.ufd ∷ [] }

unfoldable pub handle_disconnect : Conn → Conn
unfolding request_unregister
handle_disconnect c =
    if c.si.is_closed
    then c
    else request_unregister (record c { si = record c.si { is_closed = true } })

-- The answer to SSL_shutdown is only logged.
unfoldable pub handle_close : Conn → Conn
unfolding handle_disconnect
handle_close c =
    if c.si.is_closed
    then c
    else handle_disconnect (record c {
      calls = if c.si.tls.handshake_done && not c.si.tls.peer_closed then suc c.calls else c.calls;
    })

-- The end of a handler: a failure to change the events drops the connection.
unfoldable pub or_disconnect : Expected (Unit {0}) × Conn → Expected (Unit {0}) × Conn
unfolding handle_disconnect
or_disconnect (ok _, c) = (ok tt, c)
or_disconnect (unexpected ec, c) = (unexpected ec, handle_disconnect c)

-- The handshake is still going on.
abbrev pub in_handshake : Conn → Bool
in_handshake c = c.si.tls.has_ssl && not c.si.tls.handshake_done

unfoldable pub recv_end : RecvInfo → ℕ → Expected (Unit {0}) × Conn → Bool × Conn
unfolding handle_close
recv_end info event (unexpected ec, c) = (false, c)
recv_end info event (ok _, c) =
    if info.closed || has_bit epollrdhup event then (false, handle_close c) else (true, c)

-- The errors of SSL_shutdown and the socket's own error are only logged.
unfoldable pub handle_client_error : Conn → Conn
unfolding handle_disconnect
handle_client_error c =
    if c.si.is_closed
    then c
    else handle_disconnect
        (record c { calls = if c.si.tls.handshake_done then suc c.calls else c.calls })

module _ (env : Replies) where
  -- The new events are stored before the kernel accepts them.
  unfoldable pub update_interest : ℕ → Conn → Expected (Unit {0}) × Conn
  update_interest interest c = (
    errno_exp (env.epoll_ctl_mod c.calls),
    record c { si = record c.si { interest = interest }; calls = suc c.calls },
  )

  unfoldable pub sync_tls_interest : Conn → Expected (Unit {0}) × Conn
  unfolding next_interest update_interest
  sync_tls_interest c =
      if eqb (next_interest c.si) c.si.interest
      then (ok tt, c)
      else update_interest (next_interest c.si) c

  unfoldable pub handshake_result : Expected TlsIoResult → Conn → Expected (Unit {0}) × Conn
  unfolding handle_close sync_tls_interest or_disconnect
  handshake_result (unexpected ec) c = (unexpected ec, handle_disconnect c)
  handshake_result (ok io) c =
      if io.closed
      then (unexpected (from_errno econnreset), handle_close c)
      else or_disconnect (sync_tls_interest c)

  unfoldable pub progress_tls_handshake : Conn → Expected (Unit {0}) × Conn
  unfolding handshake handshake_result
  progress_tls_handshake c =
      if not c.si.tls.has_ssl || c.si.tls.handshake_done
      then (ok tt, c)
      else let (hs_exp, tls') = handshake env.reason_text (env.do_handshake c.calls) c.si.tls in
        handshake_result hs_exp (record c { si = record c.si { tls = tls' }; calls = suc c.calls })

  unfoldable pub send_result : Expected ℕ × SocketInfo → Conn → Conn
  unfolding sync_tls_interest or_disconnect
  send_result (unexpected ec, si) c = handle_disconnect (record c { si = si })
  send_result (ok n, si) c = (or_disconnect (sync_tls_interest (record c { si = si }))).1

  unfoldable pub handle_send : Conn → Conn
  unfolding progress_tls_handshake flush_send send_result
  handle_send c =
      let (hs_exp, c') = progress_tls_handshake c in
      elim hs_exp [
        | unexpected ec ↦ c'
        | ok _ ↦
            if in_handshake c'
            then c'
            else send_result (flush_send env.reason_text env.writes c'.si) c'
      ]

  unfoldable pub recv_result : ℕ → Expected RecvInfo × SocketInfo → Conn → Bool × Conn
  unfolding sync_tls_interest or_disconnect recv_end
  recv_result event (unexpected ec, si) c = (false, handle_disconnect (record c { si = si }))
  recv_result event (ok info, si) c =
      recv_end info event (or_disconnect (sync_tls_interest (record c { si = si })))

  unfoldable pub handle_recv : ℕ → Conn → Bool × Conn
  unfolding progress_tls_handshake drain_recv recv_result
  handle_recv event c =
      let (hs_exp, c') = progress_tls_handshake c in
      elim hs_exp [
        | unexpected ec ↦ (false, c')
        | ok _ ↦
            if in_handshake c'
            then (true, c')
            else recv_result event (drain_recv env.reason_text env.reads c'.si) c'
      ]
