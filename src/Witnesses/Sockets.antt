-- ===== src/Witnesses/Sockets.antt =====
-- Tests of the socket loops and of the handlers of one connection.
use socket_prac.Prelude.{refl, true, none, [], ◌∷◌, codes, arith}
use socket_prac.Net.TlsSession.{done, failed, want_write_error}
use socket_prac.Net.Socket.{SocketInfo, flush_send, drain_recv}
use socket_prac.Net.Socket.Transfer.{Sent, Drained, received, flush_send-Sent, drain_recv-Drained}
use socket_prac.Server.Connection.{handle_send, handle_recv}
use socket_prac.Server.Handled.{Handled}
use socket_prac.Server.Closing.{handle_send-Handled, handle_recv-Handled}
use socket_prac.Server.Loop.{to_conn}
use socket_prac.Witnesses.Data.{live_tls, member, with_output, line_replies_env}

abbrev after_flush : SocketInfo
after_flush = record with_output {
  send = record { buf = codes "hello"; offset = 3 };
  tls = record live_tls { want_write = true };
}

flush_send-Sent_example : Sent with_output 2 after_flush
unfolding flush_send
flush_send-Sent_example =
    flush_send-Sent (λ reason. none) (done 2 ∷ failed want_write_error ∷ []) with_output {n = 2}
      {si' = after_flush} refl

drain_recv-Drained_example :
    Drained
      (received (done (codes "ab") ∷ done (codes "c") ∷ []))
      0
      member
      (drain_recv (λ reason. none) (done (codes "ab") ∷ done (codes "c") ∷ []) member)
drain_recv-Drained_example =
    drain_recv-Drained (λ reason. none) (done (codes "ab") ∷ done (codes "c") ∷ []) member refl
      (omega arith)

handle_send-Handled_example :
    Handled (to_conn with_output) (handle_send line_replies_env (to_conn with_output))
handle_send-Handled_example = handle_send-Handled line_replies_env (to_conn with_output)

handle_recv-Handled_example :
    Handled (to_conn member) (handle_recv line_replies_env 8193 (to_conn member)).1
handle_recv-Handled_example = handle_recv-Handled line_replies_env 8193 (to_conn member)
