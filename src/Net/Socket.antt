-- ===== src/Net/Socket.antt =====
-- `socket_info`, `flush_send` and `drain_recv` of include/net/io_helper.hpp and src/net/io_helper.cpp.
-- The replies of OpenSSL are listed in the order of the calls; a socket whose replies are used up
-- is dry: reads want to read, writes want to write, as a non-blocking socket does.
pub mod Transfer
pub mod Frame
pub mod Shaken
use socket_prac.Prelude.{
  ℕ, zero, suc, ◌+◌, ℤ, Bool, true, false, not, ◌||◌, Option, List, [], ◌∷◌, Text, codes, ltb, eqb,
  if◌then◌else◌,
}
use socket_prac.Core.ErrorCode.{Expected, ok, unexpected, from_errno, from_tls, einval, epipe}
use socket_prac.Net.TlsError.{protocol_error, make_code}
use socket_prac.Net.TlsSession.{
  TlsIoResult, TlsSession, SslReply, failed, want_read_error, want_write_error, read, write,
}
use socket_prac.Net.Buffer.{
  OffsetBuffer, empty_buffer, clear_if_done, compact_if_needed, has_pending, remaining, advance,
  recv_append,
}

abbrev pub buf_size : ℕ
buf_size = 4096

-- The endpoint, which is only logged, is left out.
pub record SocketInfo : Type 0 where
  pub recv : OffsetBuffer
  pub send : OffsetBuffer
  pub tls : TlsSession
  pub is_closed : Bool
  pub interest : ℕ
  pub ufd : ℤ
  pub user_id : Text
  pub nickname : Text
  pub joined_room_ids : List ℤ

-- A socket_info as `register_fd` and `chat_client::create` build it.
abbrev pub new_socket : TlsSession → ℕ → ℤ → SocketInfo
new_socket tls interest fd = record {
  recv = empty_buffer;
  send = empty_buffer;
  tls = tls;
  is_closed = false;
  interest = interest;
  ufd = fd;
  user_id = [];
  nickname = codes "guest";
  joined_room_ids = [];
}

pub record RecvInfo : Type 0 where
  pub byte : ℕ
  pub closed : Bool

-- One round of a loop: it returns, or goes on.
pub data Round (A : Type 0) : Type 0 where
  returns : Expected A → SocketInfo → Round A
  goes_on : A → SocketInfo → Round A

unfoldable pub flush_result : TlsIoResult → ℕ → SocketInfo → Round ℕ
unfolding advance compact_if_needed
flush_result wr sent si =
    let si' = if ltb 0 wr.byte then record si { send = advance wr.byte si.send } else si in
    let sent' = if ltb 0 wr.byte then sent + wr.byte else sent in
    if wr.closed
    then returns (unexpected (from_errno epipe)) si'
    else if wr.want_read || wr.want_write
    then returns (ok sent') (record si' { send = (compact_if_needed si'.send).0 })
    else if eqb wr.byte 0
    then returns (unexpected (from_tls (make_code protocol_error 0))) si'
    else goes_on sent' si'

unfoldable pub drain_result : TlsIoResult → Text → RecvInfo → SocketInfo → Round RecvInfo
unfolding recv_append
drain_result rd text ret si =
    let si' = record si { recv = recv_append si.recv text } in
    let ret' = record ret { byte = ret.byte + rd.byte } in
    if ltb 0 rd.byte
    then (if rd.want_read || rd.want_write then returns (ok ret') si' else goes_on ret' si')
    else if rd.closed
    then returns (ok (record ret { closed = true })) si
    else returns (ok ret) si

module _ (reason_text : ℕ → Option Text) where
  unfoldable pub flush_round : SslReply ℕ → ℕ → SocketInfo → Round ℕ
  unfolding flush_result write remaining
  flush_round reply sent si =
      let (wr, tls') = write reason_text (remaining si.send) reply si.tls in
      elim wr [
        | ok io ↦ flush_result io sent (record si { tls = tls' })
        | unexpected ec ↦ returns (unexpected ec) (record si { tls = tls' })
      ]

  unfoldable pub drain_round : SslReply Text → RecvInfo → SocketInfo → Round RecvInfo
  unfolding drain_result read
  drain_round reply ret si =
      let (rd, text, tls') = read reason_text buf_size reply si.tls in
      elim rd [
        | ok io ↦ drain_result io text ret (record si { tls = tls' })
        | unexpected ec ↦ returns (unexpected ec) (record si { tls = tls' })
      ]

  -- The test of the loop and one round; `next` is the rest of the loop.
  unfoldable pub flush_step :
      (ℕ → SocketInfo → Expected ℕ × SocketInfo)
      → SslReply ℕ
      → ℕ
      → SocketInfo
      → Expected ℕ × SocketInfo
  unfolding flush_round has_pending clear_if_done
  flush_step next reply sent si =
      if not (has_pending si.send)
      then (ok sent, record si { send = (clear_if_done si.send).0 })
      else elim (flush_round reply sent si) [
        | returns r si' ↦ (r, si')
        | goes_on sent' si' ↦ next sent' si'
      ]

  unfoldable pub flush_loop : List (SslReply ℕ) → ℕ → SocketInfo → Expected ℕ × SocketInfo
  unfolding flush_step
  flush_loop [] = flush_step (λ sent si. (ok sent, si)) (failed want_write_error)
  flush_loop (reply ∷ replies) = flush_step (flush_loop replies) reply

  unfoldable pub drain_step :
      (RecvInfo → SocketInfo → Expected RecvInfo × SocketInfo)
      → SslReply Text
      → RecvInfo
      → SocketInfo
      → Expected RecvInfo × SocketInfo
  unfolding drain_round
  drain_step next reply ret si = elim (drain_round reply ret si) [
    | returns r si' ↦ (r, si')
    | goes_on ret' si' ↦ next ret' si'
  ]

  unfoldable pub drain_loop :
      List (SslReply Text) → RecvInfo → SocketInfo → Expected RecvInfo × SocketInfo
  unfolding drain_step
  drain_loop [] = drain_step (λ ret si. (ok ret, si)) (failed want_read_error)
  drain_loop (reply ∷ replies) = drain_step (drain_loop replies) reply

  unfoldable pub flush_send : List (SslReply ℕ) → SocketInfo → Expected ℕ × SocketInfo
  unfolding flush_loop
  flush_send replies si =
      if not si.tls.has_ssl then (unexpected (from_errno einval), si) else flush_loop replies 0 si

  unfoldable pub drain_recv : List (SslReply Text) → SocketInfo → Expected RecvInfo × SocketInfo
  unfolding drain_loop
  drain_recv replies si =
      if not si.tls.has_ssl
      then (unexpected (from_errno einval), si)
      else drain_loop replies (record { byte = 0; closed = false }) si
