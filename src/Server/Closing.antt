-- ===== src/Server/Closing.antt =====
-- What the handlers of one connection may change, and that they ask for its removal once at most.
use socket_prac.Prelude.{
  ℕ, ◌≡◌, refl, ap, ◌∙◌, inl, inr, Bool, true, false, not, ◌||◌, arith, eqb, eqb_iff, if◌then◌else◌,
  Bool-cases,
}
use socket_prac.Core.ErrorCode.{Expected, ok, unexpected}
use socket_prac.Net.Buffer.{has_pending}
use socket_prac.Net.TlsSession.{TlsIoResult, handshake}
use socket_prac.Net.Socket.{SocketInfo, RecvInfo, flush_send, drain_recv}
use socket_prac.Net.Socket.Frame.{Same, flush_send-Same, drain_recv-Same}
use socket_prac.Reactor.Interest.{epollout, epollrdhup, has_bit, has_bit-set_bit}
use socket_prac.Server.Connection.{
  Replies, Conn, next_interest, handle_close, update_interest, sync_tls_interest, or_disconnect,
  handshake_result, progress_tls_handshake, in_handshake, send_result, handle_send, recv_end,
  recv_result, handle_recv,
}
use socket_prac.Server.Handled.{
  Handled, Handled-trans, update-Handled, Handled-refl, handle_disconnect-Handled,
  handle_close-Handled,
}

next_interest-asks :
    (si : SocketInfo) → has_pending si.send ≡ true → has_bit epollout (next_interest si) ≡ true
unfolding next_interest
next_interest-asks si pending = rw (pending, next_interest) (has_bit-set_bit si.interest)

or_disconnect-Handled : (r : Expected (Unit {0}) × Conn) → Handled r.1 (or_disconnect r).1
unfolding or_disconnect
or_disconnect-Handled (ok _, c) = Handled-refl c
or_disconnect-Handled (unexpected ec, c) = handle_disconnect-Handled c

module _ (env : Replies) where
  -- After the events were brought up to date, they are what the connection waits for.
  sync_tls_interest-interest :
      (c : Conn)
      → ((sync_tls_interest env c).1.si.interest ≡ next_interest c.si)
        × Handled c (sync_tls_interest env c).1
  unfolding sync_tls_interest update_interest
  sync_tls_interest-interest c = elim (Bool-cases (eqb (next_interest c.si) c.si.interest)) [
    | inl same ↦
        simp same (ground (arith, eqb_iff (next_interest c.si) c.si.interest), Handled-refl c)
    | inr other ↦ simp other (
      refl,
      update-Handled c _ refl refl refl refl refl
          (λ a. record { asks = λ pending. next_interest-asks c.si pending }),
    )
  ]

  synced-Handled : (c : Conn) → Handled c (or_disconnect (sync_tls_interest env c)).1
  synced-Handled c =
      Handled-trans (sync_tls_interest-interest c).1
        (or_disconnect-Handled (sync_tls_interest env c))

  handshake_result-Handled :
      (r : Expected TlsIoResult) (c : Conn) → Handled c (handshake_result env r c).1
  unfolding handshake_result
  handshake_result-Handled (unexpected ec) c = handle_disconnect-Handled c
  handshake_result-Handled (ok io) c = elim (Bool-cases io.closed) [
    | inl closed ↦ simp closed (handle_close-Handled c)
    | inr open_ ↦ simp open_ (synced-Handled c)
  ]

  progress_tls_handshake-Handled : (c : Conn) → Handled c (progress_tls_handshake env c).1
  unfolding progress_tls_handshake
  progress_tls_handshake-Handled c =
      elim (Bool-cases (not c.si.tls.has_ssl || c.si.tls.handshake_done)) [
        | inl idle ↦ simp idle (Handled-refl c)
        | inr going ↦ simp going (
            Handled-trans
              (update-Handled c _ refl refl refl refl refl (λ a. record { asks = a.asks }))
              (handshake_result-Handled
                (handshake env.reason_text (env.do_handshake c.calls) c.si.tls).0 _))
      ]

  -- A flush or a drain that has made no output pending.
  moved-Handled :
      (c : Conn) (si : SocketInfo)
      → Same c.si si
      → (has_pending c.si.send ≡ false → has_pending si.send ≡ false)
      → Handled c (record c { si = si })
  moved-Handled c si s idle =
      update-Handled c (record c { si = si }) s.ufd s.user_id s.joined s.closed refl
        (λ a. record {
          asks = λ pending.
              ap (has_bit epollout) s.interest ∙ elim (Bool-cases (has_pending c.si.send)) [
                | inl busy ↦ a.asks busy
                | inr quiet ↦ absurd (ground (arith, idle quiet))
              ];
        })

  send_result-Handled :
      (r : Expected ℕ × SocketInfo) (c : Conn)
      → Same c.si r.1
      → (has_pending c.si.send ≡ false → has_pending r.1.send ≡ false)
      → Handled c (send_result env r c)
  unfolding send_result
  send_result-Handled (unexpected ec, si) c s idle =
      Handled-trans (moved-Handled c si s idle) (handle_disconnect-Handled (record c { si = si }))
  send_result-Handled (ok n, si) c s idle =
      Handled-trans (moved-Handled c si s idle) (synced-Handled (record c { si = si }))

  -- Whatever OpenSSL and the kernel answer, `handle_send` keeps the connection's descriptor, user
  -- and rooms, keeps a connection armed that was, leaves a closed one closed, and asks for its
  -- removal exactly when it closes it.
  pub handle_send-Handled : (c : Conn) → Handled c (handle_send env c)
  unfolding handle_send
  handle_send-Handled c = go (progress_tls_handshake env c) (progress_tls_handshake-Handled c)
    where
      flushed : Conn → Conn
      flushed c' =
          if in_handshake c'
          then c'
          else send_result env (flush_send env.reason_text env.writes c'.si) c'

      go :
          (r : Expected (Unit {0}) × Conn)
          → Handled c r.1
          → Handled c (elim r.0 as (λ _. Conn) [ unexpected ec ↦ r.1 | ok _ ↦ flushed r.1 ])
      go (unexpected ec, c') h = h
      go (ok _, c') h = elim (Bool-cases (in_handshake c')) [
        | inl early ↦ rw early h
        | inr late ↦ rw late (
            Handled-trans h (
              send_result-Handled (flush_send env.reason_text env.writes c'.si) c'
                (flush_send-Same env.reason_text env.writes c'.si).0
                (flush_send-Same env.reason_text env.writes c'.si).1))
      ]

  recv_end-Handled :
      (info : RecvInfo) (event : ℕ) (r : Expected (Unit {0}) × Conn)
      → Handled r.1 (recv_end info event r).1
  unfolding recv_end
  recv_end-Handled info event (unexpected ec, c) = Handled-refl c
  recv_end-Handled info event (ok _, c) = go (info.closed || has_bit epollrdhup event)
    where
      go :
          (b : Bool)
          → Handled c (if◌then◌else◌ {A = Bool × Conn} b (false, handle_close c) (true, c)).1
      go true = handle_close-Handled c
      go false = Handled-refl c

  recv_result-Handled :
      (event : ℕ) (r : Expected RecvInfo × SocketInfo) (c : Conn)
      → Same c.si r.1
      → r.1.send ≡ c.si.send
      → Handled c (recv_result env event r c).1
  unfolding recv_result
  recv_result-Handled event (unexpected ec, si) c s kept =
      Handled-trans (moved-Handled c si s (λ idle. ap has_pending kept ∙ idle))
        (handle_disconnect-Handled (record c { si = si }))
  recv_result-Handled event (ok info, si) c s kept =
      Handled-trans (moved-Handled c si s (λ idle. ap has_pending kept ∙ idle))
        (Handled-trans (synced-Handled (record c { si = si })) (recv_end-Handled info event _))

  -- For every event and whatever OpenSSL and the kernel answer, `handle_recv` keeps the
  -- connection's descriptor, user and rooms, keeps a connection armed that was, leaves a closed one
  -- closed, and asks for its removal exactly when it closes it.
  pub handle_recv-Handled : (event : ℕ) (c : Conn) → Handled c (handle_recv env event c).1
  unfolding handle_recv
  handle_recv-Handled event c = go (progress_tls_handshake env c) (progress_tls_handshake-Handled c)
    where
      drained : Conn → Bool × Conn
      drained c' =
          if in_handshake c'
          then (true, c')
          else recv_result env event (drain_recv env.reason_text env.reads c'.si) c'

      go :
          (r : Expected (Unit {0}) × Conn)
          → Handled c r.1
          → Handled c
              (elim r.0 as (λ _. Bool × Conn) [
                | unexpected ec ↦ (false, r.1)
                | ok _ ↦ drained r.1
              ]).1
      go (unexpected ec, c') h = h
      go (ok _, c') h = elim (Bool-cases (in_handshake c')) [
        | inl early ↦ rw early h
        | inr late ↦ rw late (
            Handled-trans h (
              recv_result-Handled event (drain_recv env.reason_text env.reads c'.si) c'
                (drain_recv-Same env.reason_text env.reads c'.si).0
                (drain_recv-Same env.reason_text env.reads c'.si).1))
      ]
