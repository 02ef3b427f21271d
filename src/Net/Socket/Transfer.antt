-- ===== src/Net/Socket/Transfer.antt =====
-- No byte is lost or repeated between a buffer and its TLS session.
use mathlib.Core.Path.{subst}
use socket_prac.Prelude.{
  ℕ, ◌+◌, ◌≡◌, refl, ap, ◌∙◌, ◌⊎◌, inl, inr, true, false, Option, List, [], ◌∷◌, ◌++◌, append-nil,
  append_assoc, Text, length, length-append, drop, drop-drop, arith, Bool-cases,
}
use socket_prac.Core.ErrorCode.{Expected, ok}
use socket_prac.Net.TlsSession.{
  SslReply, SslError, done, failed, want_read_error, want_write_error, wants, apply_state,
}
use socket_prac.Net.Buffer.{OffsetBuffer, clear_if_done, has_pending, unread, recv_append}
use socket_prac.Net.Buffer.View.{
  IsValid, unread-clear, unread-compact, unread-advance, unread-recv_append, recv_append-IsValid,
}
use socket_prac.Net.Socket.{
  SocketInfo, RecvInfo, Round, returns, goes_on, flush_round, flush_step, flush_loop, flush_send,
  drain_step, drain_loop, drain_recv,
}

-- The unread text is what stood behind the first `n` bytes, and the call stopped because nothing is
-- left or because the session wants the socket.
pub record Sent (si : SocketInfo) (n : ℕ) (si' : SocketInfo) : Type 0 where
  pub rest : unread si'.send ≡ drop n (unread si.send)
  pub stops :
      (has_pending si'.send ≡ false) ⊎ ((si'.tls.want_read ≡ true) ⊎ (si'.tls.want_write ≡ true))

Round-cases :
    {A : Type 0} (r : Round A)
    → ((x : Expected A) × (si : SocketInfo) × (r ≡ returns x si))
      ⊎ ((a : A) × (si : SocketInfo) × (r ≡ goes_on a si))
Round-cases (returns x si) = inl (x, si, refl)
Round-cases (goes_on a si) = inr (a, si, refl)

idle_clear : (b : OffsetBuffer) → has_pending b ≡ false → has_pending (clear_if_done b).0 ≡ false
unfolding has_pending clear_if_done
idle_clear b h = ground arith

-- What a loop has sent that ends with the count `total`, from a count and a socket on.
abbrev Flushed : ℕ → SocketInfo → ℕ → SocketInfo → Type 0
Flushed sent si total si' = (n : ℕ) × (total ≡ sent + n) × Sent si n si'

flush_idle :
    (sent : ℕ) (si : SocketInfo)
    → has_pending si.send ≡ false
    → Flushed sent si sent (record si { send = (clear_if_done si.send).0 })
flush_idle sent si h =
    (0, omega arith, record { rest = unread-clear si.send; stops = inl (idle_clear si.send h) })

-- The bytes that the replies carry, up to the first that carries none.
pub received : List (SslReply Text) → Text
received [] = []
received (done [] ∷ replies) = []
received (done (x ∷ xs) ∷ replies) = (x ∷ xs) ++ received replies
received (failed e ∷ replies) = []

-- What `drain_recv` leaves in the buffer, and counts when it returns.
pub record Drained (text : Text) (count : ℕ) (si : SocketInfo) (r : Expected RecvInfo × SocketInfo)
    : Type 0 where
  pub arrived : unread r.1.recv ≡ unread si.recv ++ text
  pub valid : IsValid r.1.recv
  pub counted : (info : RecvInfo) → r.0 ≡ ok info → info.byte ≡ count + length text

module _ (reason_text : ℕ → Option Text) where
  flush_round_goes_on :
      (reply : SslReply ℕ) (sent : ℕ) (si : SocketInfo) {sent' : ℕ} {si' : SocketInfo}
      → flush_round reason_text reply sent si ≡ goes_on sent' si'
      → (n : ℕ) × (sent' ≡ sent + n) × (unread si'.send ≡ drop n (unread si.send))
  unfolding flush_round
  flush_round_goes_on (done n) sent si e =
      (n, ground arith, ground (arith, unread-advance si.send n))
  flush_round_goes_on (failed e') sent si e = absurd (ground arith)

  flush_round_returns :
      (reply : SslReply ℕ) (sent : ℕ) (si : SocketInfo) {total : ℕ} {si' : SocketInfo}
      → flush_round reason_text reply sent si ≡ returns (ok total) si'
      → Flushed sent si total si'
  unfolding flush_round
  flush_round_returns (done n) sent si e = absurd (ground arith)
  flush_round_returns (failed e') sent si e = (
    0,
    ground arith,
    record { rest = ground (arith, unread-compact si.send); stops = ground arith },
  )

  round_lem :
      (reply : SslReply ℕ) (sent : ℕ) (si : SocketInfo)
      (next : ℕ → SocketInfo → Expected ℕ × SocketInfo) {total : ℕ} {si' : SocketInfo}
      → ((sent' : ℕ) (si'' : SocketInfo)
          → flush_round reason_text reply sent si ≡ goes_on sent' si''
          → next sent' si'' ≡ (ok total, si')
          → Flushed sent' si'' total si')
      → flush_step reason_text next reply sent si ≡ (ok total, si')
      → Flushed sent si total si'
  unfolding flush_step
  round_lem reply sent si next {total} {si'} later e = elim (Bool-cases (has_pending si.send)) [
    | inl busy ↦ elim (Round-cases (flush_round reason_text reply sent si)) [
      | inl (x, s, r) ↦ flush_round_returns reply sent si (ground arith)
      | inr (n, s, r) ↦
          let (k, total_eq, moved) = flush_round_goes_on reply sent si r in
          let (m, total_eq', sent') = later n s r (ground arith) in
          (
            k + m,
            omega arith,
            record {
              rest = sent'.rest ∙ ap (drop m) moved ∙ drop-drop k m (unread si.send);
              stops = sent'.stops;
            },
          )
    ]
    | inr idle ↦ let r = flush_idle sent si idle in ground (arith, r)
  ]

  flush_loop_lem :
      (replies : List (SslReply ℕ)) (sent : ℕ) (si : SocketInfo) {total : ℕ} {si' : SocketInfo}
      → flush_loop reason_text replies sent si ≡ (ok total, si')
      → Flushed sent si total si'
  unfolding flush_loop
  flush_loop_lem [] sent si e =
      round_lem (failed want_write_error) sent si _
        (λ n s r _. absurd (unfold flush_round in ground arith)) e
  flush_loop_lem (reply ∷ replies) sent si e =
      round_lem reply sent si _ (λ n s _ later. flush_loop_lem replies n s later) e

  -- When `flush_send` returns a count, the send buffer holds just the text behind that many bytes,
  -- and text is left only if the session waits to read or to write. No assumption is made on
  -- what OpenSSL answers.
  pub flush_send-Sent :
      (replies : List (SslReply ℕ)) (si : SocketInfo) {n : ℕ} {si' : SocketInfo}
      → flush_send reason_text replies si ≡ (ok n, si')
      → Sent si n si'
  unfolding flush_send
  flush_send-Sent replies si {n} {si'} e = elim (Bool-cases si.tls.has_ssl) [
    | inl live ↦
        let (k, total, s) = flush_loop_lem replies 0 si {total = n} {si' = si'} (ground arith) in
        let same : k ≡ n = omega arith in subst (λ m. Sent si m si') same s
    | inr dead ↦ absurd (ground arith)
  ]

  drain_failed :
      (e : SslError) (next : RecvInfo → SocketInfo → Expected RecvInfo × SocketInfo)
      (ret : RecvInfo) (si : SocketInfo)
      → si.tls.has_ssl ≡ true
      → IsValid si.recv
      → Drained [] ret.byte si (drain_step reason_text next (failed e) ret si)
  unfolding drain_step
  drain_failed e next ret si h v = record {
    arrived = rw (append-nil (unread si.recv)) (ground arith);
    valid = ground arith;
    counted = λ info k. ground arith;
  }

  drain_empty :
      (next : RecvInfo → SocketInfo → Expected RecvInfo × SocketInfo) (ret : RecvInfo)
      (si : SocketInfo)
      → si.tls.has_ssl ≡ true
      → IsValid si.recv
      → Drained [] ret.byte si (drain_step reason_text next (done []) ret si)
  unfolding drain_step
  drain_empty next ret si h v = record {
    arrived = rw (append-nil (unread si.recv)) (ground arith);
    valid = ground arith;
    counted = λ info k. ground arith;
  }

  drain_more :
      (x : ℕ) (xs : Text) (next : RecvInfo → SocketInfo → Expected RecvInfo × SocketInfo)
      (ret : RecvInfo) (si : SocketInfo)
      → si.tls.has_ssl ≡ true
      → (s : SocketInfo) × (drain_step reason_text next (done (x ∷ xs)) ret si
          ≡ next (record ret { byte = ret.byte + length (x ∷ xs) }) s)
        × (s.recv ≡ recv_append si.recv (x ∷ xs))
        × (s.tls.has_ssl ≡ true)
  unfolding drain_step
  drain_more x xs next ret si h = (
    record si {
      recv = recv_append si.recv (x ∷ xs);
      tls = apply_state (wants (length (x ∷ xs)) false false false) si.tls;
    },
    ground arith,
    refl,
    h,
  )

  drain_loop-Drained :
      (replies : List (SslReply Text)) (ret : RecvInfo) (si : SocketInfo)
      → si.tls.has_ssl ≡ true
      → IsValid si.recv
      → Drained (received replies) ret.byte si (drain_loop reason_text replies ret si)
  unfolding received drain_loop
  drain_loop-Drained [] ret si h v = drain_failed want_read_error _ ret si h v
  drain_loop-Drained (failed e ∷ replies) ret si h v = drain_failed e _ ret si h v
  drain_loop-Drained (done [] ∷ replies) ret si h v = drain_empty _ ret si h v
  drain_loop-Drained (done (x ∷ xs) ∷ replies) ret si h v =
      let (s, e, got, live) = drain_more x xs (drain_loop reason_text replies) ret si h in
      let fits : IsValid s.recv = rw got (recv_append-IsValid si.recv (x ∷ xs) v) in
      let ih =
        drain_loop-Drained replies (record ret { byte = ret.byte + length (x ∷ xs) }) s live fits in
      rw e (record {
        arrived =
            ih.arrived
            ∙ ap (λ b. unread b ++ received replies) got
            ∙ ap (λ t. t ++ received replies) (unread-recv_append si.recv (x ∷ xs) v)
            ∙ append_assoc (unread si.recv) (x ∷ xs) (received replies);
        valid = ih.valid;
        counted =
            λ info k. omega (arith, ih.counted info k, length-append (x ∷ xs) (received replies));
      })

  -- Over a live session `drain_recv` appends to the unread text exactly the bytes that OpenSSL
  -- handed over, up to the first call that gave none, whether it then returns or fails; when it
  -- returns, its count is the number of these bytes.
  pub drain_recv-Drained :
      (replies : List (SslReply Text)) (si : SocketInfo)
      → si.tls.has_ssl ≡ true
      → IsValid si.recv
      → Drained (received replies) 0 si (drain_recv reason_text replies si)
  unfolding drain_recv
  drain_recv-Drained replies si h v =
      simp h (drain_loop-Drained replies (record { byte = 0; closed = false }) si h v)
