-- ===== src/Net/Socket/Shaken.antt =====
-- Transfers of src/net/io_helper.cpp do not touch the state of the handshake.
use socket_prac.Prelude.{
  ◌≡◌, refl, ◌∙◌, ℕ, Bool, false, Option, List, [], ◌∷◌, Text, eqb, inl, inr, Bool-cases, arith,
}
use socket_prac.Core.ErrorCode.{Expected, ok, unexpected}
use socket_prac.Net.Buffer.{has_pending, remaining}
use socket_prac.Net.TlsSession.{
  TlsIoResult, TlsSession, SslReply, done, failed, want_read_error, want_write_error, apply_state,
  apply_expected, from_ssl_error, wants, read, write,
}
use socket_prac.Net.Socket.{
  buf_size, SocketInfo, RecvInfo, Round, returns, goes_on, flush_result, drain_result, flush_round,
  drain_round, flush_step, flush_loop, drain_step, drain_loop, flush_send, drain_recv,
}

abbrev pub is_shaken : SocketInfo → Bool
is_shaken si = si.tls.handshake_done

abbrev done_after : {A : Type 0} → Round A → Bool
done_after (returns r si) = is_shaken si
done_after (goes_on a si) = is_shaken si

apply_expected-done :
    (r : Expected TlsIoResult) (s : TlsSession)
    → (apply_expected r s).1.handshake_done ≡ s.handshake_done
unfolding apply_expected apply_state
apply_expected-done (ok io) s = refl
apply_expected-done (unexpected ec) s = refl

flush_result-done :
    (wr : TlsIoResult) (sent : ℕ) (si : SocketInfo)
    → done_after (flush_result wr sent si) ≡ is_shaken si
unfolding flush_result
flush_result-done wr sent si = ground arith

drain_result-done :
    (rd : TlsIoResult) (text : Text) (ret : RecvInfo) (si : SocketInfo)
    → done_after (drain_result rd text ret si) ≡ is_shaken si
unfolding drain_result
drain_result-done rd text ret si = ground arith

module _ (reason_text : ℕ → Option Text) where
  write-done :
      (len : ℕ) (reply : SslReply ℕ) (s : TlsSession)
      → (write reason_text len reply s).1.handshake_done ≡ s.handshake_done
  unfolding write
  write-done len reply s = elim (Bool-cases s.has_ssl) [
    | inr bare ↦ simp bare refl
    | inl ssl ↦ simp ssl (elim (Bool-cases (eqb len 0)) [
      | inl zero_ ↦ rw zero_ refl
      | inr some_ ↦ rw some_ (go reply)
    ])
  ]
    where
      go :
          (reply : SslReply ℕ)
          → (elim reply as (λ _. Expected TlsIoResult × TlsSession) [
            | done byte ↦ apply_expected (ok (wants byte false false false)) s
            | failed e ↦ apply_expected (from_ssl_error reason_text e 0) s
          ]).1.handshake_done
            ≡ s.handshake_done
      go (done byte) = apply_expected-done (ok (wants byte false false false)) s
      go (failed e) = apply_expected-done (from_ssl_error reason_text e 0) s

  read-done :
      (cap : ℕ) (reply : SslReply Text) (s : TlsSession)
      → (read reason_text cap reply s).2.handshake_done ≡ s.handshake_done
  unfolding read
  read-done cap (done text) s =
      ground (arith, apply_expected-done (ok (wants 0 false false false)) s)
  read-done cap (failed e) s = ground (
    arith,
    apply_expected-done (from_ssl_error reason_text e 0) s,
    apply_expected-done (ok (wants 0 false false false)) s,
  )

  flush_round-done :
      (reply : SslReply ℕ) (sent : ℕ) (si : SocketInfo)
      → done_after (flush_round reason_text reply sent si) ≡ is_shaken si
  unfolding flush_round
  flush_round-done reply sent si =
      go (write reason_text (remaining si.send) reply si.tls).0
        (write-done (remaining si.send) reply si.tls)
    where
      tls' : TlsSession
      tls' = (write reason_text (remaining si.send) reply si.tls).1

      go :
          (wr : Expected TlsIoResult)
          → tls'.handshake_done ≡ si.tls.handshake_done
          → done_after (elim wr as (λ _. Round ℕ) [
            | ok io ↦ flush_result io sent (record si { tls = tls' })
            | unexpected ec ↦ returns (unexpected ec) (record si { tls = tls' })
          ])
            ≡ is_shaken si
      go (ok io) e = flush_result-done io sent (record si { tls = tls' }) ∙ e
      go (unexpected ec) e = e

  drain_round-done :
      (reply : SslReply Text) (ret : RecvInfo) (si : SocketInfo)
      → done_after (drain_round reason_text reply ret si) ≡ is_shaken si
  unfolding drain_round
  drain_round-done reply ret si = go r.0 (read-done buf_size reply si.tls)
    where
      r : Expected TlsIoResult × Text × TlsSession
      r = read reason_text buf_size reply si.tls

      go :
          (rd : Expected TlsIoResult)
          → r.2.handshake_done ≡ si.tls.handshake_done
          → done_after (elim rd as (λ _. Round RecvInfo) [
            | ok io ↦ drain_result io r.1 ret (record si { tls = r.2 })
            | unexpected ec ↦ returns (unexpected ec) (record si { tls = r.2 })
          ])
            ≡ is_shaken si
      go (ok io) e = drain_result-done io r.1 ret (record si { tls = r.2 }) ∙ e
      go (unexpected ec) e = e

  -- What a loop does with a round, when the rest of the loop keeps the handshake.
  ended :
      {A : Type 0} (next : A → SocketInfo → Expected A × SocketInfo) (r : Round A)
      → ((a : A) (si : SocketInfo) → is_shaken (next a si).1 ≡ is_shaken si)
      → is_shaken
          (elim r as (λ _. Expected A × SocketInfo) [
            | returns x si' ↦ (x, si')
            | goes_on a si' ↦ next a si'
          ]).1
        ≡ done_after r
  ended next (returns x si) keeps = refl
  ended next (goes_on a si) keeps = keeps a si

  flush_step-done :
      (next : ℕ → SocketInfo → Expected ℕ × SocketInfo) (reply : SslReply ℕ) (sent : ℕ)
      (si : SocketInfo)
      → ((sent' : ℕ) (si' : SocketInfo) → is_shaken (next sent' si').1 ≡ is_shaken si')
      → is_shaken (flush_step reason_text next reply sent si).1 ≡ is_shaken si
  unfolding flush_step
  flush_step-done next reply sent si keeps = elim (Bool-cases (has_pending si.send)) [
    | inr idle ↦ rw (idle, flush_step) refl
    | inl busy ↦
        rw (busy, flush_step)
          (ended next (flush_round reason_text reply sent si) keeps
            ∙ flush_round-done reply sent si)
  ]

  flush_loop-done :
      (replies : List (SslReply ℕ)) (sent : ℕ) (si : SocketInfo)
      → is_shaken (flush_loop reason_text replies sent si).1 ≡ is_shaken si
  unfolding flush_loop
  flush_loop-done [] sent si =
      flush_step-done (λ sent si. (ok sent, si)) (failed want_write_error) sent si (λ s x. refl)
  flush_loop-done (reply ∷ replies) sent si =
      flush_step-done (flush_loop reason_text replies) reply sent si (flush_loop-done replies)

  drain_loop-done :
      (replies : List (SslReply Text)) (ret : RecvInfo) (si : SocketInfo)
      → is_shaken (drain_loop reason_text replies ret si).1 ≡ is_shaken si
  unfolding drain_loop drain_step
  drain_loop-done [] ret si =
      ended (λ ret si. (ok ret, si)) (drain_round reason_text (failed want_read_error) ret si)
        (λ r x. refl)
      ∙ drain_round-done (failed want_read_error) ret si
  drain_loop-done (reply ∷ replies) ret si =
      ended (drain_loop reason_text replies) (drain_round reason_text reply ret si)
        (drain_loop-done replies)
      ∙ drain_round-done reply ret si

  pub flush_send-done :
      (replies : List (SslReply ℕ)) (si : SocketInfo)
      → is_shaken (flush_send reason_text replies si).1 ≡ is_shaken si
  unfolding flush_send
  flush_send-done replies si = elim (Bool-cases si.tls.has_ssl) [
    | inl ssl ↦ simp ssl (flush_loop-done replies 0 si)
    | inr bare ↦ simp bare refl
  ]

  pub drain_recv-done :
      (replies : List (SslReply Text)) (si : SocketInfo)
      → is_shaken (drain_recv reason_text replies si).1 ≡ is_shaken si
  unfolding drain_recv
  drain_recv-done replies si = elim (Bool-cases si.tls.has_ssl) [
    | inl ssl ↦ simp ssl (drain_loop-done replies (record { byte = 0; closed = false }) si)
    | inr bare ↦ simp bare refl
  ]
