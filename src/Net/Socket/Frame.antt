-- ===== src/Net/Socket/Frame.antt =====
-- What a flush and a drain leave as it is.
use socket_prac.Prelude.{
  ℕ, ◌≡◌, refl, ◌∙◌, inl, inr, false, Option, List, [], ◌∷◌, Text, arith, Bool-cases,
}
use socket_prac.Core.ErrorCode.{Expected, ok, unexpected}
use socket_prac.Net.Buffer.{OffsetBuffer, has_pending, remaining, clear_if_done}
use socket_prac.Net.TlsSession.{
  TlsIoResult, TlsSession, SslReply, read, write, failed, want_read_error, want_write_error,
}
use socket_prac.Net.Socket.{
  SocketInfo, RecvInfo, buf_size, Round, returns, goes_on, flush_result, flush_round, flush_step,
  flush_loop, flush_send, drain_result, drain_round, drain_step, drain_loop, drain_recv,
}

-- All but the buffers and the session.
pub record Same (si si' : SocketInfo) : Type 0 where
  pub closed : si'.is_closed ≡ si.is_closed
  pub interest : si'.interest ≡ si.interest
  pub ufd : si'.ufd ≡ si.ufd
  pub user_id : si'.user_id ≡ si.user_id
  pub joined : si'.joined_room_ids ≡ si.joined_room_ids

pub Same-refl : (si : SocketInfo) → Same si si
Same-refl si = record { closed = refl; interest = refl; ufd = refl; user_id = refl; joined = refl }

pub Same-trans : {a b c : SocketInfo} → Same a b → Same b c → Same a c
Same-trans p q = record {
  closed = q.closed ∙ p.closed;
  interest = q.interest ∙ p.interest;
  ufd = q.ufd ∙ p.ufd;
  user_id = q.user_id ∙ p.user_id;
  joined = q.joined ∙ p.joined;
}

idle_clear : (b : OffsetBuffer) → has_pending b ≡ false → has_pending (clear_if_done b).0 ≡ false
unfolding has_pending clear_if_done
idle_clear b h = ground arith

abbrev after : {A : Type 0} → Round A → SocketInfo
after (returns r si) = si
after (goes_on a si) = si

flush_result-Same :
    (wr : TlsIoResult) (sent : ℕ) (si : SocketInfo) → Same si (after (flush_result wr sent si))
unfolding flush_result
flush_result-Same wr sent si = record {
  closed = ground arith;
  interest = ground arith;
  ufd = ground arith;
  user_id = ground arith;
  joined = ground arith;
}

drain_result-Same :
    (rd : TlsIoResult) (text : Text) (ret : RecvInfo) (si : SocketInfo)
    → Same si (after (drain_result rd text ret si))
unfolding drain_result
drain_result-Same rd text ret si = record {
  closed = ground arith;
  interest = ground arith;
  ufd = ground arith;
  user_id = ground arith;
  joined = ground arith;
}

drain_result-send :
    (rd : TlsIoResult) (text : Text) (ret : RecvInfo) (si : SocketInfo)
    → (after (drain_result rd text ret si)).send ≡ si.send
unfolding drain_result
drain_result-send rd text ret si = ground arith

module _ (reason_text : ℕ → Option Text) where
  flush_round-Same :
      (reply : SslReply ℕ) (sent : ℕ) (si : SocketInfo)
      → Same si (after (flush_round reason_text reply sent si))
  unfolding flush_round
  flush_round-Same reply sent si = go (write reason_text (remaining si.send) reply si.tls).0
    where
      tls' : TlsSession
      tls' = (write reason_text (remaining si.send) reply si.tls).1

      go :
          (wr : Expected TlsIoResult)
          → Same si (
              after (elim wr as (λ _. Round ℕ) [
                | ok io ↦ flush_result io sent (record si { tls = tls' })
                | unexpected ec ↦ returns (unexpected ec) (record si { tls = tls' })
              ]))
      go (ok io) =
          Same-trans
            (record { closed = refl; interest = refl; ufd = refl; user_id = refl; joined = refl })
            (flush_result-Same io sent (record si { tls = tls' }))
      go (unexpected ec) = record {
        closed = refl;
        interest = refl;
        ufd = refl;
        user_id = refl;
        joined = refl;
      }

  drain_round-Same :
      (reply : SslReply Text) (ret : RecvInfo) (si : SocketInfo)
      → Same si (after (drain_round reason_text reply ret si))
        × ((after (drain_round reason_text reply ret si)).send ≡ si.send)
  unfolding drain_round
  drain_round-Same reply ret si = go r.0
    where
      r : Expected TlsIoResult × Text × TlsSession
      r = read reason_text buf_size reply si.tls

      round : Expected TlsIoResult → Round RecvInfo
      round rd = elim rd [
        | ok io ↦ drain_result io r.1 ret (record si { tls = r.2 })
        | unexpected ec ↦ returns (unexpected ec) (record si { tls = r.2 })
      ]

      go :
          (rd : Expected TlsIoResult)
          → Same si (after (round rd)) × ((after (round rd)).send ≡ si.send)
      go (ok io) = (
        Same-trans
            (record { closed = refl; interest = refl; ufd = refl; user_id = refl; joined = refl })
            (drain_result-Same io r.1 ret (record si { tls = r.2 })),
        drain_result-send io r.1 ret (record si { tls = r.2 }),
      )
      go (unexpected ec) = (
        record { closed = refl; interest = refl; ufd = refl; user_id = refl; joined = refl },
        refl,
      )

  flush_step-Same :
      (next : ℕ → SocketInfo → Expected ℕ × SocketInfo) (reply : SslReply ℕ) (sent : ℕ)
      (si : SocketInfo)
      → ((sent' : ℕ) (si' : SocketInfo) → Same si' (next sent' si').1)
      → Same si (flush_step reason_text next reply sent si).1
        × (has_pending si.send ≡ false
            → has_pending (flush_step reason_text next reply sent si).1.send ≡ false)
  unfolding flush_step
  flush_step-Same next reply sent si later = elim (Bool-cases (has_pending si.send)) [
    | inr idle ↦
        rw (idle, flush_step)
          (
            record { closed = refl; interest = refl; ufd = refl; user_id = refl; joined = refl },
            λ _. idle_clear si.send idle,
          )
    | inl busy ↦
        rw (busy, flush_step)
          (
            go (flush_round reason_text reply sent si) (flush_round-Same reply sent si),
            λ h. absurd (ground arith),
          )
  ]
    where
      go :
          (r : Round ℕ)
          → Same si (after r)
          → Same si
              (elim r as (λ _. Expected ℕ × SocketInfo) [
                | returns x si' ↦ (x, si')
                | goes_on sent' si' ↦ next sent' si'
              ]).1
      go (returns x si') s = s
      go (goes_on sent' si') s = Same-trans s (later sent' si')

  flush_loop-Same :
      (replies : List (SslReply ℕ)) (sent : ℕ) (si : SocketInfo)
      → Same si (flush_loop reason_text replies sent si).1
        × (has_pending si.send ≡ false
            → has_pending (flush_loop reason_text replies sent si).1.send ≡ false)
  unfolding flush_loop
  flush_loop-Same [] sent si =
      flush_step-Same (λ sent' si'. (ok sent', si')) (failed want_write_error) sent si
        (λ sent' si'. Same-refl si')
  flush_loop-Same (reply ∷ replies) sent si =
      flush_step-Same (flush_loop reason_text replies) reply sent si
        (λ sent' si'. (flush_loop-Same replies sent' si').0)

  -- A flush makes no output pending.
  pub flush_send-Same :
      (replies : List (SslReply ℕ)) (si : SocketInfo)
      → Same si (flush_send reason_text replies si).1
        × (has_pending si.send ≡ false
            → has_pending (flush_send reason_text replies si).1.send ≡ false)
  unfolding flush_send
  flush_send-Same replies si = elim (Bool-cases si.tls.has_ssl) [
    | inl ssl ↦ simp ssl (flush_loop-Same replies 0 si)
    | inr bare ↦ simp bare (Same-refl si, λ h. h)
  ]

  drain_step-Same :
      (next : RecvInfo → SocketInfo → Expected RecvInfo × SocketInfo) (reply : SslReply Text)
      (ret : RecvInfo) (si : SocketInfo)
      → ((ret' : RecvInfo) (si' : SocketInfo)
          → Same si' (next ret' si').1 × ((next ret' si').1.send ≡ si'.send))
      → Same si (drain_step reason_text next reply ret si).1
        × ((drain_step reason_text next reply ret si).1.send ≡ si.send)
  unfolding drain_step
  drain_step-Same next reply ret si later =
      go (drain_round reason_text reply ret si) (drain_round-Same reply ret si)
    where
      out : Round RecvInfo → SocketInfo
      out r =
          (elim r as (λ _. Expected RecvInfo × SocketInfo) [
            | returns x si' ↦ (x, si')
            | goes_on ret' si' ↦ next ret' si'
          ]).1

      go :
          (r : Round RecvInfo)
          → Same si (after r) × ((after r).send ≡ si.send)
          → Same si (out r) × ((out r).send ≡ si.send)
      go (returns x si') s = s
      go (goes_on ret' si') s = (Same-trans s.0 (later ret' si').0, (later ret' si').1 ∙ s.1)

  drain_loop-Same :
      (replies : List (SslReply Text)) (ret : RecvInfo) (si : SocketInfo)
      → Same si (drain_loop reason_text replies ret si).1
        × ((drain_loop reason_text replies ret si).1.send ≡ si.send)
  unfolding drain_loop
  drain_loop-Same [] ret si =
      drain_step-Same (λ ret' si'. (ok ret', si')) (failed want_read_error) ret si
        (λ ret' si'. (Same-refl si', refl))
  drain_loop-Same (reply ∷ replies) ret si =
      drain_step-Same (drain_loop reason_text replies) reply ret si (drain_loop-Same replies)

  pub drain_recv-Same :
      (replies : List (SslReply Text)) (si : SocketInfo)
      → Same si (drain_recv reason_text replies si).1
        × ((drain_recv reason_text replies si).1.send ≡ si.send)
  unfolding drain_recv
  drain_recv-Same replies si = elim (Bool-cases si.tls.has_ssl) [
    | inl ssl ↦ simp ssl (drain_loop-Same replies (record { byte = 0; closed = false }) si)
    | inr bare ↦ simp bare (Same-refl si, refl)
  ]
