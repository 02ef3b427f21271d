-- ===== src/Client/Guarded.antt =====
-- What each part of the client in src/client/chat_io_worker.cpp does to the check of the
-- server's certificate and to the output.
use socket_prac.Prelude.{
  ◌≡◌, refl, ◌∙◌, ℕ, zero, suc, Bool, true, false, not, ◌&&◌, Option, none, some, Text, eqb, length,
  is_empty, if◌then◌else◌, arith,
}
use socket_prac.Core.ErrorCode.{ErrorCode, Expected, ok, unexpected, from_errno, eintr}
use socket_prac.Protocol.LineParser.{parse_line}
use socket_prac.Net.Buffer.{OffsetBuffer, has_pending, unread, recv_append}
use socket_prac.Net.TlsSession.{TlsIoResult, TlsSession, handshake, verify_peer}
use socket_prac.Net.Socket.{SocketInfo, flush_send}
use socket_prac.Net.Socket.Shaken.{is_shaken, flush_send-done}
use socket_prac.Client.Session.{
  StdinRead, end_of_file, read_error, read_text, Answers, Client, Result, verify, shaken,
  progress_tls_handshake, flush, flush_pending_send, send_line, send_lines, send_stdin,
  execute_input,
}
use socket_prac.Client.Run.{M, ◌>>=◌}

-- Where the handshake is done, the certificate has been verified.
abbrev pub IsSafe : Client → Type 0
IsSafe c = c.si.tls.handshake_done ≡ true → c.peer_verified ≡ true

-- A verified certificate stays so, and as long as there is none nothing is given to OpenSSL to write.
pub record Guarded (c c' : Client) : Type 0 where
  pub stays : c.peer_verified ≡ true → c'.peer_verified ≡ true
  pub silent : c'.peer_verified ≡ false → c'.flushes ≡ c.flushes

Guarded-refl : (c : Client) → Guarded c c
Guarded-refl c = record { stays = λ e. e; silent = λ e. refl }

Guarded-trans : {a b c : Client} → Guarded a b → Guarded b c → Guarded a c
Guarded-trans {a} {b} {c} p q = record {
  stays = λ e. q.stays (p.stays e);
  silent = λ e. q.silent e ∙ p.silent (before b.peer_verified q.stays e);
}
  where
    before : (x : Bool) → (x ≡ true → c.peer_verified ≡ true) → c.peer_verified ≡ false → x ≡ false
    before true stays e = absurd (ground (arith, stays refl))
    before false stays e = refl

-- The state after an action that went well is safe again.
abbrev Fine : {A : Type 0} → Expected A → Client → Type 0
Fine (ok a) c = IsSafe c
Fine (unexpected ec) c = Unit

pub record Post {A : Type 0} (c : Client) (r : Result A) : Type 0 where
  pub safe : (a : A) → r.0 ≡ ok a → IsSafe r.1
  pub guarded : Guarded c r.1

pub still : {A : Type 0} {r : Expected A} (c : Client) → IsSafe c → Post c (r, c)
still c s = record { safe = λ a e. s; guarded = Guarded-refl c }

pub if-Post :
    {A : Type 0} {c : Client} (b : Bool) {x y : Result A}
    → (b ≡ true → Post c x)
    → (b ≡ false → Post c y)
    → Post c (if b then x else y)
if-Post true p q = p refl
if-Post false p q = q refl

pub failing :
    {A : Type 0} (c c' : Client) (ec : ErrorCode)
    → Guarded c c'
    → Post {A = A} c (unexpected ec, c')
failing c c' ec g = record { safe = λ a e. absurd (ground arith); guarded = g }

-- An action after a change that no flush and no verification has part in.
pub moved :
    {A : Type 0} {c c' : Client} {r : Result A}
    → c'.peer_verified ≡ c.peer_verified
    → c'.flushes ≡ c.flushes
    → Post c' r
    → Post c r
moved {A} {c} {c'} {r} v f p = record {
  safe = p.safe;
  guarded = Guarded-trans (record { stays = λ e. v ∙ e; silent = λ e. f }) p.guarded;
}

pub >>=-Post :
    {A B : Type 0} (m : M A) (f : A → M B) (c : Client)
    → Post c (m c)
    → ((a : A) (c' : Client) → IsSafe c' → Post c' (f a c'))
    → Post c ((m >>= f) c)
>>=-Post {A} {B} m f c p k = go (m c) p
  where
    go :
        (r : Result A)
        → Post c r
        → Post c
            (elim r.0 as (λ _. Result B) [ unexpected ec ↦ (unexpected ec, r.1) | ok a ↦ f a r.1 ])
    go (unexpected ec, c') p = record { safe = λ a e. absurd (ground arith); guarded = p.guarded }
    go (ok a, c') p =
        let q = k a c' (p.safe a refl) in
        record { safe = q.safe; guarded = Guarded-trans p.guarded q.guarded }

module _ (a : Answers) where
  verify-Post : (c : Client) → Post c (verify a c)
  unfolding verify
  verify-Post c = go (verify_peer a.has_cert a.verify_rc c.si.tls)
    where
      go :
          (r : Expected (Unit {0}))
          → Post c (elim r as (λ _. Result (Unit {0})) [
            | unexpected ec ↦ (unexpected ec, c)
            | ok _ ↦ (ok tt, record c { peer_verified = true })
          ])
      go (unexpected ec) = record { safe = λ a e. absurd (ground arith); guarded = Guarded-refl c }
      go (ok u) = record {
        safe = λ a e done. refl;
        guarded = record { stays = λ e. refl; silent = λ e. absurd (ground arith) };
      }

  pub progress-Post : (c : Client) → IsSafe c → Post c (progress_tls_handshake a c)
  unfolding progress_tls_handshake shaken
  progress-Post c s =
      if-Post c.si.tls.handshake_done
        (λ done. if-Post c.peer_verified (λ known. still c s) (λ unknown. verify-Post c))
        (λ going. go (handshake a.reason_text a.do_handshake c.si.tls))
    where
      go :
          (r : Expected TlsIoResult × TlsSession)
          → Post c (shaken a r.0 (record c { si = record c.si { tls = r.1 } }))
      go (unexpected ec, tls') = failing c _ ec (record { stays = λ e. e; silent = λ e. refl })
      go (ok io, tls') =
          if-Post io.closed
            (λ closed. failing c _ _ (record { stays = λ e. e; silent = λ e. refl }))
            (λ open_.
              if-Post (not tls'.handshake_done)
                (λ going. moved refl refl (still _ (λ done. absurd (ground arith))))
                (λ done.
                  moved refl refl (verify-Post (record c { si = record c.si { tls = tls' } }))))

  -- A flush is made only where the handshake is done.
  flush-Post : (c : Client) → c.si.tls.handshake_done ≡ true → IsSafe c → Post c (flush a c)
  unfolding flush
  flush-Post c done s =
      go (flush_send a.reason_text (a.writes c.flushes) c.si)
        (flush_send-done a.reason_text (a.writes c.flushes) c.si)
    where
      guarded : (si' : SocketInfo) → Guarded c (record c { si = si'; flushes = suc c.flushes })
      guarded si' = record { stays = λ e. e; silent = λ e. absurd (ground (arith, s done)) }

      go :
          (r : Expected ℕ × SocketInfo)
          → is_shaken r.1 ≡ is_shaken c.si
          → Post c (elim r.0 as (λ _. Result (Unit {0})) [
            | unexpected ec ↦ (unexpected ec, record c { si = r.1; flushes = suc c.flushes })
            | ok _ ↦ (ok tt, record c { si = r.1; flushes = suc c.flushes })
          ])
      go (unexpected ec, si') e = failing c _ ec (guarded si')
      go (ok n, si') e = record { safe = λ u e d. s done; guarded = guarded si' }

  pub flush_pending-Post :
      (c : Client) → c.si.tls.handshake_done ≡ true → IsSafe c → Post c (flush_pending_send a c)
  unfolding flush_pending_send
  flush_pending-Post c done s =
      if-Post (has_pending c.si.send) (λ busy. flush-Post c done s) (λ idle. still c s)

  send_line-Post : (line : Text) (c : Client) → IsSafe c → Post c (send_line a line c)
  unfolding send_line execute_input
  send_line-Post line c s =
      let c' = execute_input line c in
      if-Post (is_empty line) (λ e. still c s)
        (λ filled.
          if-Post (not (has_pending c.si.send) && not (has_pending c'.si.send))
            (λ idle. moved refl refl (still c' s))
            (λ busy.
              if-Post (not c'.si.tls.handshake_done) (λ going. moved refl refl (still c' s))
                (λ done. moved refl refl (flush-Post c' (of_not c'.si.tls.handshake_done done) s))))
    where
      of_not : (b : Bool) → not b ≡ false → b ≡ true
      of_not true e = refl
      of_not false e = absurd (ground arith)

  send_lines-Post : (fuel : ℕ) (c : Client) → IsSafe c → Post c (send_lines a fuel c)
  unfolding send_lines
  send_lines-Post zero c s = still c s
  send_lines-Post (suc fuel) c s =
      go (parse_line c.stdin_buf).0 (parse_line c.stdin_buf).1 (send_lines-Post fuel)
    where
      go :
          (line? : Option Text) (buf : OffsetBuffer)
          → ((c : Client) → IsSafe c → Post c (send_lines a fuel c))
          → Post c (elim line? as (λ _. Result Bool) [
            | none ↦ (ok false, record c { stdin_buf = buf })
            | some line ↦
                (send_line a line >>= λ _. send_lines a fuel) (record c { stdin_buf = buf })
          ])
      go none buf later = moved refl refl (still (record c { stdin_buf = buf }) s)
      go (some line) buf later = moved refl refl (
          >>=-Post (send_line a line) (λ _. send_lines a fuel) (record c { stdin_buf = buf })
            (send_line-Post line (record c { stdin_buf = buf }) s) (λ _ c' s'. later c' s'))

  pub send_stdin-Post : (c : Client) → IsSafe c → Post c (send_stdin a c)
  unfolding send_stdin
  send_stdin-Post c s = go a.stdin
    where
      c' : Text → Client
      c' text = record c { stdin_buf = recv_append c.stdin_buf text }

      go :
          (input : StdinRead)
          → Post c (elim input as (λ _. Result Bool) [
            | end_of_file ↦ (ok true, c)
            | read_error ec ↦ (if eqb ec eintr then ok false else unexpected (from_errno ec), c)
            | read_text text ↦ send_lines a (suc (length (unread (c' text).stdin_buf))) (c' text)
          ])
      go end_of_file = still c s
      go (read_error ec) = still c s
      go (read_text text) =
          moved refl refl (send_lines-Post (suc (length (unread (c' text).stdin_buf))) (c' text) s)
