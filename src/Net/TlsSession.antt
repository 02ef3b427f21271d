-- ===== src/Net/TlsSession.antt =====
-- include/net/tls_session.hpp and src/net/tls_session.cpp. What an OpenSSL call answers is an argument of
-- each operation, with SSL_get_error and errno read into `SslError`.
use socket_prac.Prelude.{
  ℕ, ◌+◌, Bool, true, false, not, ◌&&◌, ◌||◌, Option, none, some, [], ◌∷◌, Text, codes, length,
  is_empty, eqb, leb, if◌then◌else◌,
}
use socket_prac.Core.ErrorCode.{
  Expected, ok, unexpected, from_errno, from_tls, einval, econnreset, epipe, enotconn,
}
use socket_prac.Net.TlsError.{
  TlsError, verify_failed, verify_hostname_mismatch, handshake_failed, alert_received,
  protocol_error, ssl_library_error, shutdown_failed, verify_no_peer_cert, verify_cert_expired,
  verify_cert_not_yet_valid, make_code,
}

pub record TlsIoResult : Type 0 where
  pub byte : ℕ
  pub closed : Bool
  pub want_read : Bool
  pub want_write : Bool

-- `has_ssl` is `ssl != nullptr`.
pub record TlsSession : Type 0 where
  pub has_ssl : Bool
  pub handshake_done : Bool
  pub want_read : Bool
  pub want_write : Bool
  pub peer_closed : Bool

-- SSL_get_error after a call that failed; `syscall` has errno, `ssl` and `other` the last reason.
pub data SslError : Type 0 where
  want_read_error want_write_error zero_return : SslError
  syscall ssl other : ℕ → SslError

-- An OpenSSL call that returned 1, with what it transferred, or that failed.
pub data SslReply (A : Type 0) : Type 0 where
  done : A → SslReply A
  failed : SslError → SslReply A

-- ERR_reason_error_string, lowered by `tls_session_to_lower`: an answer of OpenSSL's.
abbrev pub to_lower : ℕ → ℕ
to_lower c = if leb 65 c && leb c 90 then c + 32 else c

abbrev starts_with : Text → Text → Bool
starts_with [] s = true
starts_with (p ∷ ps) [] = false
starts_with (p ∷ ps) (x ∷ xs) = eqb p x && starts_with ps xs

abbrev pub has_text : Text → Text → Bool
has_text p [] = is_empty p
has_text p (x ∷ xs) = starts_with p (x ∷ xs) || has_text p xs

abbrev pub tls_session_to_lower : Text → Text
tls_session_to_lower [] = []
tls_session_to_lower (c ∷ cs) = to_lower c ∷ tls_session_to_lower cs

-- SSL_R_CERTIFICATE_VERIFY_FAILED
abbrev certificate_verify_failed : ℕ
certificate_verify_failed = 134

abbrev classify_text : Text → TlsError
classify_text lowered =
    if has_text (codes "hostname") lowered
    then verify_hostname_mismatch
    else if has_text (codes "certificate") lowered || has_text (codes "cert") lowered
    then verify_failed
    else if has_text (codes "verify") lowered
    then verify_failed
    else if has_text (codes "handshake") lowered
    then handshake_failed
    else if has_text (codes "alert") lowered
    then alert_received
    else if has_text (codes "protocol") lowered || has_text (codes "version") lowered
    then protocol_error
    else ssl_library_error

unfoldable pub classify_ssl_reason : (ℕ → Option Text) → ℕ → TlsError
classify_ssl_reason reason_text reason =
    if eqb reason 0
    then ssl_library_error
    else if eqb reason certificate_verify_failed
    then verify_failed
    else elim (reason_text reason) [
      | none ↦ ssl_library_error
      | some text ↦ classify_text (tls_session_to_lower text)
    ]

abbrev pub wants : ℕ → Bool → Bool → Bool → TlsIoResult
wants byte closed want_read want_write = record {
  byte = byte;
  closed = closed;
  want_read = want_read;
  want_write = want_write;
}

module _ (reason_text : ℕ → Option Text) where
  unfoldable pub from_ssl_error : SslError → ℕ → Expected TlsIoResult
  unfolding classify_ssl_reason
  from_ssl_error want_read_error byte = ok (wants byte false true false)
  from_ssl_error want_write_error byte = ok (wants byte false false true)
  from_ssl_error zero_return byte = ok (wants byte true false false)
  from_ssl_error (syscall ec) byte =
      if eqb ec 0 || eqb ec econnreset || eqb ec epipe || eqb ec enotconn
      then ok (wants byte true false false)
      else unexpected (from_errno ec)
  from_ssl_error (ssl reason) byte =
      unexpected (from_tls (make_code (classify_ssl_reason reason_text reason) reason))
  from_ssl_error (other reason) byte = unexpected (from_tls (make_code protocol_error reason))

unfoldable pub apply_state : TlsIoResult → TlsSession → TlsSession
apply_state io s = record s {
  want_read = io.want_read;
  want_write = io.want_write;
  peer_closed = if io.closed then true else s.peer_closed;
}

-- `if(io_exp) apply_state(*io_exp); return io_exp;`
unfoldable pub apply_expected :
    Expected TlsIoResult → TlsSession → Expected TlsIoResult × TlsSession
unfolding apply_state
apply_expected (ok io) s = (ok io, apply_state io s)
apply_expected (unexpected ec) s = (unexpected ec, s)

module _ (reason_text : ℕ → Option Text) where
  unfoldable pub handshake : SslReply (Unit {0}) → TlsSession → Expected TlsIoResult × TlsSession
  unfolding apply_expected from_ssl_error
  handshake reply s =
      if not s.has_ssl
      then (unexpected (from_errno einval), s)
      else if s.handshake_done
      then apply_expected (ok (wants 0 false false false)) s
      else elim reply [
        | done _ ↦
            apply_expected (ok (wants 0 false false false)) (record s { handshake_done = true })
        | failed e ↦ apply_expected (from_ssl_error reason_text e 0) s
      ]

  -- The bytes read stand beside the result. SSL_read_ex leaves `byte` at 0 when it fails.
  unfoldable pub read : ℕ → SslReply Text → TlsSession → Expected TlsIoResult × Text × TlsSession
  unfolding apply_expected from_ssl_error
  read cap reply s =
      if not s.has_ssl
      then (unexpected (from_errno einval), [], s)
      else if eqb cap 0
      then (let (r, s') = apply_expected (ok (wants 0 false false false)) s in (r, [], s'))
      else elim reply [
        | done text ↦
            (let (r, s') = apply_expected (ok (wants (length text) false false false)) s in
              (r, text, s'))
        | failed e ↦
            (let (r, s') = apply_expected (from_ssl_error reason_text e 0) s in (r, [], s'))
      ]

  -- The number of bytes that SSL_write_ex took.
  unfoldable pub write : ℕ → SslReply ℕ → TlsSession → Expected TlsIoResult × TlsSession
  unfolding apply_expected from_ssl_error
  write len reply s =
      if not s.has_ssl
      then (unexpected (from_errno einval), s)
      else if eqb len 0
      then apply_expected (ok (wants 0 false false false)) s
      else elim reply [
        | done byte ↦ apply_expected (ok (wants byte false false false)) s
        | failed e ↦ apply_expected (from_ssl_error reason_text e 0) s
      ]

-- SSL_shutdown that returned 0 or 1 is `done`.
unfoldable pub shutdown : SslReply (Unit {0}) → TlsSession → Expected (Unit {0})
shutdown reply s = if not s.has_ssl then ok tt else elim reply [
  | done _ ↦ ok tt
  | failed e ↦ elim e [
    | want_read_error ↦ ok tt
    | want_write_error ↦ ok tt
    | zero_return ↦ ok tt
    | syscall ec ↦ if eqb ec 0 then ok tt else unexpected (from_errno ec)
    | ssl reason ↦ unexpected (from_tls (make_code shutdown_failed reason))
    | other reason ↦ unexpected (from_tls (make_code shutdown_failed reason))
  ]
]

-- SSL_get1_peer_certificate (whether there is one) and SSL_get_verify_result.
-- X509_V_OK is 0, CERT_NOT_YET_VALID 9, CERT_HAS_EXPIRED 10, HOSTNAME_MISMATCH 62.
unfoldable pub verify_peer : Bool → ℕ → TlsSession → Expected (Unit {0})
verify_peer has_cert verify_rc s =
    if not s.has_ssl
    then unexpected (from_errno einval)
    else if not has_cert
    then unexpected (from_tls (make_code verify_no_peer_cert 0))
    else if eqb verify_rc 0
    then ok tt
    else if eqb verify_rc 62
    then unexpected (from_tls (make_code verify_hostname_mismatch verify_rc))
    else if eqb verify_rc 10
    then unexpected (from_tls (make_code verify_cert_expired verify_rc))
    else if eqb verify_rc 9
    then unexpected (from_tls (make_code verify_cert_not_yet_valid verify_rc))
    else unexpected (from_tls (make_code verify_failed verify_rc))
