-- ===== src/Net/TlsError.antt =====
-- include/net/tls_error.hpp: a kind and an OpenSSL reason in one int.
-- `kind << 16 | (reason & 0xFFFF)` is written as a sum, since the two have no bit in common.
use socket_prac.Prelude.{ℕ, ◌+◌, ◌*◌, ◌/◌, ◌%◌, ◌^◌, ◌≤◌, ◌<◌, ◌≡◌, arith, eqb, if◌then◌else◌}

-- `enum class tls_error`, from 1.
pub data TlsError : Type 0 where
  unknown openssl_init_failed min_protocol_set_failed ctx_create_failed : TlsError
  cert_chain_load_failed private_key_load_failed private_key_check_failed : TlsError
  default_verify_paths_failed ca_load_failed set_fd_failed set_sni_failed set_host_failed : TlsError
  handshake_failed ssl_library_error alert_received protocol_error shutdown_failed : TlsError
  verify_no_peer_cert verify_failed verify_hostname_mismatch verify_cert_expired : TlsError
  verify_cert_not_yet_valid : TlsError

unfoldable pub tls_error_code : TlsError → ℕ
tls_error_code unknown = 1
tls_error_code openssl_init_failed = 2
tls_error_code min_protocol_set_failed = 3
tls_error_code ctx_create_failed = 4
tls_error_code cert_chain_load_failed = 5
tls_error_code private_key_load_failed = 6
tls_error_code private_key_check_failed = 7
tls_error_code default_verify_paths_failed = 8
tls_error_code ca_load_failed = 9
tls_error_code set_fd_failed = 10
tls_error_code set_sni_failed = 11
tls_error_code set_host_failed = 12
tls_error_code handshake_failed = 13
tls_error_code ssl_library_error = 14
tls_error_code alert_received = 15
tls_error_code protocol_error = 16
tls_error_code shutdown_failed = 17
tls_error_code verify_no_peer_cert = 18
tls_error_code verify_failed = 19
tls_error_code verify_hostname_mismatch = 20
tls_error_code verify_cert_expired = 21
tls_error_code verify_cert_not_yet_valid = 22

unfoldable pub make_code : TlsError → ℕ → ℕ
make_code kind reason = tls_error_code kind * 65536 + reason % 65536

-- The cast back is the number of the kind; a code that is 0 is `unknown`.
unfoldable pub kind_of : ℕ → ℕ
kind_of code = if eqb code 0 then tls_error_code unknown else (code / 65536) % 65536

unfoldable pub reason_of : ℕ → ℕ
reason_of code = code % 65536

tls_error_code-bounds : (kind : TlsError) → (1 ≤ tls_error_code kind) × (tls_error_code kind ≤ 22)
unfolding tls_error_code
tls_error_code-bounds kind = ground arith

code_kind : (n r : ℕ) → 1 ≤ n → n ≤ 22 → (n * 65536 + r % 65536) / 65536 % 65536 ≡ n
code_kind n r h k = omega arith

-- Both parts of a code are read back (the reason modulo 2 ^ 16), and the code is a positive int.
pub make_code_parts :
    (kind : TlsError) (reason : ℕ)
    → (kind_of (make_code kind reason) ≡ tls_error_code kind)
      × (reason_of (make_code kind reason) ≡ reason % 65536)
      × (0 < make_code kind reason)
      × (make_code kind reason < 2 ^ 31)
make_code_parts kind reason =
    let (low, high) = tls_error_code-bounds kind in
    unfold make_code kind_of reason_of in
    (
      ground (arith, low, code_kind (tls_error_code kind) reason low high),
      omega arith,
      omega arith,
      omega arith,
    )
