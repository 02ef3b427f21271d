-- ===== src/Core/ErrorCode.antt =====
-- include/core/error_code.hpp, src/core/error_code.cpp and std::expected.
use socket_prac.Prelude.{ℕ, ℤ, pos}

pub data ErrorDomain : Type 0 where
  errno_domain gai_domain decode_domain db_domain config_domain tls_domain : ErrorDomain

pub record ErrorCode : Type 0 where
  pub domain : ErrorDomain
  pub code : ℤ

abbrev pub from_errno : ℕ → ErrorCode
from_errno ec = record { domain = errno_domain; code = pos ec }

abbrev pub from_gai : ℤ → ErrorCode
from_gai ec = record { domain = gai_domain; code = ec }

abbrev pub from_db : ℕ → ErrorCode
from_db ec = record { domain = db_domain; code = pos ec }

abbrev pub from_tls : ℕ → ErrorCode
from_tls ec = record { domain = tls_domain; code = pos ec }

-- `enum class decode_error`, from 1.
pub data DecodeError : Type 0 where
  empty_line invalid_command unexpected_argument : DecodeError

abbrev pub decode_error_code : DecodeError → ℕ
decode_error_code empty_line = 1
decode_error_code invalid_command = 2
decode_error_code unexpected_argument = 3

abbrev pub from_decode : DecodeError → ErrorCode
from_decode ec = record { domain = decode_domain; code = pos (decode_error_code ec) }

-- `enum class config_error`, from 1.
pub data ConfigError : Type 0 where
  file_not_found malformed_line empty_key duplicate_key read_failed missing_required_key :
      ConfigError

abbrev pub config_error_code : ConfigError → ℕ
config_error_code file_not_found = 1
config_error_code malformed_line = 2
config_error_code empty_key = 3
config_error_code duplicate_key = 4
config_error_code read_failed = 5
config_error_code missing_required_key = 6

abbrev pub from_config : ConfigError → ErrorCode
from_config ec = record { domain = config_domain; code = pos (config_error_code ec) }

-- std::expected<A, error_code>
pub data Expected {ℓ} (A : Type ℓ) : Type ℓ where
  ok : A → Expected A
  unexpected : ErrorCode → Expected A

infixl 5 ◌>>=◌
abbrev pub ◌>>=◌ {ℓ κ} : {A : Type ℓ} {B : Type κ} → Expected A → (A → Expected B) → Expected B
ok a >>= f = f a
unexpected e >>= f = unexpected e

-- errno values of Linux that the program names.
abbrev pub enoent : ℕ
enoent = 2

abbrev pub eintr : ℕ
eintr = 4

abbrev pub eio : ℕ
eio = 5

abbrev pub ebadf : ℕ
ebadf = 9

abbrev pub eagain : ℕ
eagain = 11

abbrev pub eexist : ℕ
eexist = 17

abbrev pub einval : ℕ
einval = 22

abbrev pub epipe : ℕ
epipe = 32

abbrev pub econnreset : ℕ
econnreset = 104

abbrev pub enotconn : ℕ
enotconn = 107
