-- ===== src/Socks5/Negotiate.antt =====
-- `negotiate` and `authenticate` of internal/socks5/server.go.
pub mod Auth
use proxygate.Prelude.{
  ℕ, Bool, ◌&&◌, ◌||◌, not, List, [], ◌∷◌, Bytes, bytes_eq, contains, ◌==◌, if◌then◌else◌,
}
use proxygate.Socks5.Conn.{
  Exec, ◌>>=◌, ◌>>◌, pure, stop_if, read_full, write, ignore_error, byte_at, version, method_none,
  method_password, method_rejected, invalid_greeting, no_acceptable_method, invalid_auth_request,
  authentication_failed,
}

abbrev pub is_empty : Bytes → Bool
is_empty s = bytes_eq s []

-- After the user name and the secret were read.
check_secret : Bytes → Bytes → Bytes → Bytes → Exec (Unit {0})
check_secret username password user secret =
    let status : ℕ = if bytes_eq user username && bytes_eq secret password then 0 else 1 in
    do ignore_error (write (1 ∷ status ∷ [])); stop_if (not (status == 0)) authentication_failed

authenticate : Bytes → Bytes → Exec (Unit {0})
authenticate username password = do
  header ← read_full 2
  stop_if (not (byte_at header 0 == 1) || byte_at header 1 == 0) invalid_auth_request
  user ← read_full (byte_at header 1)
  size ← read_full 1
  secret ← read_full (byte_at size 0)
  check_secret username password user secret

abbrev pub wanted_method : Bytes → ℕ
wanted_method username = if not (is_empty username) then method_password else method_none

abbrev select_method : Bytes → Bytes → ℕ
select_method username methods =
    if contains (wanted_method username) methods then wanted_method username else method_rejected

-- After the methods were read.
answer_methods : Bytes → Bytes → Bytes → Exec (Unit {0})
answer_methods username password methods =
    let selected : ℕ = select_method username methods in
    do
      write (version ∷ selected ∷ [])
      stop_if (selected == method_rejected) no_acceptable_method
      if selected == method_password then authenticate username password else pure tt

pub negotiate : Bytes → Bytes → Exec (Unit {0})
unfolding answer_methods authenticate check_secret
negotiate username password = do
  header ← read_full 2
  stop_if (not (byte_at header 0 == version) || byte_at header 1 == 0) invalid_greeting
  methods ← read_full (byte_at header 1)
  answer_methods username password methods
