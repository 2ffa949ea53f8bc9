-- ===== src/Socks5/Conn.antt =====
-- The client connection of internal/socks5/server.go and the protocol's constants. A handler is a
-- chain of reads and writes on the connection that may stop with an error.
pub mod Laws
use proxygate.Prelude.{
  ℕ, zero, suc, Bool, true, false, List, [], ◌∷◌, ◌++◌, Bytes, length, take, drop, leb, Result, ok,
  err, if◌then◌else◌,
}

abbrev pub version : ℕ
version = 5

abbrev pub method_none : ℕ
method_none = 0

abbrev pub method_password : ℕ
method_password = 2

abbrev pub method_rejected : ℕ
method_rejected = 255

abbrev pub command_connect : ℕ
command_connect = 1

abbrev pub command_udp_associate : ℕ
command_udp_associate = 3

abbrev pub reply_ok : ℕ
reply_ok = 0

abbrev pub reply_general : ℕ
reply_general = 1

abbrev pub reply_command : ℕ
reply_command = 7

abbrev pub reply_address : ℕ
reply_address = 8

abbrev pub address_ipv4 : ℕ
address_ipv4 = 1

abbrev pub address_domain : ℕ
address_domain = 3

abbrev pub address_ipv6 : ℕ
address_ipv6 = 4

pub data Error : Type 0 where
  eof unexpected_eof broken_pipe : Error
  invalid_greeting no_acceptable_method invalid_auth_request authentication_failed : Error
  invalid_request empty_domain unsupported_address : Error
  unsupported_command dial_failed deadline_failed : Error
  no_datagrams no_tcp_address listen_failed no_datagram_socket : Error

-- What the client will still send before it closes its side, what it has been sent, and how many
-- more writes reach it.
pub record Conn : Type 0 where
  pub input : Bytes
  pub output : Bytes
  pub writes_left : ℕ

abbrev pub Exec : Type 0 → Type 0
Exec A = Conn → Result Error A × Conn

infixl 5 ◌>>=◌ ◌>>◌
unfoldable pub ◌>>=◌ : {A B : Type 0} → Exec A → (A → Exec B) → Exec B
◌>>=◌ m f c = let (r, c') = m c in elim r [ ok a ↦ f a c' | err e ↦ (err e, c') ]

abbrev pub ◌>>◌ : {A B : Type 0} → Exec A → Exec B → Exec B
◌>>◌ m k = m >>= λ _. k

abbrev pub pure : {A : Type 0} → A → Exec A
pure a c = (ok a, c)

abbrev pub fail : {A : Type 0} → Error → Exec A
fail e c = (err e, c)

abbrev eof_error : Bytes → Error
eof_error [] = eof
eof_error (b ∷ bs) = unexpected_eof

-- `if b { return error }`
unfoldable pub stop_if : Bool → Error → Exec (Unit {0})
stop_if true e c = (err e, c)
stop_if false e c = (ok tt, c)

-- `io.ReadFull` into a buffer of `n` bytes.
unfoldable pub read_full : ℕ → Exec Bytes
read_full n c =
    if leb n (length c.input)
    then (ok (take n c.input), record c { input = drop n c.input })
    else (err (eof_error c.input), record c { input = [] })

write_left : ℕ → Bytes → Exec (Unit {0})
write_left zero bs c = (err broken_pipe, c)
write_left (suc n) bs c = (ok tt, record c { output = c.output ++ bs; writes_left = n })

-- `connection.Write`
unfoldable pub write : Bytes → Exec (Unit {0})
unfolding write_left
write bs c = write_left c.writes_left bs c

-- A write whose error is dropped, `_ = writeReply(…)`.
abbrev pub ignore_error : Exec (Unit {0}) → Exec (Unit {0})
ignore_error m c = (ok tt, (m c).1)

-- `b[i]`
abbrev pub byte_at : Bytes → ℕ → ℕ
byte_at [] i = 0
byte_at (b ∷ bs) zero = b
byte_at (b ∷ bs) (suc i) = byte_at bs i
