-- ===== src/Socks5/Reply.antt =====
-- `writeReply` of internal/socks5/server.go.
pub mod Layout
use proxygate.Prelude.{ℕ, List, [], ◌∷◌, ◌++◌, Option, none, some, Bytes}
use proxygate.Net.{v4_in_v6_prefix, to4, to16, put_uint16}
use proxygate.Socks5.Conn.{Exec, write, version, address_ipv4, address_ipv6}

-- A `net.Addr`: one of the two socket addresses of the switch, or any other, nil included.
pub data Addr : Type 0 where
  tcp_addr udp_addr : Bytes → ℕ → Addr
  other_addr : Addr

-- `net.IPv4zero`
abbrev pub ipv4_zero : Bytes
ipv4_zero = v4_in_v6_prefix ++ (0 ∷ 0 ∷ 0 ∷ 0 ∷ [])

abbrev pub addr_ip : Addr → Bytes
addr_ip (tcp_addr ip port) = ip
addr_ip (udp_addr ip port) = ip
addr_ip other_addr = ipv4_zero

abbrev pub addr_port : Addr → ℕ
addr_port (tcp_addr ip port) = port
addr_port (udp_addr ip port) = port
addr_port other_addr = 0

-- A nil slice has no bytes.
abbrev pub or_empty : Option Bytes → Bytes
or_empty none = []
or_empty (some bs) = bs

-- The two forms of a reply, by what `To4` gives.
reply_for : Option Bytes → ℕ → Bytes → ℕ → Bytes
reply_for (some v4) status ip port = version ∷ status ∷ 0 ∷ address_ipv4 ∷ (v4 ++ put_uint16 port)
reply_for none status ip port =
    version ∷ status ∷ 0 ∷ address_ipv6 ∷ (or_empty (to16 ip) ++ put_uint16 port)

pub reply_bytes : ℕ → Bytes → ℕ → Bytes
unfolding reply_for
reply_bytes status ip port = reply_for (to4 ip) status ip port

unfoldable pub write_reply : ℕ → Addr → Exec (Unit {0})
unfolding reply_bytes
write_reply status address = write (reply_bytes status (addr_ip address) (addr_port address))
