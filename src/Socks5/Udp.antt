-- ===== src/Socks5/Udp.antt =====
-- `parseUDPRequest` and `marshalUDPResponse` of internal/socks5/server.go.
pub mod RoundTrip
use proxygate.Prelude.{
  ℕ, ◌+◌, Bool, ◌||◌, not, List, [], ◌∷◌, ◌++◌, Option, none, some, Bytes, length, drop, slice, ltb,
  ◌==◌, Result, ok, err, if◌then◌else◌,
}
use proxygate.Net.{to4, to16, ip_string, put_uint16, get_uint16}
use proxygate.Socks5.Conn.{byte_at, address_ipv4, address_domain, address_ipv6}
use proxygate.Socks5.Reply.{Addr, tcp_addr, udp_addr, other_addr}

pub data UdpError : Type 0 where
  invalid_udp_request fragmented truncated_ipv4 truncated_ipv6 truncated_domain_length : UdpError
  invalid_domain unsupported_address_type truncated_port : UdpError
  no_address invalid_address : UdpError

infixl 5 ◌>>=◌
abbrev ◌>>=◌ : {A B : Type 0} → Result UdpError A → (A → Result UdpError B) → Result UdpError B
ok a >>= f = f a
err e >>= f = err e

-- The cases of the switch on the address type: the host and the offset behind it.
udp_ipv4 : Bytes → Result UdpError (Bytes × ℕ)
udp_ipv4 bs =
    if ltb (length bs) (4 + 4)
    then err truncated_ipv4
    else ok (ip_string (slice bs 4 (4 + 4)), 4 + 4)

udp_ipv6 : Bytes → Result UdpError (Bytes × ℕ)
udp_ipv6 bs =
    if ltb (length bs) (4 + 16)
    then err truncated_ipv6
    else ok (ip_string (slice bs 4 (4 + 16)), 4 + 16)

udp_domain : Bytes → Result UdpError (Bytes × ℕ)
udp_domain bs =
    let size : ℕ = byte_at bs 4 in
    if ltb (length bs) (4 + 1)
    then err truncated_domain_length
    else if size == 0 || ltb (length bs) (5 + size)
    then err invalid_domain
    else ok (slice bs 5 (5 + size), 5 + size)

udp_host : Bytes → Result UdpError (Bytes × ℕ)
udp_host bs =
    if byte_at bs 3 == address_ipv4
    then udp_ipv4 bs
    else if byte_at bs 3 == address_ipv6
    then udp_ipv6 bs
    else if byte_at bs 3 == address_domain
    then udp_domain bs
    else err unsupported_address_type

-- The port and the payload behind the host.
udp_tail : Bytes → Bytes × ℕ → Result UdpError (Bytes × ℕ × Bytes)
udp_tail bs (host, offset) =
    if ltb (length bs) (offset + 2)
    then err truncated_port
    else ok (host, get_uint16 (slice bs offset (offset + 2)), drop (offset + 2) bs)

pub parse_udp_request : Bytes → Result UdpError (Bytes × ℕ × Bytes)
parse_udp_request bs =
    if ltb (length bs) 4 || not (byte_at bs 0 == 0) || not (byte_at bs 1 == 0)
    then err invalid_udp_request
    else if not (byte_at bs 2 == 0)
    then err fragmented
    else udp_host bs >>= udp_tail bs

-- A response from an address with an IP, by what `To4` and `To16` give.
unfoldable pub marshal_for : Option Bytes → Option Bytes → ℕ → Bytes → Result UdpError Bytes
marshal_for (some v4) v6 port payload =
    ok (0 ∷ 0 ∷ 0 ∷ address_ipv4 ∷ (v4 ++ (put_uint16 port ++ payload)))
marshal_for none (some v6) port payload =
    ok (0 ∷ 0 ∷ 0 ∷ address_ipv6 ∷ (v6 ++ (put_uint16 port ++ payload)))
marshal_for none none port payload = err invalid_address

unfoldable pub marshal_ip : Bytes → ℕ → Bytes → Result UdpError Bytes
marshal_ip ip port payload = marshal_for (to4 ip) (to16 ip) port payload

unfoldable pub marshal_udp_response : Addr → Bytes → Result UdpError Bytes
marshal_udp_response (udp_addr [] port) payload = err no_address
marshal_udp_response (udp_addr (b ∷ bs) port) payload = marshal_ip (b ∷ bs) port payload
marshal_udp_response (tcp_addr ip port) payload = err no_address
marshal_udp_response other_addr payload = err no_address
