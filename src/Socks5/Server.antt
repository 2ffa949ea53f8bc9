-- ===== src/Socks5/Server.antt =====
-- `handle`, `handleConnect` and the opening of `handleUDPAssociate` of internal/socks5/server.go, up
-- to the relaying itself, and `udpRelayAddress`.
pub mod Service
use proxygate.Prelude.{
  ℕ, Bool, true, false, List, [], ◌∷◌, ◌++◌, Option, none, some, Bytes, Result, ok, err, ◌==◌,
  bytes_eq, if◌then◌else◌,
}
use proxygate.Net.{v4_in_v6_prefix, to4, to16}
use proxygate.Socks5.Conn.{
  Exec, Conn, Error, ◌>>=◌, ◌>>◌, pure, fail, stop_if, ignore_error, command_connect,
  command_udp_associate, reply_ok, reply_general, reply_command, reply_address, unsupported_command,
  dial_failed, deadline_failed, no_datagrams, no_tcp_address, listen_failed,
}
use proxygate.Socks5.Negotiate.{negotiate}
use proxygate.Socks5.Request.{Network, Request, read_request}
use proxygate.Socks5.Reply.{Addr, tcp_addr, udp_addr, other_addr, ipv4_zero, or_empty, write_reply}

pub data UdpNetwork : Type 0 where
  udp4 udp6 : UdpNetwork

-- What the handler meets: the local address of a dialled connection, if `DialContext` succeeds;
-- whether the deadline can be cleared; whether the dialer has datagrams; the client connection's
-- local address; the relay socket's address, if it can be opened; and which networks of the VPN
-- have a datagram socket.
pub record Services : Type 0 where
  pub dial : Network → Bytes → Option Addr
  pub clears_deadline : Bool
  pub has_datagrams : Bool
  pub local_address : Addr
  pub listen_udp : UdpNetwork → Bytes → Option Addr
  pub has_socket : UdpNetwork → Bool

-- What is relayed once the handler has replied.
pub data Relaying : Type 0 where
  tcp : Network → Bytes → Relaying
  udp : Bool → Relaying

-- `writeReply` with its error dropped, then the error.
refuse : {A : Type 0} → ℕ → Error → Exec A
refuse status e = do ignore_error (write_reply status other_addr); fail e

connect_to : Option Addr → Bool → Network → Bytes → Exec Relaying
unfolding refuse
connect_to none clears network address = refuse reply_general dial_failed
connect_to (some local) clears network address = do
  write_reply reply_ok local
  stop_if (if clears then false else true) deadline_failed
  pure (tcp network address)

-- `handleConnect`
handle_connect : Services → Request → Exec Relaying
unfolding connect_to
handle_connect s r = connect_to (s.dial r.network r.address) s.clears_deadline r.network r.address

abbrev ipv6_zero : Bytes
ipv6_zero = 0 ∷ 0 ∷ 0 ∷ 0 ∷ 0 ∷ 0 ∷ 0 ∷ 0 ∷ 0 ∷ 0 ∷ 0 ∷ 0 ∷ 0 ∷ 0 ∷ 0 ∷ 0 ∷ []

-- `net.IP.IsUnspecified` holds for the two zero addresses.
abbrev is_unspecified : Bytes → Bool
is_unspecified ip =
    if bytes_eq ip (0 ∷ 0 ∷ 0 ∷ 0 ∷ [])
    then true
    else if bytes_eq ip ipv4_zero
    then true
    else bytes_eq ip ipv6_zero

specified_address : Bytes → Option Bytes → UdpNetwork × Bytes
specified_address ip (some v4) = (udp4, v4)
specified_address ip none = (udp6, or_empty (to16 ip))

loopback_v4 : Bytes
loopback_v4 = v4_in_v6_prefix ++ (127 ∷ 0 ∷ 0 ∷ 1 ∷ [])

loopback_v6 : Bytes
loopback_v6 = 0 ∷ 0 ∷ 0 ∷ 0 ∷ 0 ∷ 0 ∷ 0 ∷ 0 ∷ 0 ∷ 0 ∷ 0 ∷ 0 ∷ 0 ∷ 0 ∷ 0 ∷ 1 ∷ []

unspecified_address : Option Bytes → UdpNetwork × Bytes
unfolding loopback_v4 loopback_v6
unspecified_address (some v4) = (udp4, loopback_v4)
unspecified_address none = (udp6, loopback_v6)

-- `udpRelayAddress`: where the relay listens. `append(net.IP(nil), …)` of no bytes is nil.
udp_relay_address : Addr → Option (UdpNetwork × Bytes)
unfolding specified_address unspecified_address loopback_v4
udp_relay_address (tcp_addr [] port) = some (udp4, loopback_v4)
udp_relay_address (tcp_addr (b ∷ bs) port) =
    if is_unspecified (b ∷ bs)
    then some (unspecified_address (to4 (b ∷ bs)))
    else some (specified_address (b ∷ bs) (to4 (b ∷ bs)))
udp_relay_address (udp_addr ip port) = none
udp_relay_address other_addr = none

-- `handleUDPAssociate` up to its event loop: whether there is a udp6 socket too.
accept_udp : Addr → Services → Exec Relaying
accept_udp relay s = do write_reply reply_ok relay; pure (udp (s.has_socket udp6))

associate_on : Option Addr → Services → Exec Relaying
unfolding refuse accept_udp
associate_on none s = refuse reply_general listen_failed
associate_on (some relay) s =
    if s.has_socket udp4 then accept_udp relay s else refuse reply_general Error.no_datagram_socket

associate_at : Option (UdpNetwork × Bytes) → Services → Exec Relaying
unfolding refuse associate_on
associate_at none s = refuse reply_general no_tcp_address
associate_at (some (network, address)) s = associate_on (s.listen_udp network address) s

handle_udp_associate : Services → Exec Relaying
unfolding refuse associate_at
handle_udp_associate s =
    if s.has_datagrams
    then associate_at (udp_relay_address s.local_address) s
    else refuse reply_general no_datagrams

-- A request that cannot be read is answered.
answer_error : {A : Type 0} → Result Error A × Conn → Result Error A × Conn
answer_error (ok a, c) = (ok a, c)
answer_error (err e, c) = (err e, (write_reply reply_address other_addr c).1)

read_or_refuse : Exec Request
unfolding answer_error
read_or_refuse c = answer_error (read_request c)

serve_command : Services → Request → Exec Relaying
unfolding refuse handle_connect handle_udp_associate
serve_command s r =
    if r.command == command_connect
    then handle_connect s r
    else if r.command == command_udp_associate
    then handle_udp_associate s
    else refuse reply_command unsupported_command

pub handle : Bytes → Bytes → Services → Exec Relaying
unfolding read_or_refuse serve_command
handle username password s = do
  negotiate username password
  request ← read_or_refuse
  serve_command s request
