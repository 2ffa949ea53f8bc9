-- ===== src/Socks5/Forward.antt =====
-- `forwardUDPRequest` of internal/socks5/server.go, which a worker runs for each queued request.
pub mod Delivery
use proxygate.Prelude.{
  ℕ, Bool, true, false, List, [], ◌∷◌, Option, none, some, Bytes, Result, ok, err, if◌then◌else◌,
}
use proxygate.Net.{to4, to16}
use proxygate.Socks5.Reply.{or_empty}
use proxygate.Socks5.Server.{UdpNetwork, udp4, udp6}
use proxygate.Socks5.Udp.{UdpError, parse_udp_request}

pub data ForwardError : Type 0 where
  bad_request : UdpError → ForwardError
  no_resolver resolution_failed no_ipv4 context_done write_failed : ForwardError
  no_datagrams_on : UdpNetwork → ForwardError

-- `net.ParseIP`; the addresses that the dialer's `ResolveIPv4` gives, if the dialer has it and it
-- succeeds; the sockets; whether the context is done when the socket's lock is held (or its
-- deadline cannot be set), and whether the write succeeds.
pub record Route : Type 0 where
  pub parse_ip : Bytes → Option Bytes
  pub has_resolver : Bool
  pub resolve_ipv4 : Bytes → Option (List Bytes)
  pub has_socket : UdpNetwork → Bool
  pub is_done : Bool
  pub writes : Bool

-- A datagram that was written: its network, address, port and payload.
pub record Datagram : Type 0 where
  pub network : UdpNetwork
  pub ip : Bytes
  pub port : ℕ
  pub payload : Bytes

send : Route → Datagram → Result ForwardError Datagram
send s d =
    if s.has_socket d.network
    then if s.is_done then err context_done else if s.writes then ok d else err write_failed
    else err (no_datagrams_on d.network)

-- The network of the destination, by what `To4` gives.
send_to : Option Bytes → Route → Bytes → ℕ → Bytes → Result ForwardError Datagram
unfolding send
send_to (some v4) s ip port payload =
    send s (record { network = udp4; ip = v4; port = port; payload = payload })
send_to none s ip port payload =
    send s (record { network = udp6; ip = or_empty (to16 ip); port = port; payload = payload })

send_resolved : Option Bytes → Route → ℕ → Bytes → Result ForwardError Datagram
unfolding send_to
send_resolved none s port payload = err no_ipv4
send_resolved (some v4) s port payload = send_to (to4 v4) s v4 port payload

first_resolved : Option (List Bytes) → Route → ℕ → Bytes → Result ForwardError Datagram
unfolding send_resolved
first_resolved none s port payload = err resolution_failed
first_resolved (some []) s port payload = err no_ipv4
first_resolved (some (ip ∷ ips)) s port payload = send_resolved (to4 ip) s port payload

find_destination : Option Bytes → Route → Bytes → ℕ → Bytes → Result ForwardError Datagram
unfolding first_resolved send_to
find_destination (some ip) s host port payload = send_to (to4 ip) s ip port payload
find_destination none s host port payload =
    if s.has_resolver then first_resolved (s.resolve_ipv4 host) s port payload else err no_resolver

forward_parsed : Route → Result UdpError (Bytes × ℕ × Bytes) → Result ForwardError Datagram
unfolding find_destination
forward_parsed s (err e) = err (bad_request e)
forward_parsed s (ok (host, port, payload)) = find_destination (s.parse_ip host) s host port payload

pub forward_udp_request : Route → Bytes → Result ForwardError Datagram
unfolding forward_parsed
forward_udp_request s request = forward_parsed s (parse_udp_request request)
