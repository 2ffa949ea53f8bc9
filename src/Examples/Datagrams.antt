-- ===== src/Examples/Datagrams.antt =====
-- The relays of the SOCKS5 server: datagrams, and the timers of a TCP connection.
use proxygate.Prelude.{
  ℕ, ◌+◌, ◌≤◌, true, false, List, [], ◌∷◌, ◌++◌, Option, none, some, Bytes, codes, ok, All, ◌≡◌,
  ◌≢◌, refl, arith, length, bytes_eq,
}
use proxygate.Net.{ip_string, v4_in_v6_prefix, to4, to16}
use proxygate.Socks5.Request.Codec.{ipv4, domain}
use proxygate.Socks5.Reply.{udp_addr}
use proxygate.Socks5.Udp.{parse_udp_request, marshal_udp_response, marshal_ip, marshal_for}
use proxygate.Socks5.Udp.RoundTrip.{
  encode_udp, parse_udp_request-encode_udp, parse_udp_request-marshal_udp_response,
}
use proxygate.Socks5.Server.{udp4}
use proxygate.Socks5.Forward.{Route, forward_udp_request}
use proxygate.Socks5.Forward.Delivery.{forward_udp_request-literal, forward_udp_request-resolved}
use proxygate.Socks5.Associate.{
  Event, local_packet, upstream_packet, running, associate, begun, queue_capacity,
}
use proxygate.Socks5.Associate.Delivery.{IsReply, association, associate-IsReply}
use proxygate.Socks5.Relay as Relay
use proxygate.Socks5.Relay.Timeouts.{IsOrdered, WritesBy, relay_tcp-idle_timeout}
use proxygate.Socks5.Relay.Quiet.{last_active, IsGivenUp, relay_tcp-gives_up}

abbrev server : Bytes
server = 192 ∷ 0 ∷ 2 ∷ 1 ∷ []

abbrev question : Bytes
question = codes "?"

parse_udp_request-encode_udp_example :
    parse_udp_request (encode_udp (ipv4 server) 53 question) ≡ ok (ip_string server, 53, question)
parse_udp_request-encode_udp_example =
    parse_udp_request-encode_udp (ipv4 server) 53 question refl (omega arith)

abbrev response : Bytes
response = 0 ∷ 0 ∷ 0 ∷ 1 ∷ 192 ∷ 0 ∷ 2 ∷ 1 ∷ 0 ∷ 53 ∷ codes "!"

marshalled : marshal_udp_response (udp_addr server 53) (codes "!") ≡ ok response
unfolding marshal_udp_response marshal_ip marshal_for to4 to16
marshalled = refl

parse_udp_request-marshal_udp_response_example :
    parse_udp_request response ≡ ok (ip_string server, 53, codes "!")
parse_udp_request-marshal_udp_response_example =
    parse_udp_request-marshal_udp_response server (codes "!") response 53 (omega arith) marshalled

-- `net.ParseIP` at the one address and the one name of the examples.
abbrev parse_one : Bytes → Option Bytes
parse_one text = elim (bytes_eq text (ip_string server)) [
  | true ↦ some (v4_in_v6_prefix ++ server)
  | false ↦ none
]

abbrev vpn_route : Route
vpn_route = record {
  parse_ip = parse_one;
  has_resolver = true;
  resolve_ipv4 = λ name. some (server ∷ []);
  has_socket = λ network. true;
  is_done = false;
  writes = true;
}

parsed : parse_one (ip_string server) ≡ some (v4_in_v6_prefix ++ server)
unfolding ip_string to4 bytes_eq
parsed = refl

unparsed : parse_one (codes "dns.example") ≡ none
unfolding ip_string to4 bytes_eq
unparsed = refl

forward_udp_request-literal_example :
    forward_udp_request vpn_route (encode_udp (ipv4 server) 53 question)
    ≡ ok (record { network = udp4; ip = server; port = 53; payload = question })
forward_udp_request-literal_example =
    forward_udp_request-literal vpn_route server 53 question refl (omega arith) parsed refl refl
      refl

named : codes "dns.example" ≢ []
named e = cc

is_ipv4 : to4 server ≡ some server
unfolding to4
is_ipv4 = refl

forward_udp_request-resolved_example :
    forward_udp_request vpn_route (encode_udp (domain (codes "dns.example")) 53 question)
    ≡ ok (record { network = udp4; ip = server; port = 53; payload = question })
forward_udp_request-resolved_example =
    forward_udp_request-resolved vpn_route (codes "dns.example") server server [] 53 question named
      (omega arith) unparsed refl refl is_ipv4 refl refl refl

abbrev packets : List Event
packets =
    local_packet (udp_addr (127 ∷ 0 ∷ 0 ∷ 1 ∷ []) 4000) question
    ∷ upstream_packet (udp_addr server 53) (codes "!")
    ∷ []

associate-IsReply_example :
    let s = association (associate packets (running begun)) in
    (length s.requests ≤ queue_capacity) × All (IsReply packets) s.sent
associate-IsReply_example = associate-IsReply packets

-- Bytes at 10 and at 60, and an idle timeout of 100: the timer is set to 160, and ends the relay.
abbrev limits : Relay.Limits
limits = record { idle = 100; half_close = 50 }

abbrev traffic : List Relay.Event
traffic = Relay.writes 10 ∷ Relay.writes 60 ∷ Relay.idle_fires 100 ∷ []

abbrev quiet : Relay.Relay
quiet = record { last_activity = 60; completed = 0; idle_timer = 160; half_close_timer = none }

traffic-IsOrdered : IsOrdered 0 traffic
traffic-IsOrdered = (omega arith, (omega arith, (omega arith, tt)))

still_running :
    Relay.relay_tcp limits traffic (Relay.running (Relay.start limits)) ≡ Relay.running quiet
unfolding Relay.relay_tcp Relay.start
still_running = refl

relay_tcp-gives_up_example :
    (quiet.idle_timer ≤ last_active 0 traffic + 100)
    × IsGivenUp limits (last_active 0 traffic + 100) (
        Relay.relay_tcp limits
          (traffic ++ Relay.idle_fires 110 ∷ [])
          (Relay.running (Relay.start limits)))
relay_tcp-gives_up_example =
    relay_tcp-gives_up limits traffic quiet 110 traffic-IsOrdered still_running (omega arith)

times_out :
    Relay.relay_tcp limits
      (traffic ++ Relay.idle_fires 160 ∷ [])
      (Relay.running (Relay.start limits))
    ≡ Relay.ended Relay.idle_timeout
unfolding Relay.relay_tcp Relay.start
times_out = refl

relay_tcp-idle_timeout_example : (bound : ℕ) × (100 + bound ≤ 160) × WritesBy bound traffic
relay_tcp-idle_timeout_example =
    relay_tcp-idle_timeout limits traffic 160 quiet traffic-IsOrdered still_running times_out
