-- ===== src/Socks5/Forward/Delivery.antt =====
-- Where a request of a UDP association goes.
use proxygate.Prelude.{
  ℕ, ◌<◌, true, false, List, [], ◌∷◌, ◌++◌, none, some, Bytes, length, ok, ◌≡◌, ◌≢◌, refl, ap,
  bytes_eq, ◌∙◌, arith,
}
use proxygate.Net.{to4, ip_string, v4_in_v6_prefix}
use proxygate.Net.Laws.{to4_of_4, length-to4}
use proxygate.Socks5.Request.Codec.{ipv4, domain}
use proxygate.Socks5.Server.{udp4}
use proxygate.Socks5.Udp.RoundTrip.{encode_udp, parse_udp_request-encode_udp}
use proxygate.Socks5.Forward.{
  Route, forward_udp_request, forward_parsed, find_destination, first_resolved, send_resolved,
  send_to, send,
}

send_to-v4 :
    (s : Route) (ip v4 : Bytes) (port : ℕ) (payload : Bytes)
    → to4 ip ≡ some v4
    → s.has_socket udp4 ≡ true
    → s.is_done ≡ false
    → s.writes ≡ true
    → send_to (to4 ip) s ip port payload
      ≡ ok (record { network = udp4; ip = v4; port = port; payload = payload })
unfolding send_to send
send_to-v4 s ip v4 port payload e k d w = rw (e, k, d, w) refl

to4-mapped : (v4 : Bytes) → length v4 ≡ 4 → to4 (v4_in_v6_prefix ++ v4) ≡ some v4
unfolding to4 bytes_eq
to4-mapped (a ∷ b ∷ c ∷ d ∷ []) h = refl
to4-mapped [] h = absurd (omega arith)
to4-mapped (a ∷ []) h = absurd (omega arith)
to4-mapped (a ∷ b ∷ []) h = absurd (omega arith)
to4-mapped (a ∷ b ∷ c ∷ []) h = absurd (omega arith)
to4-mapped (a ∷ b ∷ c ∷ d ∷ e ∷ ip) h = absurd (omega arith)

-- A request for an IPv4 address is written to the VPN's udp4 socket, to exactly that address and
-- port, with exactly the payload, if there is such a socket and the write succeeds in time.
-- `net.ParseIP` must read back the text of an address, in its 16-byte form.
pub forward_udp_request-literal :
    (s : Route) (ip : Bytes) (port : ℕ) (payload : Bytes)
    → length ip ≡ 4
    → port < 65536
    → s.parse_ip (ip_string ip) ≡ some (v4_in_v6_prefix ++ ip)
    → s.has_socket udp4 ≡ true
    → s.is_done ≡ false
    → s.writes ≡ true
    → forward_udp_request s (encode_udp (ipv4 ip) port payload)
      ≡ ok (record { network = udp4; ip = ip; port = port; payload = payload })
unfolding forward_udp_request forward_parsed find_destination
forward_udp_request-literal s ip port payload four small parsed k d w =
    ap (forward_parsed s) (parse_udp_request-encode_udp (ipv4 ip) port payload four small)
    ∙ rw parsed (send_to-v4 s (v4_in_v6_prefix ++ ip) ip port payload (to4-mapped ip four) k d w)

-- A request for a domain name, which is not empty and not the text of an address, goes to the first
-- address that the dialer's resolver answers with, to the port of the request and with exactly its
-- payload, over the udp4 socket. The dialer must have a resolver, the resolver must answer, the first
-- address of the answer must have an IPv4 form, the udp4 socket must be open, the context must not be
-- done, and the write must succeed.
pub forward_udp_request-resolved :
    (s : Route) (name ip v4 : Bytes) (ips : List Bytes) (port : ℕ) (payload : Bytes)
    → name ≢ []
    → port < 65536
    → s.parse_ip name ≡ none
    → s.has_resolver ≡ true
    → s.resolve_ipv4 name ≡ some (ip ∷ ips)
    → to4 ip ≡ some v4
    → s.has_socket udp4 ≡ true
    → s.is_done ≡ false
    → s.writes ≡ true
    → forward_udp_request s (encode_udp (domain name) port payload)
      ≡ ok (record { network = udp4; ip = v4; port = port; payload = payload })
unfolding forward_udp_request forward_parsed find_destination first_resolved send_resolved
forward_udp_request-resolved s name ip v4 ips port payload named small unparsed r found four k d w =
    ap (forward_parsed s) (parse_udp_request-encode_udp (domain name) port payload named small)
    ∙ ground (
      arith,
      unparsed,
      r,
      found,
      four,
      send_to-v4 s v4 v4 port payload (to4_of_4 v4 (length-to4 ip four)) k d w,
    )
