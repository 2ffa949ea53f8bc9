-- ===== src/Examples/Sockets.antt =====
-- A client of the SOCKS5 server.
use proxygate.Prelude.{
  ℕ, true, false, [], ◌∷◌, ◌++◌, none, some, Bytes, codes, bytes_eq, contains, ok, ◌≡◌, ◌≢◌, inl,
  refl, arith,
}
use proxygate.Net.{join_host_port, itoa}
use proxygate.Socks5.Conn.{Conn, version, method_password, command_connect, reply_ok}
use proxygate.Socks5.Negotiate.{wanted_method}
use proxygate.Socks5.Negotiate.Auth.{greeting, auth_request}
use proxygate.Socks5.Request.{Request, tcp4, read_request}
use proxygate.Socks5.Request.Codec.{
  Target, domain, IsTarget, encode_target, encode_request, host_text, network_of, request_to,
  read_request-encode_request,
}
use proxygate.Socks5.Reply.{Addr, tcp_addr, addr_ip, reply_bytes, write_reply}
use proxygate.Socks5.Reply.Layout.{decode_reply, replied, canonical, write_reply-decode_reply}
use proxygate.Socks5.Server.{Services, tcp, handle}
use proxygate.Socks5.Server.Service.{handle_connects, handle_sound}

abbrev user : Bytes
user = codes "ann"

abbrev secret : Bytes
secret = codes "pw"

abbrev methods : Bytes
methods = 0 ∷ 2 ∷ []

user_set : user ≢ []
user_set e = cc

offered : contains method_password methods ≡ true
unfolding contains
offered = refl

abbrev site : Target
site = domain (codes "example.com")

site-IsTarget : IsTarget site
site-IsTarget e = cc

abbrev rest : Bytes
rest = codes "hi"

abbrev local : Addr
local = tcp_addr (10 ∷ 0 ∷ 0 ∷ 2 ∷ []) 5000

abbrev services : Services
services = record {
  dial = λ network address. some local;
  clears_deadline = true;
  has_datagrams = true;
  local_address = tcp_addr (127 ∷ 0 ∷ 0 ∷ 1 ∷ []) 1080;
  listen_udp = λ network address. none;
  has_socket = λ network. false;
}

abbrev no_password : Bytes
no_password = 0 ∷ []

not_offered : contains (wanted_method user) (0 ∷ []) ≡ false
unfolding contains bytes_eq
not_offered = refl

some_method : no_password ≢ []
some_method e = cc

abbrev request : Request
request = request_to command_connect (network_of site) (host_text site) 443

read_request-encode_request_example :
    read_request (record {
      input = encode_request command_connect site 443 rest;
      output = [];
      writes_left = 1;
    })
    ≡ (ok request, record { input = rest; output = []; writes_left = 1 })
read_request-encode_request_example =
    read_request-encode_request command_connect 443 site rest [] 1 site-IsTarget (omega arith)

write_reply-decode_reply_example :
    (reply : Bytes) × (write_reply reply_ok local
        (record { input = []; output = []; writes_left = 1 })
      ≡ (ok tt, record { input = []; output = [] ++ reply; writes_left = 0 }))
    × (decode_reply reply ≡ some (replied reply_ok (canonical (addr_ip local)) 5000 []))
write_reply-decode_reply_example =
    write_reply-decode_reply reply_ok local (record { input = []; output = []; writes_left = 1 })
      (inl refl) (omega arith) refl

abbrev client : Conn
client = record {
  input =
      greeting methods (auth_request user secret (encode_request command_connect site 443 rest));
  output = [];
  writes_left = 3;
}

abbrev served : Conn
served = record {
  input = rest;
  output =
      (([] ++ (version ∷ method_password ∷ [])) ++ (1 ∷ 0 ∷ []))
      ++ reply_bytes reply_ok (10 ∷ 0 ∷ 0 ∷ 2 ∷ []) 5000;
  writes_left = 0;
}

handle_connects_example :
    handle user secret services client
    ≡ (ok (tcp tcp4 (join_host_port (codes "example.com") (itoa 443))), served)
handle_connects_example =
    handle_connects user secret methods site 443 services local rest [] 0 user_set offered
      site-IsTarget (omega arith) refl refl

handle_sound_example :
    (ms : Bytes) × (target : Target) × (command hi lo : ℕ) × (behind : Bytes) × (client.input
      ≡ greeting ms (
          auth_request user secret
            (version ∷ command ∷ 0 ∷ encode_target target (hi ∷ lo ∷ behind))))
    × (contains method_password ms ≡ true)
    × IsTarget target
handle_sound_example =
    handle_sound user secret services client served
      (tcp tcp4 (join_host_port (codes "example.com") (itoa 443))) user_set handle_connects_example
