-- ===== src/Socks5/Server/Service.antt =====
-- What a client of `handle` gets, and what it takes to get it.
use proxygate.Prelude.{
  ℕ, suc, ◌<◌, true, [], ◌∷◌, ◌++◌, some, Bytes, Result, ok, err, ◌≡◌, ◌≢◌, refl, ◌∙◌, arith,
  contains, ap,
}
use proxygate.Net.{join_host_port, itoa}
use proxygate.Socks5.Conn.{
  Conn, Error, ◌>>=◌, stop_if, version, method_password, command_connect, reply_ok, write,
}
use proxygate.Socks5.Conn.Laws.{>>=-ok, >>=-elim}
use proxygate.Socks5.Negotiate.{negotiate}
use proxygate.Socks5.Negotiate.Auth.{greeting, auth_request, negotiate_accepts, negotiate_sound}
use proxygate.Socks5.Request.{Request, read_request}
use proxygate.Socks5.Request.Codec.{
  Target, IsTarget, encode_target, encode_request, host_text, network_of, request_to,
  read_request-encode_request, read_request_sound,
}
use proxygate.Socks5.Reply.{Addr, reply_bytes, addr_ip, addr_port, write_reply}
use proxygate.Socks5.Server.{
  Services, Relaying, tcp, handle, handle_connect, connect_to, read_or_refuse, answer_error,
  serve_command,
}

answer_error-ok :
    (x : Result Error Request × Conn) (r : Request) (c' : Conn)
    → answer_error x ≡ (ok r, c')
    → x ≡ (ok r, c')
unfolding answer_error
answer_error-ok (ok a, d) r c' k = k
answer_error-ok (err e, d) r c' k = absurd (ground arith)

read_or_refuse-ok :
    (c c' : Conn) (r : Request) → read_or_refuse c ≡ (ok r, c') → read_request c ≡ (ok r, c')
unfolding read_or_refuse
read_or_refuse-ok c c' r h = answer_error-ok (read_request c) r c' h

-- With a user name set, the handler relays for nobody but a client that sent the configured user
-- name and password in the form of RFC 1929 and then a well-formed request for a command.
pub handle_sound :
    (user secret : Bytes) (s : Services) (c c' : Conn) (relaying : Relaying)
    → user ≢ []
    → handle user secret s c ≡ (ok relaying, c')
    → (methods : Bytes) × (target : Target) × (command hi lo : ℕ) × (rest : Bytes) × (c.input
        ≡ greeting methods (
            auth_request user secret
              (version ∷ command ∷ 0 ∷ encode_target target (hi ∷ lo ∷ rest))))
      × (contains method_password methods ≡ true)
      × IsTarget target
unfolding handle
handle_sound user secret s c c' relaying h e = >>=-elim _ _ c e λ t c1 e1 h1.
    >>=-elim _ _ c1 h1 λ r c2 e2 h2.
      let (methods, sent, offered) = negotiate_sound user secret c c1 h e1 in
      let (target, hi, lo, valid, request, made) =
        read_request_sound c1 c2 r (read_or_refuse-ok c1 c2 r e2) in
      (
        methods,
        target,
        r.command,
        hi,
        lo,
        c2.input,
        sent ∙ ap (λ i. greeting methods (auth_request user secret i)) request,
        offered,
        valid,
      )

handle_connect_dials :
    (s : Services) (r : Request) (local : Addr) (input out : Bytes) (w : ℕ)
    → s.dial r.network r.address ≡ some local
    → s.clears_deadline ≡ true
    → handle_connect s r (record { input = input; output = out; writes_left = suc w }) ≡ (
      ok (tcp r.network r.address),
      record {
        input = input;
        output = out ++ reply_bytes reply_ok (addr_ip local) (addr_port local);
        writes_left = w;
      },
    )
unfolding handle_connect connect_to write_reply write stop_if ◌>>=◌
handle_connect_dials s r local input out w d k = rw (d, k) refl

read_or_refuse-reads :
    (c c' : Conn) (r : Request) → read_request c ≡ (ok r, c') → read_or_refuse c ≡ (ok r, c')
unfolding read_or_refuse answer_error
read_or_refuse-reads c c' r h = rw h refl

-- A client that authenticates and asks to connect to a well-formed target, which the dialer reaches,
-- is sent 5 2, 1 0 and the reply with the local address of the new connection. From there on its
-- bytes are relayed to exactly that target, and none that follow the request were consumed.
pub handle_connects :
    (user secret methods : Bytes) (target : Target) (port : ℕ) (s : Services) (local : Addr)
    (rest out : Bytes) (w : ℕ)
    → user ≢ []
    → contains method_password methods ≡ true
    → IsTarget target
    → port < 65536
    → s.dial (network_of target) (join_host_port (host_text target) (itoa port)) ≡ some local
    → s.clears_deadline ≡ true
    → handle user secret s (record {
      input =
          greeting methods
            (auth_request user secret (encode_request command_connect target port rest));
      output = out;
      writes_left = suc (suc (suc w));
    })
      ≡ (
        ok (tcp (network_of target) (join_host_port (host_text target) (itoa port))),
        record {
          input = rest;
          output =
              ((out ++ (version ∷ method_password ∷ [])) ++ (1 ∷ 0 ∷ []))
              ++ reply_bytes reply_ok (addr_ip local) (addr_port local);
          writes_left = w;
        },
      )
unfolding handle serve_command
handle_connects user secret methods target port s local rest out w u offered valid small dialled
      clears =
    let r = request_to command_connect (network_of target) (host_text target) port in
    let request = encode_request command_connect target port rest in
    let sent = (out ++ (version ∷ method_password ∷ [])) ++ (1 ∷ 0 ∷ []) in
    >>=-ok (negotiate user secret) _ _
      (negotiate_accepts user secret methods request out (suc w) u offered)
    ∙ >>=-ok read_or_refuse _ _ (
        read_or_refuse-reads _ _ r
          (read_request-encode_request command_connect port target rest sent (suc w) valid small))
    ∙ handle_connect_dials s r local rest sent w dialled clears
