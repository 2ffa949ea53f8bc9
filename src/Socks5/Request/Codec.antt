-- ===== src/Socks5/Request/Codec.antt =====
-- `readRequest` reads back what a client encodes as RFC 1928 says, and nothing else.
use proxygate.Prelude.{
  ℕ, ◌+◌, ◌*◌, ◌<◌, ◌≡◌, ◌≢◌, refl, ap, ◌∙◌, false, [], ◌∷◌, ◌++◌, arith, Bytes, length, ok, not,
  ◌||◌, sym, subst, ◌==◌,
}
use proxygate.Net.{ip_string, itoa, join_host_port, put_uint16, get_uint16}
use proxygate.Net.Laws.{get_uint16-put_uint16}
use proxygate.Socks5.Conn.{Conn, version, address_ipv4, address_domain, address_ipv6, byte_at}
use proxygate.Socks5.Conn.Laws.{
  read_full-ok, stop_if-ok, >>=-ok, >>=-elim, stop_if-elim, read_full-elim, if-elim, one_byte,
  two_bytes,
}
use proxygate.Socks5.Request.{
  Network, tcp4, tcp6, Request, read_domain, read_ipv4, read_ipv6, read_host, finish_request,
  read_request,
}

-- The three address forms of a request.
pub data Target : Type 0 where
  ipv4 ipv6 domain : Bytes → Target

abbrev pub IsTarget : Target → Type 0
IsTarget (ipv4 ip) = length ip ≡ 4
IsTarget (ipv6 ip) = length ip ≡ 16
IsTarget (domain name) = name ≢ []

abbrev pub encode_target : Target → Bytes → Bytes
encode_target (ipv4 ip) rest = address_ipv4 ∷ (ip ++ rest)
encode_target (ipv6 ip) rest = address_ipv6 ∷ (ip ++ rest)
encode_target (domain name) rest = address_domain ∷ length name ∷ (name ++ rest)

abbrev pub host_text : Target → Bytes
host_text (ipv4 ip) = ip_string ip
host_text (ipv6 ip) = ip_string ip
host_text (domain name) = name

abbrev pub network_of : Target → Network
network_of (ipv4 ip) = tcp4
network_of (ipv6 ip) = tcp6
network_of (domain name) = tcp4

-- RFC 1928's request.
abbrev pub encode_request : ℕ → Target → ℕ → Bytes → Bytes
encode_request command target port rest =
    version ∷ command ∷ 0 ∷ encode_target target (put_uint16 port ++ rest)

abbrev kind_of : Target → ℕ
kind_of (ipv4 ip) = address_ipv4
kind_of (ipv6 ip) = address_ipv6
kind_of (domain name) = address_domain

abbrev body_of : Target → Bytes → Bytes
body_of (ipv4 ip) rest = ip ++ rest
body_of (ipv6 ip) rest = ip ++ rest
body_of (domain name) rest = length name ∷ (name ++ rest)

read_host_of :
    (target : Target) (rest out : Bytes) (w : ℕ)
    → IsTarget target
    → read_host
        (kind_of target)
        (record { input = body_of target rest; output = out; writes_left = w })
      ≡ (
        ok (network_of target, host_text target),
        record { input = rest; output = out; writes_left = w },
      )
unfolding read_host read_ipv4 read_ipv6 read_domain
read_host_of (ipv4 ip) rest out w h = rw (← h) (read_full-ok ip rest out w _)
read_host_of (ipv6 ip) rest out w h = rw (← h) (read_full-ok ip rest out w _)
read_host_of (domain []) rest out w h = absurd (h refl)
read_host_of (domain (b ∷ bs)) rest out w h =
    read_full-ok (length (b ∷ bs) ∷ []) _ out w _
    ∙ stop_if-ok _ _ _ _ (ground arith)
    ∙ read_full-ok (b ∷ bs) rest out w _

abbrev pub request_to : ℕ → Network → Bytes → ℕ → Request
request_to command network host port = record {
  command = command;
  network = network;
  address = join_host_port host (itoa port);
}

finish_request_of :
    (command port : ℕ) (host : Network × Bytes) (rest out : Bytes) (w : ℕ)
    → port < 65536
    → finish_request command host
        (record { input = put_uint16 port ++ rest; output = out; writes_left = w })
      ≡ (
        ok (request_to command host.0 host.1 port),
        record { input = rest; output = out; writes_left = w },
      )
unfolding finish_request
finish_request_of command port (network, host) rest out w h =
    read_full-ok (put_uint16 port) rest out w _
    ∙ ap
        (λ p. (
          ok (request_to command network host p),
          record { input = rest; output = out; writes_left = w },
        ))
        (get_uint16-put_uint16 port h)

header_of :
    (command port : ℕ) (target : Target) (rest : Bytes)
    → encode_request command target port rest
      ≡ (version ∷ command ∷ 0 ∷ kind_of target ∷ []) ++ body_of target (put_uint16 port ++ rest)
header_of command port (ipv4 ip) rest = refl
header_of command port (ipv6 ip) rest = refl
header_of command port (domain name) rest = refl

-- Every request that RFC 1928 allows (any command, an address of 4 or 16 bytes or a non-empty
-- domain, a 16-bit port) is read back as its command, network and `host:port`, and nothing behind
-- it is consumed.
pub read_request-encode_request :
    (command port : ℕ) (target : Target) (rest out : Bytes) (w : ℕ)
    → IsTarget target
    → port < 65536
    → read_request
        (record { input = encode_request command target port rest; output = out; writes_left = w })
      ≡ (
        ok (request_to command (network_of target) (host_text target) port),
        record { input = rest; output = out; writes_left = w },
      )
unfolding read_request
read_request-encode_request command port target rest out w h k =
    rw (header_of command port target rest) (
      read_full-ok (version ∷ command ∷ 0 ∷ kind_of target ∷ []) _ out w _
      ∙ stop_if-ok _ _ _ _ refl
      ∙ >>=-ok _ _ _ (read_host_of target (put_uint16 port ++ rest) out w h)
      ∙ finish_request_of command port (network_of target, host_text target) rest out w k)

record HostRead (kind : ℕ) (c c' : Conn) (host : Network × Bytes) : Type 0 where
  target : Target
  valid : IsTarget target
  kind_is : kind ≡ kind_of target
  input_is : c.input ≡ body_of target c'.input
  host_is : host ≡ (network_of target, host_text target)

module _ (kind : ℕ) (c c' : Conn) (host : Network × Bytes) where
  read_ipv4_sound : kind ≡ address_ipv4 → read_ipv4 c ≡ (ok host, c') → HostRead kind c c' host
  unfolding read_ipv4
  read_ipv4_sound k h = read_full-elim 4 _ c h λ ip rest e n h1. record {
    target = ipv4 ip;
    valid = n;
    kind_is = k;
    input_is = ground arith;
    host_is = ground arith;
  }

  read_ipv6_sound : kind ≡ address_ipv6 → read_ipv6 c ≡ (ok host, c') → HostRead kind c c' host
  unfolding read_ipv6
  read_ipv6_sound k h = read_full-elim 16 _ c h λ ip rest e n h1. record {
    target = ipv6 ip;
    valid = n;
    kind_is = k;
    input_is = ground arith;
    host_is = ground arith;
  }

  read_domain_sound :
      kind ≡ address_domain → read_domain c ≡ (ok host, c') → HostRead kind c c' host
  unfolding read_domain
  read_domain_sound k h = read_full-elim 1 _ c h λ size r1 e1 n1 h1. stop_if-elim _ _ _ _ h1 λ t h2.
      read_full-elim _ _ _ h2 λ name r2 e2 n2 h3. record {
        target = domain name;
        valid = nonempty name (byte_at size 0) n2 t;
        kind_is = k;
        input_is = ground (arith, one_byte size n1);
        host_is = ground arith;
      }
    where
      nonempty : (name : Bytes) (n : ℕ) → length name ≡ n → (n == 0) ≡ false → name ≢ []
      nonempty [] n e t = ground arith
      nonempty (b ∷ bs) n e t = λ z. cc

  read_host_sound : read_host kind c ≡ (ok host, c') → HostRead kind c c' host
  unfolding read_host
  read_host_sound h =
      if-elim (kind == address_ipv4) read_ipv4 _ c h (λ t k. read_ipv4_sound (ground arith) k)
        λ _ h1.
          if-elim (kind == address_ipv6) read_ipv6 _ c h1 (λ t k. read_ipv6_sound (ground arith) k)
            λ _ h2.
              if-elim (kind == address_domain) read_domain _ c h2
                (λ t k. read_domain_sound (ground arith) k) λ _ h3. cc

finish_request_sound :
    (command : ℕ) (host : Network × Bytes) (c c' : Conn) (r : Request)
    → finish_request command host c ≡ (ok r, c')
    → (hi lo : ℕ) × (c.input ≡ hi ∷ lo ∷ c'.input)
      × (r ≡ request_to command host.0 host.1 (hi * 256 + lo))
unfolding finish_request
finish_request_sound command (network, host) c c' r h = read_full-elim 2 _ c h λ port rest e n h1.
    let shape = two_bytes port n in
    (
      byte_at port 0,
      byte_at port 1,
      ground (arith, shape),
      ground (arith, shape, ap get_uint16 shape),
    )

four_bytes :
    (xs : Bytes)
    → length xs ≡ 4
    → xs ≡ byte_at xs 0 ∷ byte_at xs 1 ∷ byte_at xs 2 ∷ byte_at xs 3 ∷ []
four_bytes (a ∷ b ∷ c ∷ d ∷ []) h = refl
four_bytes [] h = absurd (omega arith)
four_bytes (a ∷ []) h = absurd (omega arith)
four_bytes (a ∷ b ∷ []) h = absurd (omega arith)
four_bytes (a ∷ b ∷ c ∷ []) h = absurd (omega arith)
four_bytes (a ∷ b ∷ c ∷ d ∷ e ∷ xs) h = absurd (omega arith)

assemble :
    (c : Conn) (header r1 rest : Bytes) (target : Target) {command : ℕ}
    → header ≡ byte_at header 0 ∷ byte_at header 1 ∷ byte_at header 2 ∷ byte_at header 3 ∷ []
    → c.input ≡ header ++ r1
    → (not (byte_at header 0 == version) || not (byte_at header 2 == 0)) ≡ false
    → byte_at header 3 ≡ kind_of target
    → r1 ≡ body_of target rest
    → command ≡ byte_at header 1
    → c.input ≡ version ∷ command ∷ 0 ∷ encode_target target rest
assemble c header r1 rest (ipv4 ip) h e t k b r = ground arith
assemble c header r1 rest (ipv6 ip) h e t k b r = ground arith
assemble c header r1 rest (domain name) h e t k b r = ground arith

renamed :
    (r : Request) (command port : ℕ) (host host' : Network × Bytes)
    → r ≡ request_to command host.0 host.1 port
    → host ≡ host'
    → r ≡ request_to r.command host'.0 host'.1 port
renamed r command port host host' h e =
    rw (← e) (subst (λ n. r ≡ request_to n host.0 host.1 port) (sym (ap (λ q. q.command) h)) h)

-- A request that is read is one of those that RFC 1928 allows: the input begins with version 5, the
-- command, a zero byte and one of the three address forms, the domain not empty, and the result is
-- that command, with the network, the host and the port that stand there.
pub read_request_sound :
    (c c' : Conn) (r : Request)
    → read_request c ≡ (ok r, c')
    → (target : Target) × (hi lo : ℕ) × IsTarget target
      × (c.input ≡ version ∷ r.command ∷ 0 ∷ encode_target target (hi ∷ lo ∷ c'.input))
      × (r ≡ request_to r.command (network_of target) (host_text target) (hi * 256 + lo))
unfolding read_request
read_request_sound c c' r h = read_full-elim 4 _ c h λ header r1 e1 n1 h1.
    stop_if-elim _ _ _ _ h1 λ t h2. >>=-elim _ _ _ h2 λ host c2 e2 h3.
      let found = read_host_sound (byte_at header 3) (record c { input = r1 }) c2 host e2 in
      let (hi, lo, sent, made) = finish_request_sound (byte_at header 1) host c2 c' r h3 in
      (
        found.target,
        hi,
        lo,
        found.valid,
        assemble c header r1 (hi ∷ lo ∷ c'.input) found.target (four_bytes header n1) e1 t
            found.kind_is (found.input_is ∙ ap (body_of found.target) sent)
            (ap (λ q. q.command) made),
        renamed r (byte_at header 1) (hi * 256 + lo) host _ made found.host_is,
      )
