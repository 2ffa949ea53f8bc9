-- ===== src/Socks5/Udp/RoundTrip.antt =====
-- UDP requests are read back as they were encoded, and responses are requests of the same form.
use proxygate.Prelude.{
  ℕ, suc, ◌+◌, ◌-◌, ◌<◌, ◌≡◌, refl, ap, ◌∙◌, inl, inr, [], ◌∷◌, ◌++◌, arith, Bytes, length,
  length-append, take_of, drop_of, drop-add, ok, ◌==◌, Option-cases, ltb, false,
}
use proxygate.Net.{to4, to16, ip_string, put_uint16}
use proxygate.Net.Laws.{length-to4, to16-to4, get_uint16-put_uint16, ip_string-to4}
use proxygate.Socks5.Conn.{address_ipv4, address_domain, address_ipv6}
use proxygate.Socks5.Reply.{udp_addr}
use proxygate.Socks5.Request.Codec.{Target, ipv4, ipv6, domain, IsTarget, encode_target, host_text}
use proxygate.Socks5.Udp.{
  udp_host, udp_tail, udp_ipv4, udp_ipv6, udp_domain, parse_udp_request, marshal_for, marshal_ip,
  marshal_udp_response,
}

-- The datagram header of RFC 1928 (two reserved bytes, no fragment), and the payload.
abbrev pub encode_udp : Target → ℕ → Bytes → Bytes
encode_udp target port payload = 0 ∷ 0 ∷ 0 ∷ encode_target target (put_uint16 port ++ payload)

abbrev offset_of : Target → ℕ
offset_of (ipv4 ip) = 8
offset_of (ipv6 ip) = 20
offset_of (domain name) = 5 + length name

fits :
    (n : ℕ) (ip rest : Bytes)
    → length ip ≡ n
    → ltb (suc (suc (suc (suc (length (ip ++ rest)))))) (4 + n) ≡ false
fits n ip rest h = ground (arith, length-append ip rest)

-- Behind a head of `offset` bytes stand the port and the payload.
udp_tail_of :
    (head host payload : Bytes) (offset port : ℕ)
    → length head ≡ offset
    → port < 65536
    → udp_tail (head ++ (put_uint16 port ++ payload)) (host, offset) ≡ ok (host, port, payload)
unfolding udp_tail
udp_tail_of head host payload offset port h k =
    rw
      (
        long,
        drop-add offset 2 (head ++ (put_uint16 port ++ payload)),
        drop_of offset head (put_uint16 port ++ payload) h,
        two,
      )
      (ap (λ p. ok (host, p, payload)) (get_uint16-put_uint16 port k))
  where
    long : ltb (length (head ++ (put_uint16 port ++ payload))) (offset + 2) ≡ false
    long = ground (arith, length-append head (put_uint16 port ++ payload))

    two : offset + 2 - offset ≡ 2
    two = omega arith

udp_domain_of :
    (name rest : Bytes)
    → (length name == 0) ≡ false
    → udp_domain (0 ∷ 0 ∷ 0 ∷ address_domain ∷ length name ∷ (name ++ rest))
      ≡ ok (name, 5 + length name)
unfolding udp_domain
udp_domain_of name rest nonzero =
    rw (five, nonzero, whole, minus, take_of (length name) name rest refl)
  where
    five : ltb (suc (suc (suc (suc (suc (length (name ++ rest))))))) 5 ≡ false
    five = ground arith

    whole : ltb (suc (suc (suc (suc (suc (length (name ++ rest))))))) (5 + length name) ≡ false
    whole = ground (arith, length-append name rest)

    minus : 5 + length name - 5 ≡ length name
    minus = omega arith

-- The host of an encoded request, and the offset behind it.
udp_host_of :
    (target : Target) (rest : Bytes)
    → IsTarget target
    → udp_host (0 ∷ 0 ∷ 0 ∷ encode_target target rest) ≡ ok (host_text target, offset_of target)
unfolding udp_host udp_ipv4 udp_ipv6 udp_domain
udp_host_of (ipv4 ip) rest h = rw (fits 4 ip rest h, take_of 4 ip rest h)
udp_host_of (ipv6 ip) rest h = rw (fits 16 ip rest h, take_of 16 ip rest h)
udp_host_of (domain []) rest h = absurd (h refl)
udp_host_of (domain (b ∷ bs)) rest h = udp_domain_of (b ∷ bs) rest (ground arith)

head_of : Target → Bytes
head_of (ipv4 ip) = 0 ∷ 0 ∷ 0 ∷ address_ipv4 ∷ ip
head_of (ipv6 ip) = 0 ∷ 0 ∷ 0 ∷ address_ipv6 ∷ ip
head_of (domain name) = 0 ∷ 0 ∷ 0 ∷ address_domain ∷ length name ∷ name

length-head_of : (target : Target) → IsTarget target → length (head_of target) ≡ offset_of target
unfolding head_of
length-head_of (ipv4 ip) h = omega (arith, h)
length-head_of (ipv6 ip) h = omega (arith, h)
length-head_of (domain name) h = omega arith

encode_udp_head :
    (target : Target) (port : ℕ) (payload : Bytes)
    → encode_udp target port payload ≡ head_of target ++ (put_uint16 port ++ payload)
unfolding head_of
encode_udp_head (ipv4 ip) port payload = refl
encode_udp_head (ipv6 ip) port payload = refl
encode_udp_head (domain name) port payload = refl

parse_of_host :
    (bs rest host : Bytes) (offset : ℕ)
    → bs ≡ 0 ∷ 0 ∷ 0 ∷ rest
    → 0 < length rest
    → udp_host bs ≡ ok (host, offset)
    → parse_udp_request bs ≡ udp_tail bs (host, offset)
unfolding parse_udp_request
parse_of_host bs rest host offset e long h = rw (e, leading (length rest) long, rw e at h)
  where
    leading : (n : ℕ) → 0 < n → ltb (suc (suc (suc n))) 4 ≡ false
    leading n p = ground arith

length-encode_target : (target : Target) (rest : Bytes) → 0 < length (encode_target target rest)
length-encode_target (ipv4 ip) rest = omega arith
length-encode_target (ipv6 ip) rest = omega arith
length-encode_target (domain name) rest = omega arith

-- Every datagram request that RFC 1928 allows (no fragment, an address of 4 or 16 bytes or a
-- non-empty domain, a 16-bit port, any payload) is read as its host, its port and exactly its payload.
pub parse_udp_request-encode_udp :
    (target : Target) (port : ℕ) (payload : Bytes)
    → IsTarget target
    → port < 65536
    → parse_udp_request (encode_udp target port payload) ≡ ok (host_text target, port, payload)
parse_udp_request-encode_udp target port payload h k =
    let rest = put_uint16 port ++ payload in
    parse_of_host _ (encode_target target rest) (host_text target) (offset_of target) refl
      (length-encode_target target rest) (udp_host_of target rest h)
    ∙ rw (encode_udp_head target port payload) (
        udp_tail_of (head_of target) (host_text target) payload (offset_of target) port
          (length-head_of target h) k)

-- The target that a response names as its sender.
marshal_ip_target :
    (ip payload bs : Bytes) (port : ℕ)
    → marshal_ip ip port payload ≡ ok bs
    → (target : Target) × IsTarget target
      × (bs ≡ encode_udp target port payload)
      × (host_text target ≡ ip_string ip)
unfolding marshal_ip marshal_for
marshal_ip_target ip payload bs port h = elim (Option-cases (to4 ip)) [
  | inl e ↦ elim (Option-cases (to16 ip)) [
    | inl e6 ↦ absurd (ground arith)
    | inr (v6, e6) ↦ let (same, size) = to16-to4 ip v6 e e6 in (ipv6 ip, size, ground arith, refl)
  ]
  | inr (v4, e) ↦ (ipv4 v4, length-to4 ip e, ground arith, ip_string-to4 ip v4 e)
]

-- What the relay sends to its client for a datagram from the network is itself a request of that
-- form: read back it gives the sender's address as text, its port, and exactly the payload.
pub parse_udp_request-marshal_udp_response :
    (ip payload bs : Bytes) (port : ℕ)
    → port < 65536
    → marshal_udp_response (udp_addr ip port) payload ≡ ok bs
    → parse_udp_request bs ≡ ok (ip_string ip, port, payload)
unfolding marshal_udp_response
parse_udp_request-marshal_udp_response [] payload bs port k h = cc
parse_udp_request-marshal_udp_response (b ∷ ip) payload bs port k h =
    let (target, valid, made, text) = marshal_ip_target (b ∷ ip) payload bs port h in
    rw (made, ← text) (parse_udp_request-encode_udp target port payload valid k)
