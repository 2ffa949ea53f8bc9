-- ===== src/Socks5/Reply/Layout.antt =====
-- A reply of the server, read by a client as RFC 1928 lays it out.
use proxygate.Prelude.{
  ℕ, suc, ◌<◌, ◌≡◌, ap, ◌⊎◌, inl, inr, [], ◌∷◌, ◌++◌, Option, none, some, Bytes, length, take, drop,
  take_of, drop_of, ok, ◌==◌, if◌then◌else◌, Option-cases, append_assoc, append-nil,
}
use proxygate.Net.{to4, put_uint16, get_uint16}
use proxygate.Net.Laws.{length-to4, length-to16, to16-to4, get_uint16-put_uint16}
use proxygate.Socks5.Conn.{Conn, write, address_ipv4, address_ipv6}
use proxygate.Socks5.Reply.{Addr, addr_ip, addr_port, reply_bytes, write_reply}

-- What a client reads: the status, the bound address and port, and what follows the reply.
pub record Reply : Type 0 where
  pub status : ℕ
  pub ip : Bytes
  pub port : ℕ
  pub rest : Bytes

abbrev reply_of : ℕ → ℕ → Bytes → Reply
reply_of size status body = record {
  status = status;
  ip = take size body;
  port = get_uint16 (drop size body);
  rest = drop 2 (drop size body);
}

-- A client's reader of RFC 1928's replies.
unfoldable pub decode_reply : Bytes → Option Reply
decode_reply (ver ∷ status ∷ reserved ∷ kind ∷ body) =
    if kind == address_ipv4
    then some (reply_of 4 status body)
    else if kind == address_ipv6
    then some (reply_of 16 status body)
    else none
decode_reply _ = none

-- The shortest form of an address.
abbrev pub shorter : Option Bytes → Bytes → Bytes
shorter (some v4) ip = v4
shorter none ip = ip

abbrev pub canonical : Bytes → Bytes
canonical ip = shorter (to4 ip) ip

reply_of_append :
    (size status port : ℕ) (ip rest : Bytes)
    → length ip ≡ size
    → port < 65536
    → reply_of size status (ip ++ (put_uint16 port ++ rest))
      ≡ record { status = status; ip = ip; port = port; rest = rest }
reply_of_append size status port ip rest h k =
    rw (take_of size ip (put_uint16 port ++ rest) h, drop_of size ip (put_uint16 port ++ rest) h)
      (ap (λ p. record { status = status; ip = ip; port = p; rest = rest })
        (get_uint16-put_uint16 port k))

abbrev pub replied : ℕ → Bytes → ℕ → Bytes → Reply
replied status ip port rest = record { status = status; ip = ip; port = port; rest = rest }

decode-reply_bytes :
    (status port : ℕ) (ip rest : Bytes)
    → (length ip ≡ 4) ⊎ (length ip ≡ 16)
    → port < 65536
    → decode_reply (reply_bytes status ip port ++ rest)
      ≡ some (replied status (canonical ip) port rest)
unfolding decode_reply reply_bytes
decode-reply_bytes status port ip rest h k = elim (Option-cases (to4 ip)) [
  | inl e ↦
      let (v6, e6) = length-to16 ip h in
      let (same, size) = to16-to4 ip v6 e e6 in
      rw (e, e6, same, append_assoc ip (put_uint16 port) rest)
        (ap some (reply_of_append 16 status port ip rest size k))
  | inr (v4, e) ↦
      rw (e, append_assoc v4 (put_uint16 port) rest)
        (ap some (reply_of_append 4 status port v4 rest (length-to4 ip e) k))
]

-- Every reply that reaches the client (a status, and the address of a socket with 4 or 16 address
-- bytes and a 16-bit port, or 0.0.0.0:0 for no address) is appended to what was sent before, and
-- decodes as RFC 1928 says to that status, that address in its shortest form, and that port, with
-- nothing left over.
pub write_reply-decode_reply :
    (status : ℕ) (address : Addr) (c : Conn) {w : ℕ}
    → (length (addr_ip address) ≡ 4) ⊎ (length (addr_ip address) ≡ 16)
    → addr_port address < 65536
    → c.writes_left ≡ suc w
    → (reply : Bytes) × (write_reply status address c
        ≡ (ok tt, record c { output = c.output ++ reply; writes_left = w }))
      × (decode_reply reply
          ≡ some (replied status (canonical (addr_ip address)) (addr_port address) []))
unfolding write_reply write
write_reply-decode_reply status address c h k left = (
  reply_bytes status (addr_ip address) (addr_port address),
  rw left,
  rw (← append-nil (reply_bytes status (addr_ip address) (addr_port address)))
      (decode-reply_bytes status (addr_port address) (addr_ip address) [] h k),
)
