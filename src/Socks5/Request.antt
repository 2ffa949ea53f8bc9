-- ===== src/Socks5/Request.antt =====
-- `readRequest` of internal/socks5/server.go.
pub mod Codec
use proxygate.Prelude.{ℕ, Bool, ◌||◌, not, List, [], ◌∷◌, Bytes, codes, ◌==◌, if◌then◌else◌}
use proxygate.Net.{ip_string, itoa, join_host_port, get_uint16}
use proxygate.Socks5.Conn.{
  Exec, ◌>>=◌, ◌>>◌, pure, fail, stop_if, read_full, byte_at, version, address_ipv4, address_domain,
  address_ipv6, invalid_request, empty_domain, unsupported_address,
}

pub data Network : Type 0 where
  tcp4 tcp6 : Network

-- What `readRequest` returns: the command byte, the network, and `host:port`.
pub record Request : Type 0 where
  pub command : ℕ
  pub network : Network
  pub address : Bytes

read_domain : Exec (Network × Bytes)
read_domain = do
  size ← read_full 1
  stop_if (byte_at size 0 == 0) empty_domain
  value ← read_full (byte_at size 0)
  pure (tcp4, value)

read_ipv4 : Exec (Network × Bytes)
read_ipv4 = do value ← read_full 4; pure (tcp4, ip_string value)

read_ipv6 : Exec (Network × Bytes)
read_ipv6 = do value ← read_full 16; pure (tcp6, ip_string value)

-- The switch on the address type: the network and the host.
read_host : ℕ → Exec (Network × Bytes)
read_host kind =
    if kind == address_ipv4
    then read_ipv4
    else if kind == address_ipv6
    then read_ipv6
    else if kind == address_domain
    then read_domain
    else fail unsupported_address

finish_request : ℕ → Network × Bytes → Exec Request
finish_request command (network, host) = do
  port ← read_full 2
  pure (record {
    command = command;
    network = network;
    address = join_host_port host (itoa (get_uint16 port));
  })

pub read_request : Exec Request
unfolding read_host read_ipv4 read_ipv6 read_domain finish_request
read_request = do
  header ← read_full 4
  stop_if (not (byte_at header 0 == version) || not (byte_at header 2 == 0)) invalid_request
  host ← read_host (byte_at header 3)
  finish_request (byte_at header 1) host
