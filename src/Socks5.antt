-- ===== src/Socks5.antt =====
-- internal/socks5: the wire protocol of the SOCKS5 server and its two relays.
pub mod Conn
pub mod Negotiate
pub mod Request
pub mod Reply
pub mod Udp
pub mod Server
pub mod Relay
pub mod Associate
pub mod Forward
