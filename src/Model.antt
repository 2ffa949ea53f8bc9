-- ===== src/Model.antt =====
-- internal/model/node.go: a VPN Gate node and the status that the web interface shows. A time is a
-- number of nanoseconds, 0 for Go's zero time.
use proxygate.Prelude.{ℕ, String, Bool, List}
use proxygate.Prelude.Int.{ℤ}

abbrev pub protocol_openvpn_udp : String
protocol_openvpn_udp = "openvpn_udp"

abbrev pub protocol_openvpn_tcp : String
protocol_openvpn_tcp = "openvpn_tcp"

abbrev pub protocol_softether_tls : String
protocol_softether_tls = "softether_https"

abbrev pub protocol_sstp : String
protocol_sstp = "sstp"

abbrev pub protocol_l2tp : String
protocol_l2tp = "l2tp"

pub record Node : Type 0 where
  pub host_name : String
  pub ip : String
  pub port : ℕ
  pub score : ℤ
  pub ping_ms : ℤ
  pub speed_bps : ℤ
  pub country_long : String
  pub country_short : String
  pub sessions : ℤ
  pub uptime_ms : ℤ
  pub total_users : ℤ
  pub total_traffic : ℤ
  pub log_type : String
  pub operator : String
  pub message : String
  pub openvpn_config : String
  pub protocols : List String
  pub measured_bps : ℤ
  pub measured_at : ℕ
  pub speed_test_failed : Bool
  pub last_failure : ℕ
  pub failure_reason : String
  pub refreshed_at : ℕ

pub record RuntimeStatus : Type 0 where
  pub state : String
  pub connecting_ip : String
  pub selection : String
  pub active_ip : String
  pub active_host_name : String
  pub active_protocol : String
  pub last_refresh : ℕ
  pub last_health_check : ℕ
  pub last_error : String
  pub refresh_running : Bool
  pub direct_mode : Bool
  pub connection_paused : Bool
