-- ===== src/Config/Validity.antt =====
-- What `Validate` accepts.
use Prim.Native.String.{len}
use proxygate.Prelude.{
  ℕ, String, true, false, List, [], ◌∷◌, some, ok, ◌≡◌, ◌≢◌, ◌≤◌, ◌<◌, ◌⊎◌, ◌↔◌, All, codes,
  has_text,
}
use proxygate.Prelude.Int.{pos}
use proxygate.Text.{contains_newline, trim_space, atoi}
use proxygate.Config.{Config, Socks5Settings, Parsers, valid_protocols}

abbrev pub IsHttp : String → Type 0
IsHttp scheme = (scheme ≡ "http") ⊎ (scheme ≡ "https")

-- A text that reads as a duration of more than zero.
abbrev pub IsDuration : Parsers → String → Type 0
IsDuration p value = (d : ℕ) × (p.duration value ≡ ok (pos d)) × (0 < d)

abbrev pub IsAddress : Parsers → String → Type 0
IsAddress p value = (parts : String × String) × (p.split_host_port value ≡ ok parts)

abbrev pub IsUrl : Parsers → String → Type 0
IsUrl p url = (scheme host : String) × (p.request_uri url ≡ some (scheme, host)) × IsHttp scheme

-- A literal IPv4 address with a port.
pub record IsDnsServer (p : Parsers) (server : String) : Type 0 where
  pub host : String
  pub port : String
  pub number : ℕ
  pub address : p.split_host_port server ≡ ok (host, port)
  pub literal : p.ipv4_literal host ≡ true
  pub port_number : atoi (codes port) ≡ some (pos number)
  pub port_range : (1 ≤ number) × (number ≤ 65535)

-- No text stands twice.
abbrev pub IsDistinct : List String → Type 0
IsDistinct [] = Unit {0}
IsDistinct (x ∷ xs) = (has_text x xs ≡ false) × IsDistinct xs

pub record IsSocks5 (p : Parsers) (s : Socks5Settings) : Type 0 where
  pub address : IsAddress p s.listen_address
  pub paired : (s.username ≡ "") ↔ (s.password ≡ "")
  pub username_fits : len s.username ≤ 255
  pub password_fits : len s.password ≤ 255
  pub idle : (s.idle_timeout ≡ "") ⊎ IsDuration p s.idle_timeout
  pub half_close : (s.half_close_timeout ≡ "") ⊎ IsDuration p s.half_close_timeout

-- What the settings promise to the rest of the program.
pub record IsValid (p : Parsers) (c : Config) : Type 0 where
  pub source : IsUrl p c.source_url
  pub refresh : IsDuration p c.refresh_interval
  pub mode :
      ((c.selection_mode ≡ "speed") ⊎ (c.selection_mode ≡ "ping")) ⊎ (c.selection_mode ≡ "score")
  pub socks5 : IsSocks5 p c.socks5
  pub web_address : IsAddress p c.web.listen_address
  pub web_username : c.web.username ≢ ""
  pub web_password : c.web.password_hash ≢ ""
  pub web_secret : c.web.session_secret ≢ ""
  pub monitor_url : IsUrl p c.monitor.url
  pub monitor_interval : IsDuration p c.monitor.interval
  pub monitor_timeout : IsDuration p c.monitor.timeout
  pub connect : IsDuration p c.connect_timeout
  pub database : trim_space c.database_path ≢ ""
  pub has_dns : c.dns_servers ≢ []
  pub dns : All (IsDnsServer p) c.dns_servers
  pub dns_distinct : IsDistinct c.dns_servers
  pub speed_test :
      (scheme host : String) × (p.request_uri c.speed_test_url ≡ some (scheme, host))
      × (host ≢ "")
      × IsHttp scheme
  pub speed_test_time : IsDuration p c.speed_test_timeout
  pub has_protocols : c.protocol_priority ≢ []
  pub protocols : All (λ x. has_text x valid_protocols ≡ true) c.protocol_priority
  pub protocols_distinct : IsDistinct c.protocol_priority
  pub gate_username : c.vpn_gate_username ≢ ""
  pub gate_password : c.vpn_gate_password ≢ ""
  pub gate_key : c.vpn_gate_pre_shared_key ≢ ""
  pub gate_username_line : contains_newline (codes c.vpn_gate_username) ≡ false
  pub gate_password_line : contains_newline (codes c.vpn_gate_password) ≡ false
