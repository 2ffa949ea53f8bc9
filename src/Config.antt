-- ===== src/Config.antt =====
-- internal/config/config.go: the settings and their validation. A configuration file and the store
-- of the settings in force are in `Config.Store`.
pub mod Validity
mod Steps
mod Loops
pub mod Acceptance
pub mod Store
use Prim.Native.String.{len}
use proxygate.Prelude.{
  ℕ, ◌*◌, String, Bool, true, false, ◌&&◌, ◌||◌, not, List, [], ◌∷◌, Option, none, some, Result, ok,
  err, str_eq, has_text, concat, codes, ltb, leb, ◌==◌, if◌then◌else◌,
}
use proxygate.Prelude.Int.{ℤ, pos, negsuc}
use proxygate.Model.{
  protocol_openvpn_udp, protocol_openvpn_tcp, protocol_softether_tls, protocol_sstp, protocol_l2tp,
}
use proxygate.Text.{contains_newline, trim_space, atoi}

pub record Socks5Settings : Type 0 where
  pub listen_address : String
  pub username : String
  pub password : String
  pub idle_timeout : String
  pub half_close_timeout : String

pub record Monitor : Type 0 where
  pub url : String
  pub interval : String
  pub timeout : String

pub record Web : Type 0 where
  pub listen_address : String
  pub username : String
  pub password_hash : String
  pub session_secret : String

pub record Config : Type 0 where
  pub source_url : String
  pub refresh_interval : String
  pub filter_expression : String
  pub selection_mode : String
  pub follow_ranking_on_refresh : Bool
  pub fallback_to_direct : Bool
  pub socks5 : Socks5Settings
  pub monitor : Monitor
  pub web : Web
  pub database_path : String
  pub dns_servers : List String
  pub speed_test_url : String
  pub speed_test_timeout : String
  pub protocol_priority : List String
  pub connect_timeout : String
  pub vpn_gate_username : String
  pub vpn_gate_password : String
  pub vpn_gate_pre_shared_key : String

-- Go's `url.ParseRequestURI` as to scheme and host, `time.ParseDuration` in nanoseconds,
-- `net.SplitHostPort`, and whether `net.ParseIP` reads a text as an IPv4 address.
pub record Parsers : Type 0 where
  pub request_uri : String → Option (String × String)
  pub duration : String → Result String ℤ
  pub split_host_port : String → Result String (String × String)
  pub ipv4_literal : String → Bool

-- `positiveDuration`
positive : Result String ℤ → Result String ℕ
positive (err e) = err e
positive (ok (negsuc n)) = err "must be greater than zero"
positive (ok (pos n)) = if n == 0 then err "must be greater than zero" else ok n

unfoldable pub positive_duration : Parsers → String → Result String ℕ
unfolding positive
positive_duration p value = positive (p.duration value)

-- `IdleTimeoutDuration` and `HalfCloseTimeoutDuration`: an empty text is the default.
unfoldable pub duration_or : Parsers → ℕ → String → Result String ℕ
duration_or p default value = if str_eq value "" then ok default else positive_duration p value

abbrev pub minute : ℕ
minute = 60000000000

unfoldable pub idle_timeout_duration : Parsers → Socks5Settings → Result String ℕ
idle_timeout_duration p s = duration_or p (5 * minute) s.idle_timeout

unfoldable pub half_close_timeout_duration : Parsers → Socks5Settings → Result String ℕ
half_close_timeout_duration p s = duration_or p minute s.half_close_timeout

-- A step of `Validate`: its error, if it has one; `and_then` goes on if there is none.
infixr 4 ◌and_then◌
unfoldable pub ◌and_then◌ : Option String → Option String → Option String
none and_then next = next
some e and_then next = some e

unfoldable pub require : Bool → String → Option String
require true message = none
require false message = some message

-- `fmt.Errorf("…: %w", err)`
unfoldable pub within {ℓ} : {A : Type ℓ} → String → Result String A → Option String
within field (ok a) = none
within field (err e) = some (concat (field ∷ ": " ∷ e ∷ []))

unfoldable pub is_http : Option (String × String) → Bool
is_http none = false
is_http (some (scheme, host)) = str_eq scheme "http" || str_eq scheme "https"

unfoldable pub is_http_with_host : Option (String × String) → Bool
is_http_with_host none = false
is_http_with_host (some (scheme, host)) =
    not (str_eq host "") && (str_eq scheme "http" || str_eq scheme "https")

-- One round of the loop over the DNS servers.
abbrev is_port : Option ℤ → Bool
is_port none = false
is_port (some (negsuc n)) = false
is_port (some (pos n)) = leb 1 n && leb n 65535

-- `%q`, for a text without characters that it escapes.
unfoldable pub quoted : String → String
quoted s = concat ("\"" ∷ s ∷ "\"" ∷ [])

unfoldable pub dns_host : Parsers → String → Result String (String × String) → Option String
dns_host p server (err e) =
    some (concat ("dnsServers contains invalid address " ∷ quoted server ∷ ": " ∷ e ∷ []))
dns_host p server (ok (host, port)) =
    require (p.ipv4_literal host)
      (concat ("dnsServers entry " ∷ quoted server ∷ " must use a literal IPv4 address" ∷ []))
    and_then require (is_port (atoi (codes port)))
        (concat ("dnsServers entry " ∷ quoted server ∷ " has an invalid port" ∷ []))

unfoldable pub validate_dns : Parsers → List String → List String → Option String
unfolding dns_host
validate_dns p seen [] = none
validate_dns p seen (server ∷ servers) =
    dns_host p server (p.split_host_port server)
    and_then require (not (has_text server seen))
        (concat ("dnsServers contains duplicate address " ∷ quoted server ∷ []))
    and_then validate_dns p (server ∷ seen) servers

abbrev pub valid_protocols : List String
valid_protocols =
    protocol_softether_tls ∷ protocol_openvpn_tcp ∷ protocol_openvpn_udp ∷ protocol_sstp
    ∷ protocol_l2tp ∷ []

unfoldable pub validate_protocols : List String → List String → Option String
validate_protocols seen [] = none
validate_protocols seen (protocol ∷ protocols) =
    require (has_text protocol valid_protocols && not (has_text protocol seen))
      (concat ("invalid or duplicate protocol " ∷ quoted protocol ∷ []))
    and_then validate_protocols (protocol ∷ seen) protocols

abbrev is_empty_list : List String → Bool
is_empty_list [] = true
is_empty_list (x ∷ xs) = false

abbrev pub is_blank : String → Bool
is_blank s = str_eq s ""

-- Whether the SOCKS5 user name and password are both set or both empty, and short enough.
abbrev same_blank : String → String → Bool
same_blank s t = if is_blank s then is_blank t else not (is_blank t)

unfoldable pub validate_socks5 : Parsers → Socks5Settings → Option String
validate_socks5 p s =
    within "socks5.listenAddress" (p.split_host_port s.listen_address)
    and_then require (same_blank s.username s.password)
        "socks5 username and password must both be set or both be empty"
    and_then require (leb (len s.username) 255 && leb (len s.password) 255)
        "socks5 username and password must not exceed 255 bytes"
    and_then within "socks5.idleTimeout" (idle_timeout_duration p s)
    and_then within "socks5.halfCloseTimeout" (half_close_timeout_duration p s)

unfoldable pub validate_web : Parsers → Web → Option String
validate_web p w =
    within "web.listenAddress" (p.split_host_port w.listen_address)
    and_then require
        (not (is_blank w.username || is_blank w.password_hash || is_blank w.session_secret))
        "web username, passwordHash, and sessionSecret are required"

unfoldable pub validate_monitor : Parsers → Monitor → Option String
validate_monitor p m =
    require (is_http (p.request_uri m.url)) "monitor.url must be an HTTP or HTTPS URL"
    and_then within "monitor.interval" (positive_duration p m.interval)
    and_then within "monitor.timeout" (positive_duration p m.timeout)

unfoldable pub validate_speed_test : Parsers → Config → Option String
validate_speed_test p c =
    require (is_http_with_host (p.request_uri c.speed_test_url))
      "speedTestUrl must be an HTTP or HTTPS URL"
    and_then within "speedTestTimeout" (positive_duration p c.speed_test_timeout)

unfoldable pub validate_vpn_gate : Config → Option String
validate_vpn_gate c =
    require
      (not (
        is_blank c.vpn_gate_username
        || is_blank c.vpn_gate_password
        || is_blank c.vpn_gate_pre_shared_key))
      "VPN Gate username, password, and pre-shared key are required"
    and_then require
        (not (
          contains_newline (codes c.vpn_gate_username)
          || contains_newline (codes c.vpn_gate_password)))
        "VPN Gate username and password must not contain newlines"

-- `Validate`: none if the settings are accepted, else the first error.
unfoldable pub validate : Parsers → Config → Option String
validate p c =
    require (is_http (p.request_uri c.source_url)) "sourceUrl must be an HTTP or HTTPS URL"
    and_then within "refreshInterval" (positive_duration p c.refresh_interval)
    and_then require
        (str_eq c.selection_mode "speed"
          || str_eq c.selection_mode "ping"
          || str_eq c.selection_mode "score")
        "selectionMode must be speed, ping, or score"
    and_then validate_socks5 p c.socks5
    and_then validate_web p c.web
    and_then validate_monitor p c.monitor
    and_then within "connectTimeout" (positive_duration p c.connect_timeout)
    and_then require (not (is_blank (trim_space c.database_path))) "databasePath is required"
    and_then require (not (is_empty_list c.dns_servers)) "dnsServers must not be empty"
    and_then validate_dns p [] c.dns_servers
    and_then validate_speed_test p c
    and_then require (not (is_empty_list c.protocol_priority)) "protocolPriority must not be empty"
    and_then validate_protocols [] c.protocol_priority
    and_then validate_vpn_gate c

-- `defaultConfig`, for what it generates: the hash of the first password, and the session secret.
abbrev pub default_config : String → String → Config
default_config password_hash session_secret = record {
  source_url = "http://www.vpngate.net/api/iphone/";
  refresh_interval = "30m";
  filter_expression = "true";
  selection_mode = "speed";
  follow_ranking_on_refresh = true;
  fallback_to_direct = false;
  socks5 = record {
    listen_address = "127.0.0.1:1080";
    username = "";
    password = "";
    idle_timeout = "5m";
    half_close_timeout = "1m";
  };
  monitor = record {
    url = "https://www.google.com/generate_204";
    interval = "30s";
    timeout = "10s";
  };
  web = record {
    listen_address = "127.0.0.1:8080";
    username = "admin";
    password_hash = password_hash;
    session_secret = session_secret;
  };
  database_path = "data/proxygate.db";
  dns_servers = "1.1.1.1:53" ∷ "8.8.8.8:53" ∷ [];
  speed_test_url =
      "http://storage.googleapis.com/gcp-public-data-landsat/LC08/01/001/002/LC08_L1GT_001002_20160817_20170322_01_T2/LC08_L1GT_001002_20160817_20170322_01_T2_B1.TIF";
  speed_test_timeout = "45s";
  protocol_priority =
      protocol_openvpn_udp ∷ protocol_openvpn_tcp ∷ protocol_softether_tls ∷ protocol_sstp
      ∷ protocol_l2tp ∷ [];
  connect_timeout = "15s";
  vpn_gate_username = "vpn";
  vpn_gate_password = "vpn";
  vpn_gate_pre_shared_key = "vpn";
}
