-- ===== src/Config/Acceptance.antt =====
-- Which settings `Validate` accepts.
use Prim.Native.String.{len}
use proxygate.Prelude.{
  String, Bool, true, false, ◌||◌, not, none, ◌≡◌, refl, ◌≢◌, ◌⊎◌, ◌↔◌, ◌*◌, arith, codes, str_eq,
  eq_iff, both, either, chain, test-||, test-not, test-str_eq,
}
use proxygate.Text.{contains_newline, trim_space}
use proxygate.Config.{
  Config, Socks5Settings, Parsers, is_blank, validate_socks5, validate_web, validate_monitor,
  validate_speed_test, validate_vpn_gate, validate, idle_timeout_duration,
  half_close_timeout_duration, minute,
}
use proxygate.Config.Validity.{IsSocks5, IsValid}
use proxygate.Config.Steps.{
  ◌then◌, requires, duration-IsDuration, duration_or-IsDuration, split_host_port-IsAddress,
  request_uri-IsUrl, request_uri-IsUrlWithHost, same_blank-paired, fits, list-filled, not-blank,
}
use proxygate.Config.Loops.{dns-IsDnsServer, protocols-IsDistinct}

neither : (a b : Bool) → ((a || b) ≡ false) ↔ ((a ≡ false) × (b ≡ false))
neither true b = (λ h. absurd (ground (arith, h)), λ h. absurd (ground (arith, h.0)))
neither false b = (λ h. (refl, h), λ h. h.1)

two_filled : (a b : String) → ((is_blank a || is_blank b) ≡ false) ↔ ((a ≢ "") × (b ≢ ""))
two_filled a b =
    chain (neither (is_blank a) (is_blank b)) (both (test-str_eq a "") (test-str_eq b ""))

all_filled :
    (a b c : String)
    → (not (is_blank a || is_blank b || is_blank c) ≡ true) ↔ (((a ≢ "") × (b ≢ "")) × (c ≢ ""))
all_filled a b c = chain (test-not (is_blank a || is_blank b || is_blank c)) (
    chain (neither (is_blank a || is_blank b) (is_blank c))
      (both (two_filled a b) (test-str_eq c "")))

validate_socks5-IsSocks5 :
    (p : Parsers) (s : Socks5Settings) → (validate_socks5 p s ≡ none) ↔ IsSocks5 p s
unfolding validate_socks5 idle_timeout_duration half_close_timeout_duration
validate_socks5-IsSocks5 p s =
    chain
      (split_host_port-IsAddress p _ s.listen_address
        then requires _ (same_blank-paired s.username s.password)
        then requires _ (fits (len s.username) (len s.password))
        then duration_or-IsDuration p _ (5 * minute) s.idle_timeout
        then duration_or-IsDuration p _ minute s.half_close_timeout)
      (
        λ (address, (paired, (lengths, (idle, half_close)))). record {
          address = address;
          paired = paired;
          username_fits = lengths.0;
          password_fits = lengths.1;
          idle = idle;
          half_close = half_close;
        },
        λ h. (h.address, (h.paired, ((h.username_fits, h.password_fits), (h.idle, h.half_close)))),
      )

mode_iff :
    (mode : String)
    → ((str_eq mode "speed" || str_eq mode "ping" || str_eq mode "score") ≡ true)
      ↔ (((mode ≡ "speed") ⊎ (mode ≡ "ping")) ⊎ (mode ≡ "score"))
mode_iff mode = chain (test-|| (str_eq mode "speed" || str_eq mode "ping") (str_eq mode "score")) (
    either
      (chain (test-|| (str_eq mode "speed") (str_eq mode "ping"))
        (either (eq_iff mode "speed") (eq_iff mode "ping")))
      (eq_iff mode "score"))

one_line :
    (s t : String)
    → (not (contains_newline (codes s) || contains_newline (codes t)) ≡ true)
      ↔ ((contains_newline (codes s) ≡ false) × (contains_newline (codes t) ≡ false))
one_line s t =
    chain (test-not (contains_newline (codes s) || contains_newline (codes t)))
      (neither (contains_newline (codes s)) (contains_newline (codes t)))

-- `Validate` has no error for exactly the settings that are valid: http or https URLs, positive
-- durations, addresses with a port, a SOCKS5 user name and password that are both set or both empty and
-- at most 255 bytes long, a web login, at least one DNS server and at least one protocol, none twice,
-- each DNS server an IPv4 literal with a port from 1 to 65535, each protocol a known one, and VPN Gate
-- credentials without line breaks.
pub validate-IsValid : (p : Parsers) (c : Config) → (validate p c ≡ none) ↔ IsValid p c
unfolding validate validate_web validate_monitor validate_speed_test validate_vpn_gate
validate-IsValid p c =
    chain
      (requires _ (request_uri-IsUrl p c.source_url)
        then duration-IsDuration p _ c.refresh_interval
        then requires _ (mode_iff c.selection_mode)
        then validate_socks5-IsSocks5 p c.socks5
        then (split_host_port-IsAddress p _ c.web.listen_address
            then requires _ (all_filled c.web.username c.web.password_hash c.web.session_secret))
        then (requires _ (request_uri-IsUrl p c.monitor.url)
            then duration-IsDuration p _ c.monitor.interval
            then duration-IsDuration p _ c.monitor.timeout)
        then duration-IsDuration p _ c.connect_timeout
        then requires _ (not-blank (trim_space c.database_path))
        then requires _ (list-filled c.dns_servers)
        then dns-IsDnsServer p c.dns_servers
        then (requires _ (request_uri-IsUrlWithHost (p.request_uri c.speed_test_url))
            then duration-IsDuration p _ c.speed_test_timeout)
        then requires _ (list-filled c.protocol_priority)
        then protocols-IsDistinct c.protocol_priority
        then requires _
            (all_filled c.vpn_gate_username c.vpn_gate_password c.vpn_gate_pre_shared_key)
        then requires _ (one_line c.vpn_gate_username c.vpn_gate_password))
      (
        λ (
          source,
          (
            refresh,
            (
              mode,
              (
                socks5,
                (
                  web,
                  (
                    monitor,
                    (
                      connect,
                      (
                        database,
                        (has_dns, (dns, (speed, (has_protocols, (protocols, (gate, lines)))))),
                      ),
                    ),
                  ),
                ),
              ),
            ),
          ),
        ).
            record {
              source = source;
              refresh = refresh;
              mode = mode;
              socks5 = socks5;
              web_address = web.0;
              web_username = web.1.0.0;
              web_password = web.1.0.1;
              web_secret = web.1.1;
              monitor_url = monitor.0;
              monitor_interval = monitor.1.0;
              monitor_timeout = monitor.1.1;
              connect = connect;
              database = database;
              has_dns = has_dns;
              dns = dns.0;
              dns_distinct = dns.1;
              speed_test = speed.0;
              speed_test_time = speed.1;
              has_protocols = has_protocols;
              protocols = protocols.0;
              protocols_distinct = protocols.1;
              gate_username = gate.0.0;
              gate_password = gate.0.1;
              gate_key = gate.1;
              gate_username_line = lines.0;
              gate_password_line = lines.1;
            },
        λ h. (
          h.source,
          (
            h.refresh,
            (
              h.mode,
              (
                h.socks5,
                (
                  (h.web_address, ((h.web_username, h.web_password), h.web_secret)),
                  (
                    (h.monitor_url, (h.monitor_interval, h.monitor_timeout)),
                    (
                      h.connect,
                      (
                        h.database,
                        (
                          h.has_dns,
                          (
                            (h.dns, h.dns_distinct),
                            (
                              (h.speed_test, h.speed_test_time),
                              (
                                h.has_protocols,
                                (
                                  (h.protocols, h.protocols_distinct),
                                  (
                                    ((h.gate_username, h.gate_password), h.gate_key),
                                    (h.gate_username_line, h.gate_password_line),
                                  ),
                                ),
                              ),
                            ),
                          ),
                        ),
                      ),
                    ),
                  ),
                ),
              ),
            ),
          ),
        ),
      )
