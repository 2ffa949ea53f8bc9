-- ===== src/VpnGate/Profile.antt =====
-- internal/vpngate/client.go: what an OpenVPN profile tells of its node.
pub mod Bounds
use proxygate.Prelude.{
  ℕ, String, Bool, true, false, ◌&&◌, ◌||◌, List, [], ◌∷◌, ◌++◌, Option, none, some, Bytes,
  bytes_eq, codes, map, str_eq, leb, if◌then◌else◌,
}
use proxygate.Prelude.Int.{ℤ, pos, negsuc}
use proxygate.Model.{
  protocol_openvpn_udp, protocol_openvpn_tcp, protocol_softether_tls, protocol_sstp, protocol_l2tp,
}
use proxygate.Text.{split, fields, atoi, lower, has_prefix, trim_space}

-- `decodeOpenVPNConfig`, for `base64.StdEncoding` and `base64.RawStdEncoding`.
decoded : Option String → Option String → String
decoded (some text) raw = text
decoded none (some text) = text
decoded none none = ""

unfoldable pub decode_openvpn_config :
    (String → Option String) → (String → Option String) → String → String
unfolding decoded
decode_openvpn_config padded raw value =
    let encoded = trim_space value in
    if str_eq encoded "" then "" else decoded (padded encoded) (raw encoded)

-- The words of every line. `strings.Fields` leaves out what `strings.TrimSpace` takes off before it.
unfoldable pub words_of : List Bytes → List (List Bytes)
words_of [] = []
words_of (line ∷ lines) = fields line ∷ words_of lines

abbrev lines_of : String → List Bytes
lines_of profile = split 10 (codes profile)

-- A port that `strconv.Atoi` reads and that is in range.
port_number : Option ℤ → Option ℕ
port_number none = none
port_number (some (negsuc n)) = none
port_number (some (pos n)) = if leb 1 n && leb n 65535 then some n else none

-- A line with `port` ends the search.
port_line : List Bytes → Option ℕ
port_line [] = none
port_line (word ∷ []) = none
port_line (word ∷ value ∷ more) =
    if bytes_eq word (codes "port") then port_number (atoi value) else none

-- A line with `remote` is the answer so far.
remote_line : List Bytes → Option ℕ
remote_line [] = none
remote_line (word ∷ []) = none
remote_line (word ∷ host ∷ []) = none
remote_line (word ∷ host ∷ value ∷ more) =
    if bytes_eq word (codes "remote") then port_number (atoi value) else none

abbrev or_port : ℕ → Option ℕ → ℕ
or_port port none = port
or_port port (some p) = p

detect_from : ℕ → List (List Bytes) → ℕ
unfolding port_line remote_line port_number
detect_from port [] = port
detect_from port (words ∷ lines) =
    let rest = detect_from (or_port port (remote_line words)) lines in
    or_port rest (port_line words)

-- `detectPort`
unfoldable pub detect_port : String → ℕ
unfolding detect_from words_of
detect_port profile = detect_from 443 (words_of (lines_of profile))

-- The protocol that a line names.
candidate : List Bytes → Bytes
candidate [] = []
candidate (word ∷ []) = []
candidate (word ∷ value ∷ []) = value
candidate (word ∷ value ∷ port ∷ []) = value
candidate (word ∷ value ∷ port ∷ proto ∷ more) =
    if bytes_eq word (codes "remote") then proto else value

names_protocol : List Bytes → Bool
names_protocol [] = false
names_protocol (word ∷ []) = false
names_protocol (word ∷ value ∷ more) =
    bytes_eq word (codes "proto") || bytes_eq word (codes "remote")

-- Whether a line names a protocol with the prefix.
unfoldable pub seen : Bytes → List (List Bytes) → Bool
unfolding names_protocol candidate
seen prefix [] = false
seen prefix (words ∷ lines) =
    (names_protocol words && has_prefix prefix (map lower (candidate words))) || seen prefix lines

-- `detectProtocols`
abbrev with_tcp : Bool → List String
with_tcp tcp =
    protocol_softether_tls
    ∷ protocol_sstp
    ∷ protocol_l2tp
    ∷ (if tcp then protocol_openvpn_tcp ∷ [] else [])

unfoldable pub detect_protocols : String → List String
unfolding seen words_of
detect_protocols profile =
    let lines = words_of (lines_of profile) in
    let tcp = seen (codes "tcp") lines in
    if seen (codes "udp") lines then protocol_openvpn_udp ∷ with_tcp tcp else with_tcp tcp
