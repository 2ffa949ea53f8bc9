-- ===== src/VpnGate.antt =====
-- internal/vpngate/client.go: the node list that VPN Gate publishes, read and filtered. The refreshing
-- of the database with it is in `VpnGate.Refresher`.
pub mod Profile
pub mod Rows
pub mod Columns
pub mod Fetched
pub mod Refresher
use proxygate.Prelude.{
  ℕ, ◌+◌, ◌*◌, ◌^◌, String, Bool, true, false, ◌&&◌, ◌||◌, not, List, [], ◌∷◌, ◌++◌, Option, none,
  some, Result, ok, err, Bytes, take, drop, length, codes, concat, str_eq, ltb, leb, ◌==◌,
  if◌then◌else◌,
}
use proxygate.Prelude.Int.{pos, ltb_ℤ}
use proxygate.Model.{Node}
use proxygate.Text.{has_prefix, parse_int, trim_space}
use proxygate.VpnGate.Profile.{decode_openvpn_config, detect_port, detect_protocols}

-- Go's `net.ParseIP` as to IPv4, `base64`'s two encodings, and `encoding/csv`: the outcome of every
-- `Read` before the one that ends the text.
pub record Reading : Type 0 where
  pub ipv4_literal : String → Bool
  pub decode_padded : String → Option String
  pub decode_raw : String → Option String
  pub rows : Bytes → List (Result String (List String))

-- `strings.Index`, the text from there on.
unfoldable pub from_index : Bytes → Bytes → Option Bytes
from_index wanted [] = if has_prefix wanted [] then some [] else none
from_index wanted (b ∷ bs) =
    let rest = from_index wanted bs in if has_prefix wanted (b ∷ bs) then some (b ∷ bs) else rest

or_else : Option Bytes → Option Bytes → Option Bytes
or_else none later = later
or_else (some bs) later = some bs

abbrev without_hash : Bytes → Bytes
without_hash [] = []
without_hash (b ∷ bs) = if b == 35 then bs else b ∷ bs

-- `parseRecord` on the fourteen columns of a row and the rest of them.
abbrev profile_of : Reading → List String → String
profile_of r [] = ""
profile_of r (value ∷ more) = decode_openvpn_config r.decode_padded r.decode_raw value

parsed_node : Reading → List String → ℕ → Option Node
unfolding decode_openvpn_config
parsed_node r
      (host ∷ ip ∷ score ∷ ping ∷ speed ∷ long ∷ short ∷ sessions ∷ uptime ∷ users ∷ traffic ∷ log
        ∷ operator ∷ message ∷ more)
      now =
    let profile = profile_of r more in
    if not (r.ipv4_literal (trim_space ip))
    then none
    else some (record {
      host_name = trim_space host;
      ip = trim_space ip;
      port = detect_port profile;
      score = parse_int (codes (trim_space score));
      ping_ms = parse_int (codes (trim_space ping));
      speed_bps = parse_int (codes (trim_space speed));
      country_long = long;
      country_short = short;
      sessions = parse_int (codes (trim_space sessions));
      uptime_ms = parse_int (codes (trim_space uptime));
      total_users = parse_int (codes (trim_space users));
      total_traffic = parse_int (codes (trim_space traffic));
      log_type = log;
      operator = operator;
      message = message;
      openvpn_config = profile;
      protocols = detect_protocols profile;
      measured_bps = pos 0;
      measured_at = 0;
      speed_test_failed = false;
      last_failure = 0;
      failure_reason = "";
      refreshed_at = now;
    })
parsed_node r columns now = none

-- The node of a row, none for one that is passed over: too short, a line of marks, no IPv4 address,
-- or no protocol.
is_marked : List String → Bool
is_marked [] = false
is_marked (column ∷ columns) = has_prefix (codes "*") (codes column)

with_protocol : Option Node → Option Node
with_protocol none = none
with_protocol (some n) = if length n.protocols == 0 then none else some n

unfoldable pub row_node : Reading → ℕ → List String → Option Node
unfolding parsed_node is_marked with_protocol
row_node r now columns =
    if leb 14 (length columns) && not (is_marked columns)
    then with_protocol (parsed_node r columns now)
    else none

-- The map of the nodes by their IP, in the order of the first row of each.
unfoldable pub put_best : Node → List Node → List Node
put_best n [] = n ∷ []
put_best n (m ∷ ms) =
    let rest = put_best n ms in
    if str_eq m.ip n.ip then (if ltb_ℤ m.score n.score then n else m) ∷ ms else m ∷ rest

abbrev put_row : Option Node → List Node → List Node
put_row none unique = unique
put_row (some n) unique = put_best n unique

unfoldable pub collect :
    Reading → ℕ → List Node → List (Result String (List String)) → Result String (List Node)
collect r now unique [] = ok unique
collect r now unique (err e ∷ rows) = err (concat ("read VPN Gate CSV row: " ∷ e ∷ []))
collect r now unique (ok columns ∷ rows) =
    collect r now (put_row (row_node r now columns) unique) rows

-- The nodes in the order in which Go walks the map.
some_nodes : (List Node → List Node) → Result String (List Node) → Result String (List Node)
some_nodes walk (err e) = err e
some_nodes walk (ok []) = err "VPN Gate CSV contains no valid nodes"
some_nodes walk (ok (n ∷ ns)) = ok (walk (n ∷ ns))

-- The first row is the header.
after_header :
    Reading
    → (List Node → List Node)
    → ℕ
    → List (Result String (List String))
    → Result String (List Node)
unfolding some_nodes
after_header r walk now [] = err "read VPN Gate CSV header: EOF"
after_header r walk now (err e ∷ rows) = err (concat ("read VPN Gate CSV header: " ∷ e ∷ []))
after_header r walk now (ok header ∷ rows) = some_nodes walk (collect r now [] rows)

parse_payload : Reading → (List Node → List Node) → ℕ → Option Bytes → Result String (List Node)
unfolding after_header
parse_payload r walk now none = err "VPN Gate CSV header was not found"
parse_payload r walk now (some text) = after_header r walk now (r.rows (without_hash text))

-- `ParseCSV`
unfoldable pub parse_csv : Reading → (List Node → List Node) → Bytes → ℕ → Result String (List Node)
unfolding parse_payload from_index or_else
parse_csv r walk text now =
    parse_payload r walk now
      (or_else (from_index (codes "#HostName,") text) (from_index (codes "HostName,") text))

-- The rest of `Fetch`: the filter, on every node.
keep : Node → Result String Bool → Result String (List Node) → Result String (List Node)
keep n (err e) rest = err (concat ("filter node " ∷ n.ip ∷ ": " ∷ e ∷ []))
keep n (ok b) (err e) = err e
keep n (ok b) (ok kept) = ok (if b then n ∷ kept else kept)

unfoldable pub filter_nodes : (Node → Result String Bool) → List Node → Result String (List Node)
unfolding keep
filter_nodes matches [] = ok []
filter_nodes matches (n ∷ ns) = keep n (matches n) (filter_nodes matches ns)

abbrev pub max_response_size : ℕ
max_response_size = 32 * 2 ^ 20

-- What the request brings: the status, and the body or the error of reading it.
pub record Response : Type 0 where
  pub status_code : ℕ
  pub status : String
  pub body : Result String Bytes

apply_filter :
    Result String (Node → Result String Bool)
    → Result String (List Node)
    → Result String (List Node)
apply_filter compiled (err e) = err e
apply_filter (err e) (ok nodes) = err e
apply_filter (ok matches) (ok nodes) = filter_nodes matches nodes

parse_body :
    Reading
    → (List Node → List Node)
    → ℕ
    → Result String (Node → Result String Bool)
    → Result String Bytes
    → Result String (List Node)
unfolding apply_filter
parse_body r walk now compiled (err e) = err (concat ("read VPN Gate CSV: " ∷ e ∷ []))
parse_body r walk now compiled (ok text) =
    let text = take (max_response_size + 1) text in
    if ltb max_response_size (length text)
    then err "VPN Gate CSV exceeds 32 MiB"
    else apply_filter compiled (parse_csv r walk text now)

-- `Fetch`, for the outcome of the request and `CompileFilter` of the expression.
unfoldable pub fetch :
    Reading
    → (List Node → List Node)
    → ℕ
    → (String → Result String (Node → Result String Bool))
    → Result String Response
    → String
    → Result String (List Node)
unfolding parse_body
fetch r walk now compile (err e) expression = err (concat ("download VPN Gate CSV: " ∷ e ∷ []))
fetch r walk now compile (ok response) expression =
    if response.status_code == 200
    then parse_body r walk now (compile expression) response.body
    else err (concat ("download VPN Gate CSV: unexpected HTTP status " ∷ response.status ∷ []))
