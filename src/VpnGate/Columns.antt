-- ===== src/VpnGate/Columns.antt =====
-- What the columns of a row give its node.
use proxygate.Prelude.{
  ℕ, String, true, ◌&&◌, not, List, [], ◌∷◌, Option, none, some, Result, ok, err, ◌≡◌, ◌≢◌, arith,
  All, Bool-cases, inl, inr, codes, length, leb, ◌==◌,
}
use proxygate.Model.{Node}
use proxygate.Text.{trim_space}
use proxygate.Text.Numbers.{parse_int-IsInt64, IsInt64}
use proxygate.VpnGate.{Reading, row_node, parsed_node, with_protocol, is_marked, profile_of}
use proxygate.VpnGate.Profile.{detect_protocols}
use proxygate.VpnGate.Profile.Bounds.{IsPort, IsKnown, detect_port-IsPort, detect_protocols-IsKnown}
use proxygate.VpnGate.Rows.{nodes_of, append_node}

-- What the rest of the program relies on in a node: an IPv4 address, a port, protocols that the
-- settings know, and numbers of 64 bits.
pub record IsSound (r : Reading) (n : Node) : Type 0 where
  pub address : r.ipv4_literal n.ip ≡ true
  pub port : IsPort n.port
  pub protocols : IsKnown n.protocols
  pub usable : n.protocols ≢ []
  pub score : IsInt64 n.score
  pub ping : IsInt64 n.ping_ms
  pub speed : IsInt64 n.speed_bps
  pub sessions : IsInt64 n.sessions
  pub uptime : IsInt64 n.uptime_ms
  pub users : IsInt64 n.total_users
  pub traffic : IsInt64 n.total_traffic

abbrev IsSoundOrNone : Reading → Option Node → Type 0
IsSoundOrNone r none = Unit {0}
IsSoundOrNone r (some n) = IsSound r n

usable_protocols : (profile : String) → detect_protocols profile ≢ []
unfolding detect_protocols
usable_protocols profile e = ground (arith, e)

parsed_node-IsSound :
    (r : Reading) (now : ℕ) (columns : List String) → IsSoundOrNone r (parsed_node r columns now)
unfolding parsed_node
parsed_node-IsSound r now
      (host ∷ ip ∷ score ∷ ping ∷ speed ∷ long ∷ short ∷ sessions ∷ uptime ∷ users ∷ traffic ∷ log
        ∷ operator ∷ message ∷ more) =
    elim (Bool-cases (r.ipv4_literal (trim_space ip))) [
      | inr e ↦ rw e tt
      | inl e ↦ rw e (record {
        address = e;
        port = detect_port-IsPort (profile_of r more);
        protocols = detect_protocols-IsKnown (profile_of r more);
        usable = usable_protocols (profile_of r more);
        score = parse_int-IsInt64 (codes (trim_space score));
        ping = parse_int-IsInt64 (codes (trim_space ping));
        speed = parse_int-IsInt64 (codes (trim_space speed));
        sessions = parse_int-IsInt64 (codes (trim_space sessions));
        uptime = parse_int-IsInt64 (codes (trim_space uptime));
        users = parse_int-IsInt64 (codes (trim_space users));
        traffic = parse_int-IsInt64 (codes (trim_space traffic));
      })
    ]
parsed_node-IsSound r now columns = tt

with_protocol-IsSound :
    (r : Reading) (o : Option Node) → IsSoundOrNone r o → IsSoundOrNone r (with_protocol o)
unfolding with_protocol
with_protocol-IsSound r none h = tt
with_protocol-IsSound r (some n) h = elim (Bool-cases (length n.protocols == 0)) [
  | inl e ↦ rw e tt
  | inr e ↦ rw e h
]

row_node-IsSound :
    (r : Reading) (now : ℕ) (columns : List String) → IsSoundOrNone r (row_node r now columns)
unfolding row_node
row_node-IsSound r now columns =
    elim (Bool-cases (leb 14 (length columns) && not (is_marked columns))) [
      | inr e ↦ rw e tt
      | inl e ↦
          rw e (
            with_protocol-IsSound r (parsed_node r columns now) (parsed_node-IsSound r now columns))
    ]

append_node-IsSound :
    (r : Reading) (o : Option Node) (ns : List Node)
    → IsSoundOrNone r o
    → All (IsSound r) ns
    → All (IsSound r) (append_node o ns)
append_node-IsSound r none ns h k = k
append_node-IsSound r (some n) ns h k = (h, k)

pub nodes_of-IsSound :
    (r : Reading) (now : ℕ) (rows : List (Result String (List String)))
    → All (IsSound r) (nodes_of r now rows)
nodes_of-IsSound r now [] = tt
nodes_of-IsSound r now (err e ∷ rows) = nodes_of-IsSound r now rows
nodes_of-IsSound r now (ok columns ∷ rows) =
    append_node-IsSound r (row_node r now columns) (nodes_of r now rows)
      (row_node-IsSound r now columns) (nodes_of-IsSound r now rows)
