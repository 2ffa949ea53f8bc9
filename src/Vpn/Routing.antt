-- ===== src/Vpn/Routing.antt =====
-- What the other parts ask of the manager of internal/vpn/manager.go: `DialContext`, `ListenPacket`,
-- `ResolveIPv4`, the addresses of its node, and its status; and `NewManager`.
pub mod Tunnel
pub mod Refresh
use proxygate.Prelude.{
  ℕ, String, Bool, true, false, ◌&&◌, List, [], ◌∷◌, Option, none, some, Result, ok, err, codes,
  concat, if◌then◌else◌,
}
use proxygate.Model.{Node, RuntimeStatus}
use proxygate.Text.{has_prefix}
use proxygate.Store.{Database, StoreError, metadata}
use proxygate.Vpn.State.{
  Selection, auto, manual, selection_text, idle, state_text, Error, text, Manager,
}
use proxygate.Vpn.Sections.{is_set, error_text}

-- What a call comes to: the host's own network, a call of a session, an error, or a lookup of a name
-- by a session's resolver, whose answer, texts of addresses, decides on the rest.
pub data Outlet : Type 0 where
  host_network : String → String → Outlet
  session_call : ℕ → String → String → Outlet
  refused : Error → Outlet
  session_lookup : ℕ → String → (Result Error (List String) → Outlet) → Outlet

-- Go's `net.SplitHostPort`, `net.ParseIP` as to whether there is an IPv4 form, and
-- `net.JoinHostPort`; and which sessions carry datagrams.
pub record Names : Type 0 where
  pub split_host_port : String → Result Error (String × String)
  pub ip_literal : String → Option Bool
  pub join_host_port : String → String → String
  pub has_datagrams : ℕ → Bool

-- `dialSessionIPv4`
abbrev resolve_error : String → String → Error
resolve_error host why =
    text (concat ("resolve IPv4 address for " ∷ host ∷ " through VPN: " ∷ why ∷ []))

dial_resolved : Names → ℕ → String → String → Result Error (List String) → Outlet
dial_resolved s session host port (err e) = refused (resolve_error host (error_text e))
dial_resolved s session host port (ok []) = refused (resolve_error host "no A record")
dial_resolved s session host port (ok (a ∷ rest)) =
    session_call session "tcp4" (s.join_host_port a port)

dial_host : Names → ℕ → String → String → String → Option Bool → Outlet
unfolding dial_resolved
dial_host s session address host port (some true) = session_call session "tcp4" address
dial_host s session address host port (some false) =
    refused (text "the VPN probe target has no IPv4 address")
dial_host s session address host port none =
    session_lookup session host (dial_resolved s session host port)

dial_split : Names → ℕ → String → Result Error (String × String) → Outlet
unfolding dial_host
dial_split s session address (err e) = refused e
dial_split s session address (ok (host, port)) =
    dial_host s session address host port (s.ip_literal host)

dial_session_ipv4 : Names → ℕ → String → Outlet
unfolding dial_split
dial_session_ipv4 s session address = dial_split s session address (s.split_host_port address)

-- `DialContext`
is_tcp : String → Bool
is_tcp network = has_prefix (codes "tcp") (codes network)

dial_active : Option ℕ → Names → String → String → Outlet
unfolding is_tcp
dial_active none s network address = refused (text "no VPN session is active")
dial_active (some session) s network address =
    if is_tcp network
    then dial_session_ipv4 s session address
    else session_call session network address

pub dial_context : Names → String → String → Manager → Outlet
unfolding dial_active
dial_context s network address m =
    if m.direct_mode then host_network network address else dial_active m.session s network address

-- `ListenPacket`
listen_active : Option ℕ → Names → String → String → Outlet
listen_active none s network address = refused (text "no VPN session is active")
listen_active (some session) s network address =
    if s.has_datagrams session
    then session_call session network address
    else refused (text "active VPN session does not support datagrams")

pub listen_packet : Names → String → String → Manager → Outlet
unfolding listen_active
listen_packet s network address m =
    if m.direct_mode
    then host_network network address
    else listen_active m.session s network address

-- `ResolveIPv4`
resolve_active : Option ℕ → String → Outlet
resolve_active none host = refused (text "no VPN session is active")
resolve_active (some session) host = session_call session "ip4" host

pub resolve_ipv4 : String → Manager → Outlet
unfolding resolve_active
resolve_ipv4 host m =
    if m.direct_mode then host_network "ip4" host else resolve_active m.session host

-- `ActiveIP`
unfoldable pub active_ip : Manager → String
active_ip m = if is_set m.session then m.node.ip else ""

-- `PreservedIP`
is_manual : Selection → Bool
is_manual manual = true
is_manual auto = false

unfoldable pub preserved_ip : Manager → String
unfolding is_manual
preserved_ip m =
    if is_set m.session
    then m.node.ip
    else if m.connection_paused && is_manual m.selection
    then m.manual_ip
    else ""

-- `Status`
status_error : Option Error → Option Error → String
status_error (some e) refresh = error_text e
status_error none (some e) = error_text e
status_error none none = ""

pub status : Bool → ℕ → Option Error → Manager → RuntimeStatus
unfolding status_error active_ip
status refresh_running last_refresh refresh_error m = record {
  state = state_text m.state;
  connecting_ip = m.connecting_ip;
  selection = selection_text m.selection;
  active_ip = active_ip m;
  active_host_name = if is_set m.session then m.node.host_name else "";
  active_protocol = if is_set m.session then m.protocol else "";
  last_refresh = last_refresh;
  last_health_check = m.last_health;
  last_error = status_error m.last_err refresh_error;
  refresh_running = refresh_running;
  direct_mode = m.direct_mode;
  connection_paused = m.connection_paused;
}
