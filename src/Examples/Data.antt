-- ===== src/Examples/Data.antt =====
-- A node, a manager and what surrounds them, for the examples.
use proxygate.Prelude.{String, true, false, List, [], ◌∷◌, none, some}
use proxygate.Prelude.Int.{pos}
use proxygate.Model.{Node}
use proxygate.Store.{Database}
use proxygate.Vpn.State.{auto, manual, idle, connected, text, Manager, World}
use proxygate.Vpn.Connect.{Outside}
use proxygate.Vpn.Switch.{Setting}
use proxygate.Vpn.Schedule.{System}

abbrev pub tokyo : Node
tokyo = record {
  host_name = "public-vpn-1";
  ip = "203.0.113.7";
  port = 443;
  score = pos 900;
  ping_ms = pos 12;
  speed_bps = pos 5000;
  country_long = "Japan";
  country_short = "JP";
  sessions = pos 3;
  uptime_ms = pos 1000;
  total_users = pos 40;
  total_traffic = pos 100000;
  log_type = "2weeks";
  operator = "operator";
  message = "";
  openvpn_config = "";
  protocols = "sstp" ∷ "openvpn_tcp" ∷ [];
  measured_bps = pos 0;
  measured_at = 0;
  speed_test_failed = false;
  last_failure = 0;
  failure_reason = "";
  refreshed_at = 5;
}

abbrev pub no_node : Node
no_node = record tokyo { ip = ""; host_name = ""; protocols = [] }

abbrev pub idle_manager : Manager
idle_manager = record {
  closing = false;
  session = none;
  node = no_node;
  protocol = "";
  selection = auto;
  manual_ip = "";
  manual_protocol = "";
  state = idle;
  last_err = none;
  direct_mode = false;
  connection_paused = false;
  connecting_ip = "";
  cancel_connect = none;
  cancel_automatic = none;
  connect_attempt = 0;
  generation = 0;
  last_health = 0;
}

abbrev pub one_node : Database
one_node = record { nodes = tokyo ∷ []; last_refresh = some 5; metadata = []; available = true }

abbrev pub idle_world : World
idle_world = record {
  manager = idle_manager;
  database = one_node;
  next_session = 0;
  closed = [];
  next_context = 0;
  cancelled = [];
}

abbrev pub idle_system : System
idle_system = record { world = idle_world; holding = none; first_closed = none; testing = [] }

-- The node was chosen by hand, and session 0 is up.
abbrev pub manual_world : World
manual_world = record idle_world {
  next_session = 1;
  manager = record idle_manager {
    session = some 0;
    node = tokyo;
    protocol = "sstp";
    selection = manual;
    manual_ip = "203.0.113.7";
    manual_protocol = "sstp";
    state = connected;
    connect_attempt = 1;
    generation = 1;
  };
}

-- Every driver connects here, and none does in `unreachable`.
abbrev pub reachable : Outside
reachable = record {
  ipv4_literal = λ ip. true;
  drivers = "sstp" ∷ "openvpn_tcp" ∷ [];
  start = λ protocol. none;
  probe = λ protocol. none;
  done_before = λ protocol. none;
  done_after = none;
  now = 9;
}

abbrev pub unreachable : Outside
unreachable = record reachable { start = λ protocol. some (text "refused") }

abbrev pub priority : List String
priority = "openvpn_udp" ∷ "sstp" ∷ "openvpn_tcp" ∷ []

-- Nothing else happens while a connection is made.
abbrev pub alone : World → World
alone w = w

abbrev pub setting : Setting
setting = record {
  priority = priority;
  selection_mode = "speed";
  fallback_to_direct = true;
  store_error = λ e. text "database error";
  round =
      λ n. record { outside = reachable; others = alone; stop_before = none; stop_after = none };
}
