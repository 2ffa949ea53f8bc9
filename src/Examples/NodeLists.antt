-- ===== src/Examples/NodeLists.antt =====
-- A node list of VPN Gate, and the runs of the theorems on it.
use proxygate.Prelude.{
  ℕ, String, Bool, true, false, List, [], ◌∷◌, none, some, Result, ok, err, ◌≡◌, refl, codes,
}
use proxygate.Prelude.Int.{pos}
use proxygate.Model.{Node}
use proxygate.Store.{Database, unique_ips}
use proxygate.VpnGate.{Reading, Response, fetch}
use proxygate.VpnGate.Rows.Parsed.{IsWalk}
use proxygate.VpnGate.Fetched.{IsFetched, fetch-IsFetched}
use proxygate.VpnGate.Refresher.{
  Refresher, Failure, fetch_failed, Round, cancelled, by_trigger, by_timer, refresh, run,
}
use proxygate.VpnGate.Refresher.Replacing.{IsKept, refresh-IsKept}
use proxygate.VpnGate.Refresher.Loop.{IsSettled, run-IsSettled}
use proxygate.Examples.Data.{tokyo}

abbrev row : String → String → List String
row ip score =
    "public-vpn" ∷ ip ∷ score ∷ "12" ∷ "5000" ∷ "Japan" ∷ "JP" ∷ "3" ∷ "1000" ∷ "40" ∷ "100000"
    ∷ "2weeks" ∷ "operator" ∷ "" ∷ []

-- A list with three rows, two of them for one address.
abbrev reading : Reading
reading = record {
  ipv4_literal = λ text. true;
  decode_padded = λ text. none;
  decode_raw = λ text. none;
  rows = λ text.
      ok ("HostName" ∷ [])
      ∷ ok (row "203.0.113.7" "900")
      ∷ ok (row "203.0.113.8" "100")
      ∷ ok (row "203.0.113.7" "950")
      ∷ ok ("*" ∷ [])
      ∷ [];
}

abbrev walk : List Node → List Node
walk ns = ns

walk-IsWalk : IsWalk walk
walk-IsWalk ns u = (u, λ ip. refl)

abbrev compile : String → Result String (Node → Result String Bool)
compile expression = ok (λ n. ok true)

abbrev response : Result String Response
response = ok (record { status_code = 200; status = "200 OK"; body = ok (codes "#HostName,IP") })

abbrev fetched : Result String (List Node)
fetched = fetch reading walk 7 compile response "true"

abbrev fetched_node : String → ℕ → Node
fetched_node ip score = record tokyo {
  host_name = "public-vpn";
  ip = ip;
  score = pos score;
  protocols = "softether_https" ∷ "sstp" ∷ "l2tp" ∷ [];
  refreshed_at = 7;
}

abbrev fetched_nodes : List Node
fetched_nodes = fetched_node "203.0.113.7" 950 ∷ fetched_node "203.0.113.8" 100 ∷ []

-- The row with the higher score stands for its address.
fetched-ok : fetched ≡ ok fetched_nodes
unfolding fetch proxygate.VpnGate.parse_csv proxygate.Text.has_prefix proxygate.VpnGate.collect
    proxygate.VpnGate.row_node proxygate.VpnGate.Profile.detect_protocols
    proxygate.VpnGate.Profile.detect_port proxygate.Text.split proxygate.Text.fields
    proxygate.VpnGate.put_best proxygate.Text.trim_space proxygate.VpnGate.filter_nodes
    proxygate.Text.parse_int proxygate.Text.signed
fetched-ok = refl

fetch-IsFetched_example : IsFetched reading 7 (compile "true") fetched_nodes
fetch-IsFetched_example =
    fetch-IsFetched reading walk 7 compile response "true" fetched_nodes walk-IsWalk fetched-ok

abbrev pub stored : Database
stored = record { nodes = tokyo ∷ []; last_refresh = none; metadata = []; available = true }

abbrev pub idle_refresher : Refresher
idle_refresher = record {
  locked = false;
  running = false;
  last_err = none;
  triggered = true;
  database = stored;
}

failed_fetch : (refresh (err "timeout") 9 "" idle_refresher).0.0 ≡ some (fetch_failed "timeout")
unfolding refresh proxygate.VpnGate.Refresher.begin_refresh
    proxygate.VpnGate.Refresher.finish_refresh
failed_fetch = refl

refresh-IsKept_example :
    IsKept idle_refresher (fetch_failed "timeout") (refresh (err "timeout") 9 "" idle_refresher)
refresh-IsKept_example =
    refresh-IsKept (err "timeout") 9 "" idle_refresher (fetch_failed "timeout") failed_fetch

abbrev rounds : List Round
rounds =
    by_trigger (err "timeout") 8 "" ∷ by_timer (ok fetched_nodes) 9 "203.0.113.7" ∷ cancelled ∷ []

idle_refresher-IsSettled : IsSettled idle_refresher
unfolding unique_ips proxygate.Store.find_node
idle_refresher-IsSettled = record {
  idle = record { unlocked = refl; not_running = refl };
  no_twins = refl;
}

run-IsSettled_example : IsSettled (run rounds idle_refresher)
run-IsSettled_example = run-IsSettled rounds idle_refresher idle_refresher-IsSettled
