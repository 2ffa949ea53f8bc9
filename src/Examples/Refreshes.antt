-- ===== src/Examples/Refreshes.antt =====
-- Refreshes, routing and speed tests.
use proxygate.Prelude.{true, false, [], ◌∷◌, none, some, ok, ◌≡◌, refl}
use proxygate.Prelude.Int.{pos}
use proxygate.Model.{Node}
use proxygate.Store.{Database, node, find_node, replace_nodes}
use proxygate.Store.Replace.{KeepsMeasurements}
use proxygate.Vpn.State.{text}
use proxygate.Vpn.Sections.{set_direct_on, enter_direct}
use proxygate.Vpn.Routing.{Names, dial_context, listen_packet, resolve_ipv4, preserved_ip}
use proxygate.Vpn.Routing.Tunnel.{IsContained, dial_context-IsContained}
use proxygate.Vpn.Routing.Refresh.{preserved_ip-refresh}
use proxygate.Vpn.SpeedTest.{Trial, body}
use proxygate.Examples.Data.{tokyo, manual_world, one_node, reachable, priority}

abbrev names : Names
names = record {
  split_host_port = λ address. ok ("192.0.2.1", "80");
  ip_literal = λ host. some true;
  join_host_port = λ host port. host;
  has_datagrams = λ session. true;
}

dial_context-IsContained_example :
    IsContained manual_world.manager (dial_context names "tcp4" "192.0.2.1:80" manual_world.manager)
    × IsContained manual_world.manager
        (listen_packet names "tcp4" "192.0.2.1:80" manual_world.manager)
    × IsContained manual_world.manager (resolve_ipv4 "vpn.example" manual_world.manager)
dial_context-IsContained_example =
    dial_context-IsContained names "tcp4" "192.0.2.1:80" "vpn.example" manual_world.manager

-- The new list does not have the node.
abbrev osaka : Node
osaka = record tokyo { ip = "203.0.113.8"; host_name = "public-vpn-2" }

abbrev refreshed : Database
refreshed = record one_node {
  nodes = record osaka { refreshed_at = 6 } ∷ tokyo ∷ [];
  last_refresh = some 6;
}

refreshes : replace_nodes one_node (osaka ∷ []) 6 "203.0.113.7" ≡ ok refreshed
unfolding replace_nodes find_node
refreshes = refl

found : node one_node "203.0.113.7" ≡ ok tokyo
unfolding node find_node
found = refl

refreshes_paused :
    replace_nodes one_node (osaka ∷ []) 6 (preserved_ip (set_direct_on manual_world).manager)
    ≡ ok refreshed
unfolding replace_nodes find_node preserved_ip set_direct_on enter_direct
refreshes_paused = refl

preserved_ip-refresh_example :
    (new : Node) × (node refreshed "203.0.113.7" ≡ ok new) × KeepsMeasurements tokyo new
preserved_ip-refresh_example =
    preserved_ip-refresh manual_world refreshed (osaka ∷ []) 6 tokyo refl refl refl found
      refreshes_paused

abbrev trial : Trial
trial = record {
  outside = reachable;
  priority = priority;
  download = λ session. body 1000 none false 4;
  rate = λ bytes elapsed. pos 2000;
  is_cancelled = false;
  store_error = λ e. text "database error";
}
