-- ===== src/Examples/Connections.antt =====
-- Connecting, switching, pausing and resuming, and the DNS cache.
use proxygate.Prelude.{
  ℕ, ◌<◌, ◌≤◌, true, false, List, [], ◌∷◌, none, some, ok, ◌≡◌, ◌⊎◌, refl, contains, has_text,
}
use proxygate.Model.{Node}
use proxygate.Store.{nodes, order_by}
use proxygate.Vpn.State.{auto, manual, Error, text, World}
use proxygate.Vpn.Sections.{
  is_connect_attempt, set_state, install, install_now, is_stale_install, begin_automatic,
  end_automatic,
}
use proxygate.Vpn.Connect.{
  Activation, activate, connect_node, connect_loop, before_connect, validate_forced_protocol,
  try_protocol, proceed,
}
use proxygate.Vpn.Connect.Choice.{protocol_of, first_usable, connect_loop-first_usable}
use proxygate.Vpn.Connect.Transaction.{route, activate-failed}
use proxygate.Vpn.Switch.{switch_automatic, switch_loop}
use proxygate.Vpn.Switch.Ranked.{IsOn, switch_automatic-IsOn}
use proxygate.Vpn.Requests.{set_direct_mode, run_candidate}
use proxygate.Vpn.Requests.Resume.{IsResumed, resume-restores, IsSelected, run_candidate-IsSelected}
use proxygate.Vpn.DnsCache as Dns
use proxygate.Vpn.DnsCache.Capacity.{IsBounded, run-IsBounded}
use proxygate.Vpn.DnsCache.Freshness.{IsLookedUp, resolve_ipv4-IsLookedUp}
use proxygate.Examples.Data.{
  tokyo, idle_world, manual_world, reachable, unreachable, priority, alone, setting,
}

-- The first protocol of the list is not offered by the node.
connect_loop-first_usable_example :
    protocol_of (connect_loop reachable tokyo true priority [] idle_world).0
    ≡ first_usable reachable tokyo true priority
connect_loop-first_usable_example =
    connect_loop-first_usable reachable tokyo true priority [] idle_world λ p. refl

abbrev automatic_choice : Activation
automatic_choice = record {
  node = tokyo;
  selection = auto;
  require_health = false;
  expected_attempt = 0;
  forced_protocol = "";
}

-- A manager that runs with a node chosen by hand fails to connect automatically.
abbrev failed_world : World
failed_world = (activate unreachable priority alone automatic_choice manual_world).0

abbrev why : Error
why = text "sstp: refused; openvpn_tcp: refused"

activate_fails :
    activate unreachable priority alone automatic_choice manual_world ≡ (failed_world, some why)
unfolding activate connect_node connect_loop try_protocol proceed set_state has_text
    validate_forced_protocol
activate_fails = refl

activate-failed_example :
    let w1 =
      (connect_node unreachable priority tokyo false "" (before_connect false manual_world)).1 in
    (route failed_world.manager ≡ route (alone w1).manager)
    × (failed_world.database ≡ (alone w1).database)
    × ((i : ℕ)
        → manual_world.next_session ≤ i
        → i < w1.next_session
        → contains i failed_world.closed ≡ true)
activate-failed_example =
    activate-failed unreachable priority alone automatic_choice manual_world failed_world why
      (λ u i h. h) activate_fails

abbrev connected_world : World
connected_world = (activate reachable priority alone automatic_choice idle_world).0

activate_succeeds :
    activate reachable priority alone automatic_choice idle_world ≡ (connected_world, none)
unfolding activate connect_node connect_loop try_protocol proceed set_state install install_now
    is_stale_install has_text validate_forced_protocol
activate_succeeds = refl

abbrev switched_world : World
switched_world = (switch_automatic setting idle_world).0

switch_succeeds : switch_automatic setting idle_world ≡ (switched_world, none)
unfolding switch_automatic switch_loop activate connect_node connect_loop try_protocol proceed
    set_state install install_now is_stale_install begin_automatic end_automatic nodes has_text
    validate_forced_protocol order_by
switch_succeeds = refl

switch_automatic-IsOn_example :
    (ns : List Node) × (nodes idle_world.database (order_by setting.selection_mode) 10 0 ≡ ok ns)
    × IsOn ns switched_world
switch_automatic-IsOn_example =
    switch_automatic-IsOn setting idle_world switched_world refl switch_succeeds

resume-restores_example :
    IsResumed
      ("sstp" ∷ [])
      manual_world
      (set_direct_mode ("sstp" ∷ []) false (set_direct_mode ("sstp" ∷ []) true manual_world).world)
resume-restores_example = resume-restores ("sstp" ∷ []) manual_world refl refl

is_current : is_connect_attempt 1 manual_world ≡ true
unfolding is_connect_attempt
is_current = refl

run_candidate-IsSelected_example :
    let v = run_candidate reachable priority alone 0 1 tokyo manual "sstp" manual_world in
    IsSelected tokyo manual v
    ⊎ (route v.manager
        ≡ route (alone (connect_node reachable priority tokyo true "sstp" manual_world).1).manager)
run_candidate-IsSelected_example =
    run_candidate-IsSelected reachable priority alone 0 1 tokyo manual "sstp" manual_world
      (λ u i h. h) is_current

-- A name is looked up and asked for again before its answer expires.
abbrev dns_events : List Dns.Event
dns_events =
    Dns.asks none 10 "vpn.example|"
    ∷ Dns.finishes 12 13 "vpn.example|" (some (((192 ∷ 0 ∷ 2 ∷ 1 ∷ []) ∷ []), 60))
    ∷ []

run-IsBounded_example : IsBounded (Dns.run dns_events Dns.new_dns_session)
run-IsBounded_example = run-IsBounded dns_events

answers :
    (Dns.resolve_ipv4 none 20 "vpn.example|" (Dns.run dns_events Dns.new_dns_session)).0
    ≡ Dns.answered ((192 ∷ 0 ∷ 2 ∷ 1 ∷ []) ∷ [])
unfolding Dns.resolve_ipv4 Dns.run Dns.finish_lookup Dns.find_entry Dns.delete_entry has_text
answers = refl

resolve_ipv4-IsLookedUp_example :
    (e : Dns.Entry) × IsLookedUp dns_events ("vpn.example|", e)
    × (e.addresses ≡ (192 ∷ 0 ∷ 2 ∷ 1 ∷ []) ∷ [])
    × (20 < e.expires)
resolve_ipv4-IsLookedUp_example =
    resolve_ipv4-IsLookedUp dns_events 20 "vpn.example|" ((192 ∷ 0 ∷ 2 ∷ 1 ∷ []) ∷ []) answers
