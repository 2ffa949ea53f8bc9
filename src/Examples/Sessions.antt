-- ===== src/Examples/Sessions.antt =====
-- Interleavings of the manager's goroutines.
use proxygate.Prelude.{true, List, [], ◌∷◌, none, some, refl, ◌≡◌, arith, contains}
use proxygate.Vpn.State.{auto, manual, canceled, text}
use proxygate.Vpn.Schedule.{
  System, Turn, opens, installs, enters_direct, fails_over, begins_candidate, finishes, test_opens,
  test_closes, run, apply,
}
use proxygate.Vpn.Schedule.Ownership.{IsSound, run-IsSound}
use proxygate.Vpn.Schedule.Coherence.{IsCoherent, run-IsCoherent}
use proxygate.Vpn.Schedule.Attempts.{IsPaused, run-enters_direct-IsPaused, overtaken_attempt}
use proxygate.Examples.Data.{tokyo, idle_system, manual_world}

-- A session replaces another one, and the new one fails while a speed test is in progress.
abbrev turns : List Turn
turns =
    opens
    ∷ test_opens
    ∷ installs tokyo "sstp" auto 0 ""
    ∷ opens
    ∷ installs tokyo "openvpn_tcp" auto 0 ""
    ∷ fails_over true none (text "VPN session ended")
    ∷ test_closes 1
    ∷ test_opens
    ∷ []

idle_system-IsSound : IsSound idle_system
unfolding contains
idle_system-IsSound = record {
  owned = record {
    active_open = λ i e. cc;
    held_open = λ i e. cc;
    apart = λ i e. cc;
    tests_open = λ i e. cc;
    tests_apart = λ i e. cc;
    closed_known = λ i e. cc;
    no_leak = λ i e. absurd (omega arith);
    once = tt;
  };
  first_known = λ i e. cc;
}

run-IsSound_example : IsSound (run turns idle_system)
run-IsSound_example = run-IsSound turns idle_system idle_system-IsSound

idle_system-IsCoherent : IsCoherent idle_system.world.manager
idle_system-IsCoherent = record {
  one_route = λ e. cc;
  paused_direct = λ e. cc;
  paused_attempt = λ e. refl;
  paused_automatic = λ e. refl;
  paused_target = λ e. refl;
  auto_ip = λ e. refl;
  auto_protocol = λ e. refl;
}

run-IsCoherent_example : IsCoherent (run turns idle_system).world.manager
run-IsCoherent_example = run-IsCoherent turns idle_system idle_system-IsCoherent

-- An automatic connection ends after direct mode was switched on.
run-enters_direct-IsPaused_example :
    IsPaused (run turns (apply enters_direct idle_system)).world.manager
run-enters_direct-IsPaused_example =
    run-enters_direct-IsPaused turns idle_system idle_system-IsCoherent
      (refl, (refl, (refl, (refl, (refl, (refl, (refl, (refl, tt))))))))

abbrev manual_system : System
manual_system = record { world = manual_world; holding = none; first_closed = none; testing = [] }

abbrev next_system : System
next_system = run (opens ∷ []) (apply (begins_candidate "203.0.113.8") manual_system)

overtaken_attempt_example :
    ((apply (installs tokyo "sstp" manual 1 "") next_system).world.manager
      ≡ next_system.world.manager)
    × ((apply (finishes 1 (some canceled)) next_system).world.manager ≡ next_system.world.manager)
overtaken_attempt_example =
    overtaken_attempt (opens ∷ []) manual_system "203.0.113.8" tokyo "sstp" manual ""
      (some canceled) (omega arith) (omega arith)
