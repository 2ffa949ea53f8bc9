-- ===== src/Vpn/Schedule.antt =====
-- The manager under any interleaving: its goroutines take turns at the critical sections. Between
-- them an `activate`, of which `switchMu` admits one at a time, holds the session that it has
-- connected and not yet installed or closed. `TestNode` is outside of `switchMu`: a speed test opens and
-- closes its own sessions at any time.
pub mod Ledger
pub mod Ownership
pub mod Coherence
pub mod Attempts
use proxygate.Prelude.{
  ℕ, suc, String, Bool, true, false, List, [], ◌∷◌, Option, none, some, contains, ◌==◌,
  if◌then◌else◌,
}
use proxygate.Model.{Node}
use proxygate.Vpn.State.{Selection, State, Error, Manager, World, close_session, database_after}
use proxygate.Store.{set_metadata}
use proxygate.Vpn.Sections.{
  set_state, set_last_health, set_automatic, set_direct_on, set_direct_off, begin_candidate,
  begin_automatic, end_automatic, install, finish_connect_attempt, begin_failover, record_failover,
  begin_close, end_close,
}

pub record System : Type 0 where
  pub world : World
  pub holding : Option ℕ
  -- The session that `Close` closed in its first section.
  pub first_closed : Option ℕ
  -- The sessions of the speed tests in progress.
  pub testing : List ℕ

-- A turn of one goroutine. `opens` is a driver that has started a session, `discards` an `activate`
-- that closes its session, since the health check failed or its context is done. `test_opens` is a driver
-- that has started a session for a speed test, `test_closes` a speed test that closes such a session;
-- `saves_metadata` is one of the statements that `install` makes after its section.
pub data Turn : Type 0 where
  sets_state : State → Option Error → Turn
  sets_health : ℕ → Turn
  sets_automatic enters_direct leaves_direct begins_automatic opens discards begins_close ends_close
        test_opens :
      Turn
  begins_candidate : String → Turn
  ends_automatic : ℕ → Turn
  installs : Node → String → Selection → ℕ → String → Turn
  finishes : ℕ → Option Error → Turn
  fails_over : Bool → Option ℕ → Error → Turn
  records_failover : ℕ → String → Error → Turn
  test_closes : ℕ → Turn
  saves_metadata : String → String → Turn

-- `activate` closes the session that `install` refuses.
settle : ℕ → World × Bool → System → System
settle session (w, true) s = record s { world = w; holding = none }
settle session (w, false) s = record s { world = close_session (some session) w; holding = none }

install_held : Option ℕ → Node → String → Selection → ℕ → String → System → System
install_held none node protocol selection expected forced s = s
install_held (some session) node protocol selection expected forced s =
    settle session (install session node protocol selection expected forced s.world) s

open_session : Option ℕ → System → System
open_session none s = record s {
  world = record s.world { next_session = suc s.world.next_session };
  holding = some s.world.next_session;
}
open_session (some session) s = s

unfoldable pub without : ℕ → List ℕ → List ℕ
without i [] = []
without i (x ∷ xs) = let rest = without i xs in if i == x then rest else x ∷ rest

-- A speed test closes a session of its own.
close_test : ℕ → System → System
unfolding contains without
close_test i s =
    if contains i s.testing
    then record s { world = close_session (some i) s.world; testing = without i s.testing }
    else s

unfoldable pub apply : Turn → System → System
unfolding settle install_held open_session close_test
apply (sets_state state error) s = record s { world = set_state state error s.world }
apply (sets_health now) s = record s { world = set_last_health now s.world }
apply sets_automatic s = record s { world = set_automatic s.world }
apply enters_direct s = record s { world = set_direct_on s.world }
apply leaves_direct s = record s { world = (set_direct_off s.world).0 }
apply begins_automatic s = record s { world = (begin_automatic s.world).0 }
apply opens s = open_session s.holding s
apply discards s = record s { world = close_session s.holding s.world; holding = none }
apply begins_close s = record s {
  world = begin_close s.world;
  first_closed = s.world.manager.session;
}
apply ends_close s = record s { world = end_close s.first_closed s.world }
apply (begins_candidate ip) s = record s { world = (begin_candidate ip s.world).0 }
apply (ends_automatic context) s = record s { world = end_automatic context s.world }
apply (installs node protocol selection expected forced) s =
    install_held s.holding node protocol selection expected forced s
apply (finishes attempt error) s = record s {
  world = (finish_connect_attempt attempt error s.world).0;
}
apply (fails_over fallback expected cause) s = record s {
  world = (begin_failover fallback expected cause s.world).0;
}
apply (records_failover now ip cause) s = record s { world = record_failover now ip cause s.world }
apply test_opens s = record s {
  world = record s.world { next_session = suc s.world.next_session };
  testing = s.world.next_session ∷ s.testing;
}
apply (test_closes i) s = close_test i s
apply (saves_metadata key value) s = record s {
  world = record s.world {
    database = database_after s.world.database (set_metadata s.world.database key value);
  };
}

unfoldable pub run : List Turn → System → System
run [] s = s
run (t ∷ ts) s = run ts (apply t s)
