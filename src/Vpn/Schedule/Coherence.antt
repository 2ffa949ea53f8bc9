-- ===== src/Vpn/Schedule/Coherence.antt =====
-- The fields of the manager agree with one another after every turn.
use proxygate.Prelude.{
  ℕ, String, Bool, true, false, List, [], ◌∷◌, Option, none, some, ◌≡◌, refl, arith,
}
use proxygate.Model.{Node}
use proxygate.Vpn.State.{Selection, auto, Error, Manager, World}
use proxygate.Vpn.Sections.{
  set_state, set_last_health, set_automatic, set_direct_on, set_direct_off, begin_candidate,
  begin_automatic, end_automatic, install, finish_connect_attempt, begin_failover, record_failover,
  begin_close, end_close,
}
use proxygate.Vpn.Schedule.{
  settle, install_held, System, Turn, installs, opens, discards, fails_over, finishes,
  begins_candidate, sets_state, sets_health, sets_automatic, enters_direct, leaves_direct,
  begins_automatic, begins_close, ends_automatic, records_failover, ends_close, saves_metadata,
  test_opens, test_closes, close_test, apply, run,
}

pub record IsCoherent (m : Manager) : Type 0 where
  pub one_route : m.direct_mode ≡ true → m.session ≡ none
  pub paused_direct : m.connection_paused ≡ true → m.direct_mode ≡ true
  pub paused_attempt : m.connection_paused ≡ true → m.cancel_connect ≡ none
  pub paused_automatic : m.connection_paused ≡ true → m.cancel_automatic ≡ none
  pub paused_target : m.connection_paused ≡ true → m.connecting_ip ≡ ""
  pub auto_ip : m.selection ≡ auto → m.manual_ip ≡ ""
  pub auto_protocol : m.selection ≡ auto → m.manual_protocol ≡ ""

module _ (w : World) (h : IsCoherent w.manager) where
  set_direct_on-IsCoherent : IsCoherent (set_direct_on w).manager
  unfolding set_direct_on
  set_direct_on-IsCoherent = ground arith

  set_direct_off-IsCoherent : IsCoherent (set_direct_off w).0.manager
  unfolding set_direct_off
  set_direct_off-IsCoherent = ground arith

  begin_candidate-IsCoherent : (ip : String) → IsCoherent (begin_candidate ip w).0.manager
  unfolding begin_candidate
  begin_candidate-IsCoherent ip = ground arith

  begin_automatic-IsCoherent : IsCoherent (begin_automatic w).0.manager
  unfolding begin_automatic
  begin_automatic-IsCoherent = ground arith

  install-IsCoherent :
      (session : ℕ) (node : Node) (protocol : String) (selection : Selection) (expected : ℕ)
      (forced : String)
      → IsCoherent (install session node protocol selection expected forced w).0.manager
  unfolding install
  install-IsCoherent session node protocol selection expected forced = ground arith

  finish_connect_attempt-IsCoherent :
      (attempt : ℕ) (error : Option Error)
      → IsCoherent (finish_connect_attempt attempt error w).0.manager
  unfolding finish_connect_attempt
  finish_connect_attempt-IsCoherent attempt error = ground arith

  begin_failover-IsCoherent :
      (fallback : Bool) (expected : Option ℕ) (cause : Error)
      → IsCoherent (begin_failover fallback expected cause w).0.manager
  unfolding begin_failover
  begin_failover-IsCoherent fallback expected cause = ground arith

  begin_close-IsCoherent : IsCoherent (begin_close w).manager
  unfolding begin_close
  begin_close-IsCoherent = ground arith

  end_close-IsCoherent : (first : Option ℕ) → IsCoherent (end_close first w).manager
  unfolding end_close
  end_close-IsCoherent first = ground arith

settle-manager :
    (i : ℕ) (r : World × Bool) (s : System) → (settle i r s).world.manager ≡ r.0.manager
unfolding settle
settle-manager i (w, true) s = refl
settle-manager i (w, false) s = refl

install_held-IsCoherent :
    (held : Option ℕ) (node : Node) (protocol : String) (selection : Selection) (expected : ℕ)
    (forced : String) (s : System)
    → IsCoherent s.world.manager
    → IsCoherent (install_held held node protocol selection expected forced s).world.manager
unfolding install_held
install_held-IsCoherent none node protocol selection expected forced s h = h
install_held-IsCoherent (some i) node protocol selection expected forced s h =
    rw (settle-manager i (install i node protocol selection expected forced s.world) s)
      (install-IsCoherent s.world h i node protocol selection expected forced)

-- After every turn: direct routing means that no session is active, paused connections are routed
-- directly with no attempt and no automatic selection registered, and a manual choice is kept only
-- while the selection is manual.
pub apply-IsCoherent :
    (t : Turn) (s : System) → IsCoherent s.world.manager → IsCoherent (apply t s).world.manager
unfolding apply
apply-IsCoherent (sets_state state error) s h = unfold set_state in ground arith
apply-IsCoherent (sets_health now) s h = unfold set_last_health in ground arith
apply-IsCoherent sets_automatic s h = unfold set_automatic in ground arith
apply-IsCoherent enters_direct s h = set_direct_on-IsCoherent s.world h
apply-IsCoherent leaves_direct s h = set_direct_off-IsCoherent s.world h
apply-IsCoherent begins_automatic s h = begin_automatic-IsCoherent s.world h
apply-IsCoherent opens s h = ground arith
apply-IsCoherent discards s h = ground arith
apply-IsCoherent begins_close s h = begin_close-IsCoherent s.world h
apply-IsCoherent ends_close s h = end_close-IsCoherent s.world h s.first_closed
apply-IsCoherent (begins_candidate ip) s h = begin_candidate-IsCoherent s.world h ip
apply-IsCoherent (ends_automatic context) s h = unfold end_automatic in ground arith
apply-IsCoherent (installs node protocol selection expected forced) s h =
    install_held-IsCoherent s.holding node protocol selection expected forced s h
apply-IsCoherent (finishes attempt error) s h =
    finish_connect_attempt-IsCoherent s.world h attempt error
apply-IsCoherent (fails_over fallback expected cause) s h =
    begin_failover-IsCoherent s.world h fallback expected cause
apply-IsCoherent (records_failover now ip cause) s h = unfold record_failover in ground arith
apply-IsCoherent (saves_metadata key value) s h = ground arith
apply-IsCoherent test_opens s h = ground arith
apply-IsCoherent (test_closes i) s h = unfold close_test in ground arith

-- From a coherent start, after any interleaving of the manager's goroutines: in direct mode there
-- is no VPN session; while connections are paused the mode is direct, neither a connection attempt nor an
-- automatic selection is registered, and no node is named as the one being connected to; and an
-- automatic selection remembers no manual node or protocol. The word that the status shows for the
-- state is not spoken of: an attempt in progress when the pause comes may still set it.
pub run-IsCoherent :
    (ts : List Turn) (s : System) → IsCoherent s.world.manager → IsCoherent (run ts s).world.manager
unfolding run
run-IsCoherent [] s h = h
run-IsCoherent (t ∷ ts) s h = run-IsCoherent ts (apply t s) (apply-IsCoherent t s h)
