-- ===== src/Vpn/Schedule/Ownership.antt =====
-- Who owns the VPN sessions: the active one, the one `activate` in progress, and the speed tests.
use proxygate.Prelude.{
  ℕ, String, Bool, true, List, [], ◌∷◌, Option, none, some, ◌≡◌, inl, inr, refl, arith, contains,
  Bool-cases, ◌||◌,
}
use proxygate.Model.{Node}
use proxygate.Vpn.State.{Selection, Error, World}
use proxygate.Vpn.Sections.{
  is_other_session, is_stale_install, set_state, set_last_health, set_automatic, set_direct_on,
  set_direct_off, begin_candidate, begin_automatic, end_automatic, install, finish_connect_attempt,
  begin_failover, record_failover, begin_close, end_close,
}
use proxygate.Vpn.Schedule.{
  System, Turn, installs, opens, discards, fails_over, finishes, begins_candidate, sets_state,
  sets_health, sets_automatic, enters_direct, leaves_direct, begins_automatic, begins_close,
  ends_automatic, records_failover, ends_close, saves_metadata, test_opens, test_closes, close_test,
  apply, run, settle, install_held, open_session,
}
use proxygate.Vpn.Schedule.Ledger.{
  Ledger, ledger, Move, stay, release, open_next, discard, hand_over, open_test, close_own_test,
  IsOwned, Move-IsOwned, Move-closed,
}

module _ (w : World) (held first : Option ℕ) (tests : List ℕ) where
  abbrev at : World → Ledger
  at v = ledger (record { world = v; holding = held; first_closed = first; testing = tests })

  set_direct_on-Move : Move (at w) (at (set_direct_on w))
  unfolding set_direct_on
  set_direct_on-Move = elim (Bool-cases w.manager.connection_paused) [
    | inl e ↦ stay (ground arith)
    | inr e ↦ release (ground arith)
  ]

  set_direct_off-Move : Move (at w) (at (set_direct_off w).0)
  unfolding set_direct_off
  set_direct_off-Move = stay (ground arith)

  begin_candidate-Move : (ip : String) → Move (at w) (at (begin_candidate ip w).0)
  unfolding begin_candidate
  begin_candidate-Move ip = stay (ground arith)

  begin_automatic-Move : Move (at w) (at (begin_automatic w).0)
  unfolding begin_automatic
  begin_automatic-Move = stay (ground arith)

  finish_connect_attempt-Move :
      (attempt : ℕ) (error : Option Error)
      → Move (at w) (at (finish_connect_attempt attempt error w).0)
  unfolding finish_connect_attempt
  finish_connect_attempt-Move attempt error = stay (ground arith)

  begin_failover-Move :
      (fallback : Bool) (expected : Option ℕ) (cause : Error)
      → Move (at w) (at (begin_failover fallback expected cause w).0)
  unfolding begin_failover
  begin_failover-Move fallback expected cause =
      elim (Bool-cases
        (is_other_session expected w.manager.session || w.manager.connection_paused)) [
          | inl e ↦ stay (ground arith)
          | inr e ↦ elim (Bool-cases fallback) [
            | inl f ↦ release (ground arith)
            | inr f ↦ stay (ground arith)
          ]
        ]

  begin_close-Move : Move (at w) (at (begin_close w))
  unfolding begin_close
  begin_close-Move = release (ground arith)

install_held-Move :
    (w : World) (held first : Option ℕ) (tests : List ℕ) (node : Node) (protocol : String)
    (selection : Selection) (expected : ℕ) (forced : String)
    → let s : System = record {
      world = w;
      holding = held;
      first_closed = first;
      testing = tests;
    } in
      Move (ledger s) (ledger (install_held held node protocol selection expected forced s))
unfolding install_held install settle
install_held-Move w none first tests node protocol selection expected forced = stay refl
install_held-Move w (some i) first tests node protocol selection expected forced =
    elim (Bool-cases (is_stale_install expected w)) [
      | inl e ↦ discard (ground arith)
      | inr e ↦ hand_over i refl (ground arith)
    ]

-- The system's session that `Close` closed first is closed.
pub record IsSound (s : System) : Type 0 where
  pub owned : IsOwned (ledger s)
  pub first_known : (i : ℕ) → s.first_closed ≡ some i → contains i s.world.closed ≡ true

open_session-Move :
    (w : World) (held first : Option ℕ) (tests : List ℕ)
    → let s : System = record {
      world = w;
      holding = held;
      first_closed = first;
      testing = tests;
    } in
      Move (ledger s) (ledger (open_session held s))
unfolding open_session
open_session-Move w none first tests = open_next refl refl
open_session-Move w (some i) first tests = stay refl

-- The last section of `Close`: a late session is not the first one, since that is closed.
end_close-Move_late :
    (w : World) (held first : Option ℕ) (tests : List ℕ)
    → IsSound (record { world = w; holding = held; first_closed = first; testing = tests })
    → (active : Option ℕ) → w.manager.session ≡ active
    → Move (at w held first tests w) (at w held first tests (end_close first w))
unfolding end_close
end_close-Move_late w held first tests h none e = release (ground arith)
end_close-Move_late w held first tests h (some i) e =
    release (ground (arith, h.owned.active_open i e, h.first_known i))

close_test-Move : (i : ℕ) (s : System) → Move (ledger s) (ledger (close_test i s))
unfolding close_test
close_test-Move i s = elim (Bool-cases (contains i s.testing)) [
  | inl e ↦ close_own_test i e (ground (arith, e))
  | inr e ↦ stay (ground (arith, e))
]

close_test-first : (i : ℕ) (s : System) → (close_test i s).first_closed ≡ s.first_closed
unfolding close_test
close_test-first i s = ground arith

-- A turn other than the last section of `Close` moves sessions in one of the seven ways.
apply-Move : (t : Turn) (s : System) → IsSound s → Move (ledger s) (ledger (apply t s))
unfolding apply
apply-Move (sets_state state error) s h = unfold set_state in stay (ground arith)
apply-Move (sets_health now) s h = unfold set_last_health in stay (ground arith)
apply-Move sets_automatic s h = unfold set_automatic in stay (ground arith)
apply-Move enters_direct s h = set_direct_on-Move s.world s.holding s.first_closed s.testing
apply-Move leaves_direct s h = set_direct_off-Move s.world s.holding s.first_closed s.testing
apply-Move begins_automatic s h = begin_automatic-Move s.world s.holding s.first_closed s.testing
apply-Move opens s h = open_session-Move s.world s.holding s.first_closed s.testing
apply-Move discards s h = discard (ground arith)
apply-Move begins_close s h = begin_close-Move s.world s.holding s.first_closed s.testing
apply-Move ends_close s h =
    end_close-Move_late s.world s.holding s.first_closed s.testing h s.world.manager.session refl
apply-Move (begins_candidate ip) s h =
    begin_candidate-Move s.world s.holding s.first_closed s.testing ip
apply-Move (ends_automatic context) s h = unfold end_automatic in stay (ground arith)
apply-Move (installs node protocol selection expected forced) s h =
    install_held-Move s.world s.holding s.first_closed s.testing node protocol selection expected
      forced
apply-Move (finishes attempt error) s h =
    finish_connect_attempt-Move s.world s.holding s.first_closed s.testing attempt error
apply-Move (fails_over fallback expected cause) s h =
    begin_failover-Move s.world s.holding s.first_closed s.testing fallback expected cause
apply-Move (records_failover now ip cause) s h = unfold record_failover in stay (ground arith)
apply-Move (saves_metadata key value) s h = stay refl
apply-Move test_opens s h = open_test refl
apply-Move (test_closes i) s h = close_test-Move i s

open_session-first :
    (held : Option ℕ) (s : System) → (open_session held s).first_closed ≡ s.first_closed
unfolding open_session
open_session-first none s = refl
open_session-first (some i) s = refl

install_held-first :
    (held : Option ℕ) (node : Node) (protocol : String) (selection : Selection) (expected : ℕ)
    (forced : String) (s : System)
    → (install_held held node protocol selection expected forced s).first_closed ≡ s.first_closed
unfolding install_held settle
install_held-first none node protocol selection expected forced s = refl
install_held-first (some i) node protocol selection expected forced s = ground arith

apply-first_known :
    (t : Turn) (s : System)
    → IsSound s
    → (i : ℕ) → (apply t s).first_closed ≡ some i
    → contains i (apply t s).world.closed ≡ true
unfolding apply
apply-first_known begins_close s h i e = unfold begin_close contains in ground arith
apply-first_known opens s h i e =
    Move-closed (ledger s) (ledger (apply opens s)) i (apply-Move opens s h)
      (h.first_known i (rw (open_session-first s.holding s) at e))
apply-first_known (installs node protocol selection expected forced) s h i e =
    Move-closed (ledger s) (ledger (apply (installs node protocol selection expected forced) s)) i
      (apply-Move (installs node protocol selection expected forced) s h)
      (h.first_known i
        (rw (install_held-first s.holding node protocol selection expected forced s) at e))
apply-first_known (test_closes j) s h i e =
    Move-closed (ledger s) (ledger (apply (test_closes j) s)) i (apply-Move (test_closes j) s h)
      (h.first_known i (rw (close_test-first j s) at e))
apply-first_known t s h i e =
    Move-closed (ledger s) (ledger (apply t s)) i (apply-Move t s h) (h.first_known i e)

pub apply-IsSound : (t : Turn) (s : System) → IsSound s → IsSound (apply t s)
apply-IsSound t s h = record {
  owned = Move-IsOwned (ledger s) (ledger (apply t s)) (apply-Move t s h) h.owned;
  first_known = apply-first_known t s h;
}

-- Under any interleaving of the manager's goroutines, from a sound start: every session that was
-- opened and not closed is active, held by the one `activate` in progress, or used by a speed test in
-- progress; the active and the held session and those of speed tests are open, these three kinds have
-- no session in common, and no session is closed twice.
pub run-IsSound : (ts : List Turn) (s : System) → IsSound s → IsSound (run ts s)
unfolding run
run-IsSound [] s h = h
run-IsSound (t ∷ ts) s h = run-IsSound ts (apply t s) (apply-IsSound t s h)
