-- ===== src/Vpn/Schedule/Attempts.antt =====
-- What an `activate` that has been overtaken may still do.
use proxygate.Prelude.{
  ℕ, ◌+◌, ◌≤◌, ◌<◌, ◌^◌, String, Bool, true, false, List, [], ◌∷◌, Option, none, some, ◌≡◌, refl,
  arith, length,
}
use proxygate.Model.{Node}
use proxygate.Vpn.State.{Selection, Error, Manager}
use proxygate.Vpn.Sections.{
  set_state, set_last_health, set_automatic, set_direct_on, set_direct_off, begin_candidate,
  begin_automatic, end_automatic, install, finish_connect_attempt, begin_failover, record_failover,
  begin_close, end_close,
}
use proxygate.Vpn.Schedule.Coherence.{IsCoherent}
use proxygate.Vpn.Schedule.{
  test_closes, close_test, System, Turn, installs, opens, finishes, begins_candidate, enters_direct,
  leaves_direct, apply, run, settle, install_held, open_session,
}

-- The turns that end a pause.
abbrev pub resumes : Turn → Bool
resumes leaves_direct = true
resumes (begins_candidate ip) = true
resumes _ = false

abbrev pub NoneResumes : List Turn → Type 0
NoneResumes [] = Unit {0}
NoneResumes (t ∷ ts) = (resumes t ≡ false) × NoneResumes ts

pub record IsPaused (m : Manager) : Type 0 where
  pub paused : m.connection_paused ≡ true
  pub no_session : m.session ≡ none
  pub direct : m.direct_mode ≡ true

apply-IsPaused :
    (t : Turn) (s : System)
    → resumes t ≡ false
    → IsPaused s.world.manager
    → IsPaused (apply t s).world.manager
unfolding apply set_state set_last_health set_automatic set_direct_on begin_automatic end_automatic
    finish_connect_attempt begin_failover record_failover begin_close end_close
apply-IsPaused opens s r h = unfold open_session in ground arith
apply-IsPaused (installs node protocol selection expected forced) s r h =
    unfold install_held install settle in ground arith
apply-IsPaused (test_closes i) s r h = unfold close_test in ground arith
apply-IsPaused t s r h = ground arith

run-IsPaused :
    (ts : List Turn) (s : System)
    → NoneResumes ts
    → IsPaused s.world.manager
    → IsPaused (run ts s).world.manager
unfolding run
run-IsPaused [] s r h = h
run-IsPaused (t ∷ ts) s (r, rs) h = run-IsPaused ts (apply t s) rs (apply-IsPaused t s r h)

enters_direct-IsPaused :
    (s : System) → IsCoherent s.world.manager → IsPaused (apply enters_direct s).world.manager
unfolding apply set_direct_on
enters_direct-IsPaused s h = ground arith

-- After direct mode was switched on in a coherent state, no interleaving without a resume or a new
-- manual choice brings a VPN session back, whatever automatic connections, failovers and attempts
-- are still in progress: connections stay paused and traffic stays direct.
pub run-enters_direct-IsPaused :
    (ts : List Turn) (s : System)
    → IsCoherent s.world.manager
    → NoneResumes ts
    → IsPaused (run ts (apply enters_direct s)).world.manager
run-enters_direct-IsPaused ts s h r =
    run-IsPaused ts (apply enters_direct s) r (enters_direct-IsPaused s h)

abbrev attempt_of : System → ℕ
attempt_of s = s.world.manager.connect_attempt

-- A turn leaves the counter or adds one to it.
apply-attempt :
    (t : Turn) (s : System)
    → attempt_of s + 1 < 2 ^ 64
    → (attempt_of s ≤ attempt_of (apply t s)) × (attempt_of (apply t s) ≤ attempt_of s + 1)
unfolding apply set_state set_last_health set_automatic set_direct_on set_direct_off begin_candidate
    begin_automatic end_automatic finish_connect_attempt begin_failover record_failover begin_close
    end_close
apply-attempt opens s r = unfold open_session in ground arith
apply-attempt (installs node protocol selection expected forced) s r =
    unfold install_held install settle in ground arith
apply-attempt (test_closes i) s r = unfold close_test in ground arith
apply-attempt t s r = ground arith

run-attempt :
    (ts : List Turn) (s : System)
    → attempt_of s + length ts < 2 ^ 64
    → attempt_of s ≤ attempt_of (run ts s)
unfolding run
run-attempt [] s r = omega arith
run-attempt (t ∷ ts) s r =
    let (low, high) = apply-attempt t s (omega arith) in
    omega (arith, low, high, run-attempt ts (apply t s) (omega (arith, high)))

begins_candidate-attempt :
    (ip : String) (s : System)
    → attempt_of s + 1 < 2 ^ 64
    → attempt_of (apply (begins_candidate ip) s) ≡ attempt_of s + 1
unfolding apply begin_candidate
begins_candidate-attempt ip s r = ground arith

stale_install :
    (held : Option ℕ) (node : Node) (protocol : String) (selection : Selection) (attempt : ℕ)
    (forced : String) (s : System)
    → 0 < attempt
    → attempt < attempt_of s
    → (install_held held node protocol selection attempt forced s).world.manager ≡ s.world.manager
unfolding install_held install settle
stale_install none node protocol selection attempt forced s p l = refl
stale_install (some i) node protocol selection attempt forced s p l = ground arith

-- A manual connection attempt that a later one has overtaken changes nothing when it comes to its
-- end, after any turns in between (fewer than would wrap the 64-bit counter): its session is not
-- installed and its error is not shown.
pub overtaken_attempt :
    (ts : List Turn) (s : System) (ip : String) (node : Node) (protocol : String)
    (selection : Selection) (forced : String) (error : Option Error)
    → 0 < attempt_of s
    → attempt_of s + 1 + length ts < 2 ^ 64
    → let s' = run ts (apply (begins_candidate ip) s) in
      ((apply (installs node protocol selection (attempt_of s) forced) s').world.manager
        ≡ s'.world.manager)
      × ((apply (finishes (attempt_of s) error) s').world.manager ≡ s'.world.manager)
unfolding apply finish_connect_attempt
overtaken_attempt ts s ip node protocol selection forced error p r =
    let s1 : System = apply (begins_candidate ip) s in
    let e = begins_candidate-attempt ip s (omega arith) in
    let later : attempt_of s < attempt_of (run ts s1) = omega (arith, e, run-attempt ts s1) in
    (
      stale_install _ node protocol selection (attempt_of s) forced (run ts s1) p later,
      ground (arith, later),
    )
