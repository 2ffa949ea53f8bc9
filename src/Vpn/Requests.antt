-- ===== src/Vpn/Requests.antt =====
-- The requests of internal/vpn/manager.go that end in a background task: `startCandidate`,
-- `SelectManual`, `ReconnectCurrent`, `SetDirectMode`, `AfterRefresh`, and the tasks themselves.
pub mod Resume
use proxygate.Prelude.{
  ℕ, String, Bool, true, false, ◌&&◌, ◌||◌, not, List, [], ◌∷◌, Option, none, some, Result, ok, err,
  str_eq, if◌then◌else◌,
}
use proxygate.Model.{Node}
use proxygate.Store.{Database, StoreError, node, is_not_found}
use proxygate.Vpn.State.{Selection, auto, manual, Error, text, Manager, World, cancel}
use proxygate.Vpn.Sections.{
  is_set, set_automatic, set_direct_on, set_direct_off, begin_candidate, is_connect_attempt,
  finish_connect_attempt,
}
use proxygate.Vpn.Connect.{Outside, Activation, activate, validate_forced_protocol}
use proxygate.Vpn.Switch.{Setting, switch_automatic, failover, restores}

-- What a goroutine of `runAsync` does.
pub data Task : Type 0 where
  candidate : ℕ → ℕ → Node → Selection → String → Task
  automatic : Task
  lost_node : Task

-- What a request leaves: the task it started, and the error it returns.
pub record Reply : Type 0 where
  pub world : World
  pub task : Option Task
  pub error : Option Error

abbrev pub reply : World → Option Task → Option Error → Reply
reply w t e = record { world = w; task = t; error = e }

shutting_down : Error
shutting_down = text "VPN manager is shutting down"

-- `runAsync` with what its caller does if it returns false.
run_candidate_async : World × ℕ × ℕ → Node → Selection → String → Reply
unfolding shutting_down
run_candidate_async (w, context, attempt) n selection forced =
    if w.manager.closing
    then reply (finish_connect_attempt attempt (some shutting_down) (cancel (some context) w)).0
        none (some shutting_down)
    else reply w (some (candidate context attempt n selection forced)) none

start_valid : Option Error → Node → Selection → String → World → Reply
unfolding run_candidate_async
start_valid (some e) n selection forced w = reply w none (some e)
start_valid none n selection forced w =
    run_candidate_async (begin_candidate n.ip w) n selection forced

-- `startCandidate`
pub start_candidate : List String → Node → Selection → String → World → Reply
unfolding start_valid
start_candidate drivers n selection forced w =
    start_valid (validate_forced_protocol drivers n forced) n selection forced w

-- `startAutomatic`
pub start_automatic : World → Reply
unfolding shutting_down
start_automatic w =
    if w.manager.closing then reply w none (some shutting_down) else reply w (some automatic) none

-- `SelectManual`; `trim_space` is `strings.TrimSpace`.
start_found :
    List String → (StoreError → Error) → Result StoreError Node → Selection → String → World → Reply
start_found drivers store_error (err e) selection forced w = reply w none (some (store_error e))
start_found drivers store_error (ok n) selection forced w =
    start_candidate drivers n selection forced w

pub select_manual :
    List String → (StoreError → Error) → (String → String) → String → String → World → Reply
unfolding start_found
select_manual drivers store_error trim_space ip protocol w =
    start_found drivers store_error (node w.database ip) manual (trim_space protocol) w

-- `ReconnectCurrent`
pub reconnect_current : List String → (StoreError → Error) → World → Reply
unfolding start_found
reconnect_current drivers store_error w =
    let m = w.manager in
    if not (is_set m.session) || (str_eq m.node.ip "" || str_eq m.protocol "")
    then reply w none (some (text "no active VPN node to reconnect"))
    else start_found drivers store_error (node w.database m.node.ip) m.selection m.protocol w

-- `SetDirectMode`
resume_node : List String → Result StoreError Node → String → World → Reply
resume_node drivers (err e) protocol w = start_automatic (set_automatic w)
resume_node drivers (ok n) protocol w = start_candidate drivers n manual protocol w

resume : List String → World × Bool → Reply
unfolding resume_node
resume drivers (w, false) = reply w none none
resume drivers (w, true) =
    let m = w.manager in
    if restores m.selection m.manual_ip
    then resume_node drivers (node w.database m.manual_ip) m.manual_protocol w
    else start_automatic w

pub set_direct_mode : List String → Bool → World → Reply
unfolding resume
set_direct_mode drivers true w = reply (set_direct_on w) none none
set_direct_mode drivers false w = resume drivers (set_direct_off w)

-- `AfterRefresh`
abbrev is_auto : Selection → Bool
is_auto auto = true
is_auto manual = false

task_unless_closing : Task → World → Reply
task_unless_closing t w = reply w (if w.manager.closing then none else some t) none

pub after_refresh : Bool → World → Reply
unfolding task_unless_closing
after_refresh follow_ranking w =
    let m = w.manager in
    if m.connection_paused
    then reply w none none
    else if not (is_set m.session)
    then task_unless_closing automatic w
    else if not follow_ranking
    then reply w none none
    else if is_auto m.selection
    then task_unless_closing automatic w
    else if not (str_eq m.node.ip "") && is_not_found (node w.database m.node.ip)
    then task_unless_closing lost_node w
    else reply w none none

-- The tasks. The context of a candidate is cancelled at its end.
finish_candidate : ℕ → ℕ → World × Option Error → World
finish_candidate context attempt (w, e) =
    cancel (some context) (finish_connect_attempt attempt e w).0

pub run_candidate :
    Outside → List String → (World → World) → ℕ → ℕ → Node → Selection → String → World → World
unfolding finish_candidate
run_candidate out priority others context attempt n selection forced w =
    if is_connect_attempt attempt w
    then finish_candidate context attempt (
        activate out priority others
          (record {
            node = n;
            selection = selection;
            require_health = true;
            expected_attempt = attempt;
            forced_protocol = forced;
          })
          w)
    else cancel (some context) w

pub run_task : Setting → ℕ → Task → World → World
unfolding run_candidate
run_task s now (candidate context attempt n selection forced) w =
    let r = s.round n in
    run_candidate r.outside s.priority r.others context attempt n selection forced w
run_task s now automatic w = (switch_automatic s w).0
run_task s now lost_node w = failover s now none (text "active node disappeared after refresh") w
