-- ===== src/Vpn/Switch.antt =====
-- `switchAutomatic`, `failover` and `Start` of internal/vpn/manager.go: connecting to the ranked
-- nodes one after the other.
pub mod Ranked
use proxygate.Prelude.{
  ℕ, String, Bool, true, false, ◌&&◌, not, List, [], ◌∷◌, ◌++◌, Option, none, some, Result, ok, err,
  str_eq, concat, if◌then◌else◌,
}
use proxygate.Model.{Node}
use proxygate.Store.{Database, StoreError, mark_failure, node, nodes, order_by}
use proxygate.Vpn.State.{
  Selection, auto, manual, connecting, failed, Error, text, World, database_after,
}
use proxygate.Vpn.Sections.{
  set_state, set_automatic, begin_automatic, end_automatic, begin_failover, record_failover,
  error_text,
}
use proxygate.Vpn.Connect.{Outside, activate, join_failures}

-- What the outside does while one node is tried: `activate`'s part, what the other goroutines do
-- during it, and what `switchCtx.Err()` says before it and after its failure.
pub record Round : Type 0 where
  pub outside : Outside
  pub others : World → World
  pub stop_before : Option Error
  pub stop_after : Option Error

-- The settings and the outside of a whole switch; `store_error` is what the database's errors say.
pub record Setting : Type 0 where
  pub priority : List String
  pub selection_mode : String
  pub fallback_to_direct : Bool
  pub store_error : StoreError → Error
  pub round : Node → Round

-- What the loop does once a node has failed; `next` is its next round.
note_failure :
    Option Error
    → Round
    → Node
    → Error
    → (List String → World → World × Option Error)
    → List String
    → World
    → World × Option Error
note_failure (some stop) r n e next failures w = (w, some stop)
note_failure none r n e next failures w =
    next (failures ++ concat (n.ip ∷ ": " ∷ error_text e ∷ []) ∷ []) (record w {
      database =
          database_after w.database (mark_failure w.database r.outside.now n.ip (error_text e));
    })

after_activate :
    World × Option Error
    → Round
    → Node
    → (List String → World → World × Option Error)
    → List String
    → World × Option Error
unfolding note_failure
after_activate (w, none) r n next failures = (w, none)
after_activate (w, some e) r n next failures = note_failure r.stop_after r n e next failures w

try_node :
    Option Error
    → Setting
    → Node
    → (List String → World → World × Option Error)
    → List String
    → World
    → World × Option Error
unfolding after_activate
try_node (some stop) s n next failures w = (w, some stop)
try_node none s n next failures w =
    let r = s.round n in
    after_activate
      (activate r.outside s.priority r.others
        (record {
          node = n;
          selection = auto;
          require_health = false;
          expected_attempt = 0;
          forced_protocol = "";
        })
        w)
      r n next failures

unfoldable pub switch_loop : Setting → List Node → List String → World → World × Option Error
unfolding try_node
switch_loop s [] failures w = (
  set_state failed (some (text (join_failures failures))) w,
  some (text (concat ("connect to ranked VPN nodes: " ∷ join_failures failures ∷ []))),
)
switch_loop s (n ∷ ns) failures w =
    try_node (s.round n).stop_before s n (switch_loop s ns) failures w

switch_ranked : Setting → Result StoreError (List Node) → World → World × Option Error
switch_ranked s (err e) w = (w, some (s.store_error e))
switch_ranked s (ok []) w = (w, some (text "no filtered VPN nodes are available"))
switch_ranked s (ok (n ∷ ns)) w = switch_loop s (n ∷ ns) [] w

close_switch : ℕ → World × Option Error → World × Option Error
close_switch context (w, e) = (end_automatic context w, e)

switch_unless_paused : Setting → World × Option ℕ → World × Option Error
unfolding switch_ranked close_switch
switch_unless_paused s (w, none) = (w, none)
switch_unless_paused s (w, some context) =
    close_switch context (switch_ranked s (nodes w.database (order_by s.selection_mode) 10 0) w)

-- `switchAutomatic`
unfoldable pub switch_automatic : Setting → World → World × Option Error
unfolding switch_unless_paused
switch_automatic s w = switch_unless_paused s (begin_automatic w)

after_begin : Setting → ℕ → Error → World × Option String → World
after_begin s now cause (w, none) = w
after_begin s now cause (w, some failed_ip) =
    (switch_automatic s (record_failover now failed_ip cause w)).0

-- `failover`; the error of the switch is only logged.
pub failover : Setting → ℕ → Option ℕ → Error → World → World
unfolding after_begin
failover s now expected cause w =
    after_begin s now cause (begin_failover s.fallback_to_direct expected cause w)

restore : Setting → World × Option Error → World × Option Error
restore s (w, none) = (w, none)
restore s (w, some e) = switch_automatic s (set_automatic w)

restore_node : Setting → Result StoreError Node → String → World → World × Option Error
unfolding restore
restore_node s (err e) protocol w = switch_automatic s (set_automatic w)
restore_node s (ok n) protocol w =
    let r = s.round n in
    restore s (
      activate r.outside s.priority r.others
        (record {
          node = n;
          selection = manual;
          require_health = true;
          expected_attempt = 0;
          forced_protocol = protocol;
        })
        (set_state connecting none w))

abbrev pub restores : Selection → String → Bool
restores manual ip = not (str_eq ip "")
restores auto ip = false

-- `Start`
pub start : Setting → World → World × Option Error
unfolding restore_node
start s w =
    let m = w.manager in
    if restores m.selection m.manual_ip
    then restore_node s (node w.database m.manual_ip) m.manual_protocol w
    else switch_automatic s w
