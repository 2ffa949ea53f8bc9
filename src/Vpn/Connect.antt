-- ===== src/Vpn/Connect.antt =====
-- `validateForcedProtocol`, `connectNode` and `activate` of internal/vpn/manager.go.
pub mod Choice
pub mod Transaction
use proxygate.Prelude.{
  ℕ, suc, String, Bool, true, false, ◌&&◌, not, List, [], ◌∷◌, ◌++◌, Option, none, some, Result, ok,
  err, str_eq, has_text, concat, if◌then◌else◌,
}
use proxygate.Model.{Node}
use proxygate.Vpn.State.{Selection, connecting, failed, Error, canceled, text, World, close_session}
use proxygate.Vpn.Sections.{save_selection, set_state, set_last_health, install, error_text}

-- What the outside does during one `activate`: which texts Go's `net.ParseIP` reads as an IPv4
-- address, the protocols with a driver, how each driver's `Start` and each health check end (none
-- for success), and what `ctx.Err()` says before each protocol and after the connection.
pub record Outside : Type 0 where
  pub ipv4_literal : String → Bool
  pub drivers : List String
  pub start : String → Option Error
  pub probe : String → Option Error
  pub done_before : String → Option Error
  pub done_after : Option Error
  pub now : ℕ

unfoldable pub validate_forced_protocol : List String → Node → String → Option Error
validate_forced_protocol drivers node protocol =
    if str_eq protocol ""
    then none
    else if not (has_text protocol node.protocols)
    then some (text (concat ("node " ∷ node.ip ∷ " does not support protocol " ∷ protocol ∷ [])))
    else if not (has_text protocol drivers)
    then some (text (concat ("protocol " ∷ protocol ∷ " driver is unavailable" ∷ [])))
    else none

-- One round of the loop of `connectNode`.
pub data Attempt : Type 0 where
  stopped : Error → Attempt
  skipped : Attempt
  refused : String → Attempt
  made : ℕ → Attempt

-- `newDNSSession` wraps the driver's session, and is the session from there on.
opened : World → World
opened w = record w { next_session = suc w.next_session }

check_health : Bool → Option Error → String → World → Attempt × World
check_health false probe protocol w = (made w.next_session, opened w)
check_health true none protocol w = (made w.next_session, opened w)
check_health true (some e) protocol w = (
  refused (concat (protocol ∷ " candidate health check: " ∷ error_text e ∷ [])),
  close_session (some w.next_session) (opened w),
)

start_driver : Option Error → Bool → Option Error → String → World → Attempt × World
start_driver (some e) require_health probe protocol w =
    (refused (concat (protocol ∷ ": " ∷ error_text e ∷ [])), w)
start_driver none require_health probe protocol w = check_health require_health probe protocol w

try_open : Outside → Node → Bool → String → World → Attempt × World
try_open out node require_health protocol w =
    if not (has_text protocol node.protocols)
    then (skipped, w)
    else if not (has_text protocol out.drivers)
    then (refused (concat (protocol ∷ " driver is unavailable" ∷ [])), w)
    else start_driver (out.start protocol) require_health (out.probe protocol) protocol w

try_unless : Option Error → Outside → Node → Bool → String → World → Attempt × World
try_unless (some e) out node require_health protocol w = (stopped e, w)
try_unless none out node require_health protocol w = try_open out node require_health protocol w

unfoldable pub try_protocol : Outside → Node → Bool → String → World → Attempt × World
unfolding try_unless try_open start_driver check_health opened
try_protocol out node require_health protocol w =
    try_unless (out.done_before protocol) out node require_health protocol w

-- `strings.Join(failures, "; ")`
pub join_failures : List String → String
join_failures [] = ""
join_failures (f ∷ []) = f
join_failures (f ∷ g ∷ fs) = concat (f ∷ "; " ∷ join_failures (g ∷ fs) ∷ [])

no_protocol : List String → Error
unfolding join_failures
no_protocol [] = text "node has no enabled protocol with an available driver"
no_protocol (f ∷ fs) = text (join_failures (f ∷ fs))

-- What the loop does with an attempt; `next` is its next round.
abbrev pub Outcome : Type 0
Outcome = Result Error (ℕ × String) × World

unfoldable pub proceed :
    Attempt × World → String → List String → (List String → World → Outcome) → Outcome
proceed (stopped e, w) p failures next = (err e, w)
proceed (skipped, w) p failures next = next failures w
proceed (refused why, w) p failures next = next (failures ++ why ∷ []) w
proceed (made session, w) p failures next = (ok (session, p), w)

unfoldable pub connect_loop : Outside → Node → Bool → List String → List String → World → Outcome
unfolding no_protocol
connect_loop out node require_health [] failures w = (err (no_protocol failures), w)
connect_loop out node require_health (p ∷ ps) failures w =
    proceed (try_protocol out node require_health p w) p failures
      (connect_loop out node require_health ps)

abbrev pub candidates : List String → String → List String
candidates priority forced = if str_eq forced "" then priority else forced ∷ []

connect_valid : Option Error → Outside → List String → Node → Bool → World → Outcome
connect_valid (some e) out protocols node require_health w = (err e, w)
connect_valid none out protocols node require_health w =
    connect_loop out node require_health protocols [] w

-- `connectNode`; the priority list is the configuration's.
unfoldable pub connect_node : Outside → List String → Node → Bool → String → World → Outcome
unfolding connect_valid
connect_node out priority node require_health forced w =
    if not (out.ipv4_literal node.ip)
    then (err (text (concat ("node endpoint \"" ∷ node.ip ∷ "\" is not IPv4" ∷ []))), w)
    else connect_valid (validate_forced_protocol out.drivers node forced) out
        (candidates priority forced) node require_health w

-- `activate`. `others` is what the other goroutines do while the connection is made.
pub record Activation : Type 0 where
  pub node : Node
  pub selection : Selection
  pub require_health : Bool
  pub expected_attempt : ℕ
  pub forced_protocol : String

-- The end of `install`, after its section.
saved_install : Activation → World × Bool → World × Bool
saved_install a (w, true) = (save_selection a.selection a.node.ip a.forced_protocol w, true)
saved_install a (w, false) = (w, false)

after_install : Outside → Bool → ℕ → World × Bool → World × Option Error
after_install out require_health session (w, true) =
    (if require_health then set_last_health out.now w else w, none)
after_install out require_health session (w, false) =
    (close_session (some session) w, some canceled)

install_unless : Option Error → Outside → Activation → ℕ → String → World → World × Option Error
unfolding after_install saved_install
install_unless (some e) out a session protocol w = (close_session (some session) w, some e)
install_unless none out a session protocol w = after_install out a.require_health session (
    saved_install a
      (install session a.node protocol a.selection a.expected_attempt a.forced_protocol w))

is_none : Option Error → Bool
is_none none = true
is_none (some e) = false

after_connect : Outside → Activation → Result Error (ℕ × String) → World → World × Option Error
unfolding install_unless is_none
after_connect out a (err e) w = (
  if not a.require_health && is_none out.done_after then set_state failed (some e) w else w,
  some e,
)
after_connect out a (ok (session, protocol)) w =
    install_unless out.done_after out a session protocol w

abbrev pub before_connect : Bool → World → World
before_connect require_health w = if require_health then w else set_state connecting none w

unfoldable pub activate :
    Outside → List String → (World → World) → Activation → World → World × Option Error
unfolding after_connect
activate out priority others a w =
    let (r, w1) =
      connect_node out priority a.node a.require_health a.forced_protocol
        (before_connect a.require_health w) in
    after_connect out a r (others w1)
