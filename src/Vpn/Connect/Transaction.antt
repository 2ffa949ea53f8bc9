-- ===== src/Vpn/Connect/Transaction.antt =====
-- A node change is a transaction: it takes effect as a whole or not at all.
use proxygate.Prelude.{
  ℕ, ◌≤◌, ◌<◌, String, Bool, true, false, List, Option, none, some, Result, ok, err, ◌≡◌, ◌⊎◌, inl,
  inr, refl, arith, contains,
}
use proxygate.Model.{Node}
use proxygate.Vpn.State.{Selection, connected, Error, Manager, World}
use proxygate.Vpn.Sections.{
  save_selection, set_state, set_last_health, install, install_now, is_stale_install,
}
use proxygate.Vpn.Connect.{
  Outside, Activation, connect_node, before_connect, after_install, saved_install, install_unless,
  after_connect, activate,
}
use proxygate.Vpn.Connect.Choice.{connect_node-IsTidy, session_of}

-- What of the manager decides where traffic goes, and what a resume would restore.
pub record Route : Type 0 where
  pub session : Option ℕ
  pub node : Node
  pub protocol : String
  pub selection : Selection
  pub manual_ip : String
  pub manual_protocol : String
  pub direct_mode : Bool
  pub generation : ℕ

abbrev pub route : Manager → Route
route m = record {
  session = m.session;
  node = m.node;
  protocol = m.protocol;
  selection = m.selection;
  manual_ip = m.manual_ip;
  manual_protocol = m.manual_protocol;
  direct_mode = m.direct_mode;
  generation = m.generation;
}

after_connect-failed :
    (out : Outside) (a : Activation) (r : Result Error (ℕ × String)) (w v : World) (e : Error)
    → after_connect out a r w ≡ (v, some e)
    → (route v.manager ≡ route w.manager)
      × (v.database ≡ w.database)
      × ((i : ℕ) → session_of r ≡ some i → contains i v.closed ≡ true)
      × ((i : ℕ) → contains i w.closed ≡ true → contains i v.closed ≡ true)
unfolding after_connect install_unless after_install saved_install save_selection set_state install
    contains
after_connect-failed out a (err x) w v e h =
    (ground arith, ground arith, λ i k. cc, λ i k. ground arith)
after_connect-failed out a (ok (s, p)) w v e h =
    (ground arith, ground arith, λ i k. ground arith, λ i k. ground arith)

-- The session of a result was put in place of the session of `u`.
pub record IsInstalled (a : Activation) (r : Result Error (ℕ × String)) (u v : World) : Type 0 where
  pub connected_to :
      (s : ℕ) × (p : String) × (r ≡ ok (s, p))
      × (v.manager.session ≡ some s)
      × (v.manager.node ≡ a.node)
      × (v.manager.protocol ≡ p)
      × (v.manager.selection ≡ a.selection)
      × (v.manager.direct_mode ≡ false)
      × (v.manager.state ≡ connected)
  pub allowed : u.manager.connection_paused ≡ false
  pub wanted : (a.expected_attempt ≡ 0) ⊎ (u.manager.connect_attempt ≡ a.expected_attempt)
  pub replaced : (i : ℕ) → u.manager.session ≡ some i → contains i v.closed ≡ true

before_connect-sessions :
    (b : Bool) (w : World) (i : ℕ) → w.next_session ≤ i → (before_connect b w).next_session ≤ i
unfolding set_state
before_connect-sessions true w i k = k
before_connect-sessions false w i k = k

after_connect-IsInstalled :
    (out : Outside) (a : Activation) (r : Result Error (ℕ × String)) (u v : World)
    → after_connect out a r u ≡ (v, none)
    → IsInstalled a r u v
unfolding after_connect install_unless after_install saved_install save_selection set_last_health
    install install_now is_stale_install contains
after_connect-IsInstalled out a (err x) u v h = absurd (ground arith)
after_connect-IsInstalled out a (ok (s, p)) u v h = record {
  connected_to = (
    s,
    p,
    refl,
    ground arith,
    ground arith,
    ground arith,
    ground arith,
    ground arith,
    ground arith,
  );
  allowed = ground arith;
  wanted = ground arith;
  replaced = λ i k. ground arith;
}

-- If `activate` fails, then whatever the other goroutines did in the meantime is what routes the
-- traffic afterwards, the database is as they left it, and every session that the attempt opened
-- is closed. The goroutines must not undo a `Close`.
pub activate-failed :
    (out : Outside) (priority : List String) (others : World → World) (a : Activation) (w v : World)
    (e : Error)
    → ((u : World) (i : ℕ) → contains i u.closed ≡ true → contains i (others u).closed ≡ true)
    → activate out priority others a w ≡ (v, some e)
    → let w1 =
        (connect_node out priority a.node a.require_health a.forced_protocol
          (before_connect a.require_health w)).1 in
      (route v.manager ≡ route (others w1).manager)
      × (v.database ≡ (others w1).database)
      × ((i : ℕ) → w.next_session ≤ i → i < w1.next_session → contains i v.closed ≡ true)
unfolding activate
activate-failed out priority others a w v e keeps h =
    let begun = before_connect a.require_health w in
    let c = connect_node out priority a.node a.require_health a.forced_protocol begun in
    let tidy = connect_node-IsTidy out priority a.node a.require_health a.forced_protocol begun in
    let (same_route, same_database, closes, keeps_closed) =
      after_connect-failed out a c.0 (others c.1) v e h in
    (
      same_route,
      same_database,
      λ i k l. elim (tidy.closes_rest i (before_connect-sessions a.require_health w i k) l) [
        | inl closed ↦ keeps_closed i (keeps c.1 i closed)
        | inr result ↦ closes i result
      ],
    )

-- If `activate` succeeds, then a session was made for its node and it was installed: it replaces
-- the session that was active when the section was entered, which is closed, and the installation
-- was allowed: connections were not paused then and no later attempt had begun.
pub activate-IsInstalled :
    (out : Outside) (priority : List String) (others : World → World) (a : Activation) (w v : World)
    → activate out priority others a w ≡ (v, none)
    → let (r, w1) =
        connect_node out priority a.node a.require_health a.forced_protocol
          (before_connect a.require_health w) in
      IsInstalled a r (others w1) v
unfolding activate
activate-IsInstalled out priority others a w v h =
    let c =
      connect_node out priority a.node a.require_health a.forced_protocol
        (before_connect a.require_health w) in
    after_connect-IsInstalled out a c.0 (others c.1) v h
