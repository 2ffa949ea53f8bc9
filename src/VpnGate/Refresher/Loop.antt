-- ===== src/VpnGate/Refresher/Loop.antt =====
-- What the loop of `Run` keeps.
use proxygate.Prelude.{ℕ, String, true, false, List, [], ◌∷◌, none, Result, ok, err, ◌≡◌, refl}
use proxygate.Model.{Node}
use proxygate.Store.{Database, StoreError, unique_ips, replace_nodes}
use proxygate.Store.Keys.{replace_nodes_unique}
use proxygate.VpnGate.Refresher.{
  Refresher, stamp, ended, after_replace, finish_refresh, finish_begun, refresh, Round, cancelled,
  by_trigger, by_timer, run,
}
use proxygate.VpnGate.Refresher.Replacing.{IsIdle, begin_refresh-unlocked}

-- Idle, with a table that keeps its primary key.
pub record IsSettled (s : Refresher) : Type 0 where
  pub idle : IsIdle s
  pub no_twins : unique_ips s.database.nodes ≡ true

after_replace-IsSettled :
    (ns : List Node) (t : ℕ) (ip : String) (s : Refresher) (replaced : Result StoreError Database)
    → replace_nodes s.database ns t ip ≡ replaced
    → unique_ips s.database.nodes ≡ true
    → IsSettled (after_replace replaced s).1
unfolding after_replace ended
after_replace-IsSettled ns t ip s (err e) same u = record {
  idle = record { unlocked = refl; not_running = refl };
  no_twins = u;
}
after_replace-IsSettled ns t ip s (ok db) same u = record {
  idle = record { unlocked = refl; not_running = refl };
  no_twins = replace_nodes_unique s.database db ns t ip same;
}

finish_refresh-IsSettled :
    (fetched : Result String (List Node)) (t : ℕ) (ip : String) (s : Refresher)
    → unique_ips s.database.nodes ≡ true
    → IsSettled (finish_refresh fetched t ip s).1
unfolding finish_refresh ended
finish_refresh-IsSettled (err e) t ip s u = record {
  idle = record { unlocked = refl; not_running = refl };
  no_twins = u;
}
finish_refresh-IsSettled (ok ns) t ip s u =
    after_replace-IsSettled (stamp t ns) t ip s (replace_nodes s.database (stamp t ns) t ip) refl u

refresh-IsSettled :
    (fetched : Result String (List Node)) (t : ℕ) (ip : String) (s : Refresher)
    → IsSettled s
    → IsSettled (refresh fetched t ip s).1
unfolding refresh finish_begun
refresh-IsSettled fetched t ip s h = rw (begin_refresh-unlocked s h.idle.unlocked) (
    finish_refresh-IsSettled fetched t ip
      (record s { locked = true; running = true; last_err = none }) h.no_twins)

-- Whatever the rounds of `Run` bring, in between them no refresh runs, and the table of nodes has each
-- IP once if it had so at the start.
pub run-IsSettled : (rounds : List Round) (s : Refresher) → IsSettled s → IsSettled (run rounds s)
unfolding run
run-IsSettled [] s h = h
run-IsSettled (cancelled ∷ rounds) s h = h
run-IsSettled (by_trigger fetched t ip ∷ rounds) s h =
    let begun : Refresher = record s { triggered = false } in
    run-IsSettled rounds (refresh fetched t ip begun).1 (
      refresh-IsSettled fetched t ip begun (record {
        idle = record { unlocked = h.idle.unlocked; not_running = h.idle.not_running };
        no_twins = h.no_twins;
      }))
run-IsSettled (by_timer fetched t ip ∷ rounds) s h =
    run-IsSettled rounds (refresh fetched t ip s).1 (refresh-IsSettled fetched t ip s h)
