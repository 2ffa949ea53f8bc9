-- ===== src/VpnGate/Refresher.antt =====
-- internal/vpngate/refresher.go: the refreshing of the database with the nodes that `Fetch` answers with.
pub mod Replacing
pub mod Loop
use proxygate.Prelude.{
  ℕ, String, Bool, true, false, not, List, [], ◌∷◌, Option, none, some, Result, ok, err, map,
  if◌then◌else◌,
}
use proxygate.Model.{Node}
use proxygate.Store.{Database, StoreError, replace_nodes}

-- Why a refresh failed.
pub data Failure : Type 0 where
  already_running : Failure
  fetch_failed : String → Failure
  store_failed : StoreError → Failure

-- `Refresher`: its lock, what `Running` and `LastError` answer, whether the channel of `Trigger` holds
-- a value, and the database that it writes.
pub record Refresher : Type 0 where
  pub locked : Bool
  pub running : Bool
  pub last_err : Option Failure
  pub triggered : Bool
  pub database : Database

-- `Trigger`
unfoldable pub trigger : Refresher → Bool × Refresher
trigger r = if r.triggered then (false, r) else (true, record r { triggered = true })

abbrev set_state : Bool → Option Failure → Refresher → Refresher
set_state running failure r = record r { running = running; last_err = failure }

-- `Refresh` up to `Fetch`: `TryLock`, and the state.
unfoldable pub begin_refresh : Refresher → Option Failure × Refresher
begin_refresh r =
    if r.locked
    then (some already_running, r)
    else (none, set_state true none (record r { locked = true }))

-- `Refresh` after `Fetch`, with the unlocking. The flag is whether `after` is called.
unfoldable pub stamp : ℕ → List Node → List Node
stamp refreshed_at [] = []
stamp refreshed_at (n ∷ ns) = record n { refreshed_at = refreshed_at } ∷ stamp refreshed_at ns

ended : Option Failure → Refresher → Refresher
ended failure r = record (set_state false failure r) { locked = false }

after_replace : Result StoreError Database → Refresher → (Option Failure × Bool) × Refresher
unfolding ended
after_replace (err e) r = ((some (store_failed e), false), ended (some (store_failed e)) r)
after_replace (ok database) r = ((none, true), ended none (record r { database = database }))

unfoldable pub finish_refresh :
    Result String (List Node) → ℕ → String → Refresher → (Option Failure × Bool) × Refresher
unfolding after_replace ended
finish_refresh (err e) refreshed_at preserve_ip r =
    ((some (fetch_failed e), false), ended (some (fetch_failed e)) r)
finish_refresh (ok nodes) refreshed_at preserve_ip r =
    after_replace (replace_nodes r.database (stamp refreshed_at nodes) refreshed_at preserve_ip) r

finish_begun :
    Result String (List Node)
    → ℕ
    → String
    → Option Failure × Refresher
    → (Option Failure × Bool) × Refresher
finish_begun fetched refreshed_at preserve_ip (some e, r) = ((some e, false), r)
finish_begun fetched refreshed_at preserve_ip (none, r) =
    finish_refresh fetched refreshed_at preserve_ip r

-- `Refresh`
unfoldable pub refresh :
    Result String (List Node) → ℕ → String → Refresher → (Option Failure × Bool) × Refresher
unfolding finish_begun
refresh fetched refreshed_at preserve_ip r =
    finish_begun fetched refreshed_at preserve_ip (begin_refresh r)

-- What ends a wait of `Run`, and what the refresh after it meets.
pub data Round : Type 0 where
  cancelled : Round
  by_trigger by_timer : Result String (List Node) → ℕ → String → Round

-- `Run`
unfoldable pub run : List Round → Refresher → Refresher
run [] r = r
run (cancelled ∷ rounds) r = r
run (by_trigger fetched refreshed_at preserve_ip ∷ rounds) r =
    let begun : Refresher = record r { triggered = false } in
    run rounds (refresh fetched refreshed_at preserve_ip begun).1
run (by_timer fetched refreshed_at preserve_ip ∷ rounds) r =
    run rounds (refresh fetched refreshed_at preserve_ip r).1
