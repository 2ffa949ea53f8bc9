-- ===== src/VpnGate/Refresher/Replacing.antt =====
-- What a refresh leaves in the database.
use proxygate.Prelude.{
  ℕ, String, Bool, true, false, List, Option, none, some, Result, ok, err, ◌≡◌, refl, sym, subst,
  arith, Bool-cases, ◌⊎◌, inl, inr,
}
use proxygate.Model.{Node}
use proxygate.Store.{Database, StoreError, replace_nodes}
use proxygate.Store.Keys.{IsReplaced}
use proxygate.VpnGate.Refresher.{
  Failure, already_running, Refresher, begin_refresh, stamp, ended, after_replace, finish_refresh,
  finish_begun, refresh,
}

-- No refresh runs, and the last one ended so.
pub record IsIdle (s : Refresher) : Type 0 where
  pub unlocked : s.locked ≡ false
  pub not_running : s.running ≡ false

-- A refresh of a table that took effect.
pub record IsRefreshed (table nodes : List Node) (t : ℕ) (ip : String)
    (result : (Option Failure × Bool) × Refresher) : Type 0 where
  pub no_error : result.0.0 ≡ none
  pub notified : result.0.1 ≡ true
  pub last_error : result.1.last_err ≡ none
  pub idle : IsIdle result.1
  pub stored : IsReplaced table nodes t ip result.1.database

pub begin_refresh-unlocked :
    (s : Refresher)
    → s.locked ≡ false
    → begin_refresh s ≡ (none, record s { locked = true; running = true; last_err = none })
unfolding begin_refresh
begin_refresh-unlocked s e = ground (arith, e)

-- A refresh that failed.
pub record IsRefused (s : Refresher) (result : (Option Failure × Bool) × Refresher) : Type 0 where
  pub quiet : result.0.1 ≡ false
  pub same_database : result.1.database ≡ s.database
  pub same_trigger : result.1.triggered ≡ s.triggered

-- The failure is shown, and the refresher is free again.
pub record IsShown (e : Failure) (s : Refresher) : Type 0 where
  pub shown : s.last_err ≡ some e
  pub idle : IsIdle s

replaced-failed :
    (replaced : Result StoreError Database) (s : Refresher) (e : Failure)
    → (after_replace replaced s).0.0 ≡ some e
    → IsRefused s (after_replace replaced s) × IsShown e (after_replace replaced s).1
unfolding after_replace ended
replaced-failed (err m) s e h = (
  record { quiet = refl; same_database = refl; same_trigger = refl },
  record { shown = h; idle = record { unlocked = refl; not_running = refl } },
)
replaced-failed (ok db) s e h = absurd (ground (arith, h))

finish_refresh-failed :
    (fetched : Result String (List Node)) (t : ℕ) (ip : String) (s : Refresher) (e : Failure)
    → (finish_refresh fetched t ip s).0.0 ≡ some e
    → IsRefused s (finish_refresh fetched t ip s) × IsShown e (finish_refresh fetched t ip s).1
unfolding finish_refresh ended
finish_refresh-failed (err m) t ip s e h = (
  record { quiet = refl; same_database = refl; same_trigger = refl },
  record { shown = h; idle = record { unlocked = refl; not_running = refl } },
)
finish_refresh-failed (ok nodes) t ip s e h =
    replaced-failed (replace_nodes s.database (stamp t nodes) t ip) s e h

abbrev pub IsKept : Refresher → Failure → (Option Failure × Bool) × Refresher → Type 0
IsKept s e result =
    IsRefused s result
    × (((s.locked ≡ true) × ((e ≡ already_running) × (result.1 ≡ s)))
        ⊎ ((s.locked ≡ false) × IsShown e result.1))

begin_refresh-locked :
    (s : Refresher) → s.locked ≡ true → begin_refresh s ≡ (some already_running, s)
unfolding begin_refresh
begin_refresh-locked s e = ground (arith, e)

-- A refresh that fails leaves the database and the trigger as they were and does not call `after`. If
-- another refresh runs, it changes nothing at all; if none does, its error is what `LastError` answers
-- with, and the refresher is free again.
pub refresh-IsKept :
    (fetched : Result String (List Node)) (t : ℕ) (ip : String) (s : Refresher) (e : Failure)
    → (refresh fetched t ip s).0.0 ≡ some e
    → IsKept s e (refresh fetched t ip s)
unfolding refresh finish_begun
refresh-IsKept fetched t ip s e h = elim (Bool-cases s.locked) [
  | inl l ↦
      through (some already_running, s) (begin_refresh-locked s l)
        (λ k. (
          record { quiet = refl; same_database = refl; same_trigger = refl },
          inl (l, (ground (arith, k), refl)),
        ))
  | inr l ↦
      let begun : Refresher = record s { locked = true; running = true; last_err = none } in
      through (none, begun) (begin_refresh-unlocked s l)
        (λ k.
          let f = finish_refresh-failed fetched t ip begun e k in
          (
            record {
              quiet = f.0.quiet;
              same_database = f.0.same_database;
              same_trigger = f.0.same_trigger;
            },
            inr (l, f.1),
          ))
]
  where
    through :
        (b : Option Failure × Refresher)
        → begin_refresh s ≡ b
        → ((finish_begun fetched t ip b).0.0 ≡ some e → IsKept s e (finish_begun fetched t ip b))
        → IsKept s e (finish_begun fetched t ip (begin_refresh s))
    through b same k =
        subst
          (λ x.
            (finish_begun fetched t ip x).0.0 ≡ some e → IsKept s e (finish_begun fetched t ip x))
          (sym same) k h
