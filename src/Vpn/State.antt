-- ===== src/Vpn/State.antt =====
-- `Manager` of internal/vpn/manager.go, with what its methods act on: the database, the VPN
-- sessions that were opened and closed, and the contexts that were cancelled.
use proxygate.Prelude.{
  ℕ, ◌+◌, ◌^◌, ◌%◌, String, Bool, List, ◌∷◌, Option, none, some, Result, ok, err, contains,
}
use proxygate.Model.{Node}
use proxygate.Store.{Database, StoreError, set_metadata}

pub data Selection : Type 0 where
  auto manual : Selection

abbrev pub selection_text : Selection → String
selection_text auto = "auto"
selection_text manual = "manual"

pub data State : Type 0 where
  idle connecting connected failed direct : State

abbrev pub state_text : State → String
state_text idle = "idle"
state_text connecting = "connecting"
state_text connected = "connected"
state_text failed = "error"
state_text direct = "direct"

pub data Error : Type 0 where
  canceled deadline_exceeded : Error
  text : String → Error

-- A session and a context are named by numbers: pointer identity.
pub record Manager : Type 0 where
  pub closing : Bool
  pub session : Option ℕ
  pub node : Node
  pub protocol : String
  pub selection : Selection
  pub manual_ip : String
  pub manual_protocol : String
  pub state : State
  pub last_err : Option Error
  pub direct_mode : Bool
  pub connection_paused : Bool
  pub connecting_ip : String
  pub cancel_connect : Option ℕ
  pub cancel_automatic : Option ℕ
  pub connect_attempt : ℕ
  pub generation : ℕ
  pub last_health : ℕ

-- Sessions below `next_session` were opened, and `closed` lists the calls of `Close`, newest first.
pub record World : Type 0 where
  pub manager : Manager
  pub database : Database
  pub next_session : ℕ
  pub closed : List ℕ
  pub next_context : ℕ
  pub cancelled : List ℕ

-- `uint64` counters wrap around.
abbrev pub bump : ℕ → ℕ
bump n = (n + 1) % 2 ^ 64

-- `session.Close()`
abbrev pub close_session : Option ℕ → World → World
close_session none w = w
close_session (some s) w = record w { closed = s ∷ w.closed }

-- `cancel()`
abbrev pub cancel : Option ℕ → World → World
cancel none w = w
cancel (some c) w = record w { cancelled = c ∷ w.cancelled }

-- `ctx.Err() != nil`
abbrev pub is_cancelled : ℕ → World → Bool
is_cancelled c w = contains c w.cancelled

-- A statement whose error the caller drops.
abbrev pub database_after : Database → Result StoreError Database → Database
database_after db (ok db') = db'
database_after db (err e) = db

abbrev pub set_selection_metadata : Selection → String → String → Database → Database
set_selection_metadata selection ip protocol db =
    let db1 = database_after db (set_metadata db "selection" (selection_text selection)) in
    let db2 = database_after db1 (set_metadata db1 "manual_ip" ip) in
    database_after db2 (set_metadata db2 "manual_protocol" protocol)
