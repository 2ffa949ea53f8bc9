-- ===== src/Web/Routes.antt =====
-- internal/server: what the handlers share, what they call, and the requests and responses.
use proxygate.Prelude.{ℕ, String, Bool, List, Option, none, Result, Bytes}
use proxygate.Model.{Node, RuntimeStatus}
use proxygate.Store.{StoreError}
use proxygate.Config.{Config}
use proxygate.Config.Store.{Platform, Faults, Store as Settings}
use proxygate.Vpn.State.{Error, World}
use proxygate.Vpn.Requests.{Task}
use proxygate.VpnGate.Refresher.{Refresher, Failure}
use proxygate.SpeedQueue.{Service, Outcome, QueueError}
use proxygate.Web.Session.{Crypto}

-- What the handlers share. The database is that of `world`; `refresher` stands for its other fields.
pub record Site : Type 0 where
  pub settings : Settings
  pub world : World
  pub refresher : Refresher
  pub tests : Service
  pub restarting : Bool
  pub restart_sent : Bool

-- What the handlers call of other libraries: `bcrypt`, the compiling of a filter, and the texts of
-- errors.
pub record Outside : Type 0 where
  pub crypto : Crypto
  pub platform : Platform
  pub faults : Faults
  pub matches_hash : String → String → Bool
  pub hash : String → Result String String
  pub filter_error : String → Option String
  pub drivers : List String
  pub store_error : StoreError → Error
  pub failure_error : Failure → Error
  pub queue_error : QueueError → String
  pub now : ℕ
  -- Whether the channel that the application reads is full.
  pub restart_full : Bool

pub data Body : Type 0 where
  problem : String → Body
  done queued restarting_now valid_filter build : Body
  node_list : List Node → Body
  runtime : RuntimeStatus → Body
  settings_body : Config → Body
  outcome : Outcome → Body
  saved : Bool → Body

-- A response, with the session cookie that it sets, and the task that the manager starts.
pub record Response : Type 0 where
  pub status_code : ℕ
  pub body : Body
  pub cookie : Option Bytes
  pub task : Option Task

abbrev pub answer : ℕ → Body → Response
answer code body = record { status_code = code; body = body; cookie = none; task = none }

-- The routes below `/api`, but for those of the list of services.
pub data Request : Type 0 where
  version : Request
  login : Result String (String × String) → Request
  logout show_status : Request
  list_nodes : Bytes → Bytes → Request
  select_node : Result String (String × String) → Request
  reconnect : Request
  direct : Result String Bool → Request
  start_test cancel_test show_test : String → Request
  get_config : Request
  put_config : Result String (Config × String) → Request
  validate_filter : Result String String → Request
  refresh restart unknown : Request
