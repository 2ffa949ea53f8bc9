-- ===== src/Web.antt =====
-- internal/server: the handlers of the web interface, behind the check of the session. A request comes
-- with its JSON body decoded, or with the error of decoding it.
mod Routes
pub mod Session
pub mod Gate
pub mod Page
pub mod Saving
pub use Routes.*
use Prim.Native.String.{len}
use proxygate.Prelude.{
  ℕ, zero, suc, ◌+◌, ◌*◌, String, Bool, true, false, ◌&&◌, ◌||◌, not, List, [], ◌∷◌, Option, none,
  some, Result, ok, err, Bytes, concat, length, take, str_eq, ltb, leb, ◌==◌, if◌then◌else◌,
}
use proxygate.Prelude.Int.{ℤ, pos, negsuc}
use proxygate.Model.{Node, RuntimeStatus}
use proxygate.Store.{Database, StoreError, order_by, nodes, node, last_refresh}
use proxygate.Config.{Config}
use proxygate.Config.Store.{Platform, Faults, save, Store as Settings}
use proxygate.Text.{atoi, trim_space}
use proxygate.Vpn.State.{Error, World}
use proxygate.Vpn.Sections.{error_text}
use proxygate.Vpn.Requests.{Task, Reply, select_manual, reconnect_current, set_direct_mode}
use proxygate.Vpn.Routing.{active_ip, status}
use proxygate.VpnGate.Refresher.{Refresher, Failure, trigger}
use proxygate.SpeedQueue.{
  Service, Job, Outcome, QueueError, already_running, not_found, queue_manual, cancel_manual,
  complete, failed,
}
use proxygate.Web.Session.{Crypto, sign_session, verify_session}

abbrev invalid_json : String → Response
invalid_json e = answer 400 (problem (concat ("invalid JSON: " ∷ e ∷ [])))

-- `setSessionCookie`: a session of twelve hours.
abbrev session_cookie : Outside → Config → Bytes
session_cookie o c = sign_session o.crypto c (o.now + 43200)

-- `login`
log_in : Outside → Result String (String × String) → Site → Response × Site
log_in o (err e) s = (invalid_json e, s)
log_in o (ok (username, password)) s =
    let c = s.settings.settings in
    if not (str_eq username c.web.username) || not (o.matches_hash c.web.password_hash password)
    then (answer 401 (problem "invalid username or password"), s)
    else (record (answer 200 done) { cookie = some (session_cookie o c) }, s)

-- `boundedInteger`
bounded : Option ℤ → ℕ → ℕ → ℕ → ℕ
bounded none fallback minimum maximum = fallback
bounded (some (negsuc n)) fallback minimum maximum = fallback
bounded (some (pos n)) fallback minimum maximum =
    if ltb n minimum then fallback else if ltb maximum n then maximum else n

unfoldable pub bounded_integer : Bytes → ℕ → ℕ → ℕ → ℕ
unfolding bounded
bounded_integer value fallback minimum maximum = bounded (atoi value) fallback minimum maximum

-- `nodes`: the page, with the active node put in front of the first one.
unfoldable pub includes : String → List Node → Bool
includes ip [] = false
includes ip (n ∷ ns) = str_eq n.ip ip || includes ip ns

put_in_front : ℕ → List Node → Result StoreError Node → List Node
put_in_front limit ns (err e) = ns
put_in_front limit ns (ok n) = take limit (n ∷ ns)

unfoldable pub with_active : Database → String → ℕ → ℕ → List Node → List Node
unfolding put_in_front
with_active db active limit offset ns =
    if offset == 0 && not (str_eq active "") && not (includes active ns)
    then put_in_front limit ns (node db active)
    else ns

unfoldable pub page :
    Database → String → ℕ → ℕ → Result StoreError (List Node) → Result StoreError (List Node)
page db active limit offset (err e) = err e
page db active limit offset (ok ns) = ok (with_active db active limit offset ns)

unfoldable pub nodes_page : Bytes → Bytes → Site → Result StoreError (List Node)
nodes_page limit offset s =
    let limit = bounded_integer limit 100 1 500 in
    let offset = bounded_integer offset 0 0 1000000 in
    page s.world.database (active_ip s.world.manager) limit offset
      (nodes s.world.database (order_by s.settings.settings.selection_mode) limit offset)

list_answer : (StoreError → Error) → Result StoreError (List Node) → Response
list_answer store_error (err e) = answer 500 (problem (error_text (store_error e)))
list_answer store_error (ok ns) = answer 200 (node_list ns)

-- `selectNode`, `reconnectNode` and `setDirectMode`
reply_response : Option Error → Option Task → Response
reply_response (some e) task = record (answer 502 (problem (error_text e))) { task = task }
reply_response none task = record (answer 202 done) { task = task }

abbrev manager_answer : Reply → Site → Response × Site
manager_answer r s = (reply_response r.error r.task, record s { world = r.world })

select : Outside → Result String (String × String) → Site → Response × Site
unfolding reply_response
select o (err e) s = (invalid_json e, s)
select o (ok (ip, protocol)) s =
    manager_answer (select_manual o.drivers o.store_error trim_space ip protocol s.world) s

switch_direct : Outside → Result String Bool → Site → Response × Site
unfolding reply_response
switch_direct o (err e) s = (invalid_json e, s)
switch_direct o (ok enabled) s = manager_answer (set_direct_mode o.drivers enabled s.world) s

-- `startSpeedTest` and `cancelSpeedTest`
start_code : QueueError → ℕ
start_code already_running = 409
start_code e = 503

cancel_code : QueueError → ℕ
cancel_code not_found = 404
cancel_code e = 409

test_answer :
    Outside → (QueueError → ℕ) → ℕ → Site → Result QueueError Outcome × Service → Response × Site
test_answer o code success s (err e, tests) =
    (answer (code e) (problem (o.queue_error e)), record s { tests = tests })
test_answer o code success s (ok result, tests) =
    (answer success (outcome result), record s { tests = tests })

-- `speedTestStatus`: the job, or what the database says.
stored_test : Result StoreError Node → Response
stored_test (err e) = answer 404 (problem "no speed test found for this node")
stored_test (ok n) =
    if n.measured_at == 0
    then answer 404 (problem "no speed test found for this node")
    else if n.speed_test_failed
    then answer 200 (outcome (failed ""))
    else answer 200 (outcome (complete n.measured_bps))

test_status : Option Job → Result StoreError Node → Response
unfolding stored_test
test_status (some job) n = answer 200 (outcome job.result)
test_status none n = stored_test n

-- `getConfig`, without the secrets.
abbrev with_secrets : Config → String → String → Config
with_secrets c hash secret = record c {
  web = record c.web { password_hash = hash; session_secret = secret };
}

unfoldable pub shown_config : Config → Config
shown_config c = with_secrets c "" ""

-- `putConfig`: the secrets are those in force, and the hash of the new password if there is one.
hashed : Result String String → Result (ℕ × String) (Option String)
hashed (err e) = err (500, e)
hashed (ok value) = ok (some value)

new_hash : Outside → String → Result (ℕ × String) (Option String)
unfolding hashed
new_hash o password =
    if str_eq password ""
    then ok none
    else if ltb (len password) 8
    then err (400, "new web password must contain at least 8 characters")
    else hashed (o.hash password)

abbrev hash_or : String → Option String → String
hash_or current none = current
hash_or current (some value) = value

-- Whether a setting changed that only a new start reads.
abbrev restart_required : Config → Config → Bool
restart_required current input =
    not (str_eq current.database_path input.database_path)
    || not (str_eq current.socks5.listen_address input.socks5.listen_address)
    || not (str_eq current.web.listen_address input.web.listen_address)

saved_answer : Outside → Bool → Config → Site → Option String × Settings → Response × Site
saved_answer o required input s (some e, settings) =
    (answer 400 (problem e), record s { settings = settings })
saved_answer o required input s (none, settings) = (
  record (answer 200 (saved required)) { cookie = some (session_cookie o input) },
  record s { settings = settings },
)

save_filtered : Outside → Config → Site → Option String → Response × Site
unfolding saved_answer
save_filtered o input s (some e) = (answer 400 (problem e), s)
save_filtered o input s none =
    saved_answer o (restart_required s.settings.settings input) input s
      (save o.platform o.faults input s.settings)

save_hashed : Outside → Config → Site → Result (ℕ × String) (Option String) → Response × Site
unfolding save_filtered
save_hashed o input s (err (code, e)) = (answer code (problem e), s)
save_hashed o input s (ok new) =
    let current = s.settings.settings.web in
    save_filtered o (with_secrets input (hash_or current.password_hash new) current.session_secret)
      s (o.filter_error input.filter_expression)

unfoldable pub save_settings : Outside → Result String (Config × String) → Site → Response × Site
unfolding save_hashed new_hash
save_settings o (err e) s = (invalid_json e, s)
save_settings o (ok (input, password)) s = save_hashed o input s (new_hash o password)

-- `validateFilter`
check_filter : Option String → Response
check_filter (some e) = answer 400 (problem e)
check_filter none = answer 200 valid_filter

filter_answer : Outside → Result String String → Response
unfolding check_filter
filter_answer o (err e) = invalid_json e
filter_answer o (ok expression) = check_filter (o.filter_error expression)

-- `refresh`
refresh_answer : Site → Bool × Refresher → Response × Site
refresh_answer s (true, r) = (answer 202 queued, record s { refresher = r })
refresh_answer s (false, r) =
    (answer 409 (problem "node refresh is already queued"), record s { refresher = r })

-- `restartApplication`
restart_application : Outside → Site → Response × Site
restart_application o s =
    if s.restarting || o.restart_full
    then (answer 409 (problem "application restart is already pending"), s)
    else (answer 202 restarting_now, record s { restarting = true; restart_sent = true })

abbrev last_failure : Outside → Option Failure → Option Error
last_failure o none = none
last_failure o (some e) = some (o.failure_error e)

-- The handler of a route.
unfoldable pub handle : Outside → Request → Site → Response × Site
unfolding log_in list_answer select switch_direct test_answer test_status filter_answer
    refresh_answer restart_application start_code cancel_code
handle o version s = (answer 200 build, s)
handle o (login input) s = log_in o input s
handle o logout s = (record (answer 200 done) { cookie = some [] }, s)
handle o show_status s = (
  answer 200 (
      runtime (
        status s.refresher.running (last_refresh s.world.database)
          (last_failure o s.refresher.last_err) s.world.manager)),
  s,
)
handle o (list_nodes limit offset) s = (list_answer o.store_error (nodes_page limit offset s), s)
handle o (select_node input) s = select o input s
handle o reconnect s = manager_answer (reconnect_current o.drivers o.store_error s.world) s
handle o (direct input) s = switch_direct o input s
handle o (start_test ip) s = test_answer o start_code 202 s (queue_manual ip s.tests)
handle o (cancel_test ip) s = test_answer o cancel_code 200 s (cancel_manual ip s.tests)
handle o (show_test ip) s = (test_status (s.tests.jobs ip) (node s.world.database ip), s)
handle o get_config s = (answer 200 (settings_body (shown_config s.settings.settings)), s)
handle o (put_config input) s = save_settings o input s
handle o (validate_filter input) s = (filter_answer o input, s)
handle o refresh s = refresh_answer s (trigger s.refresher)
handle o restart s = restart_application o s
handle o unknown s = (answer 404 (problem "API route not found"), s)

-- `Setup`: the routes before the group have no check of the session.
unfoldable pub is_open : Request → Bool
is_open version = true
is_open (login input) = true
is_open request = false

-- `auth`, with the cookie of the request.
unfoldable pub serve : Outside → Bytes → Request → Site → Response × Site
serve o cookie request s =
    if is_open request || verify_session o.crypto s.settings.settings cookie o.now
    then handle o request s
    else (answer 401 (problem "authentication required"), s)
