-- ===== src/Services.antt =====
-- internal/service: the state that a background service reports (types.go), and the starting, stopping
-- and restarting of the SOCKS5 service and of the health check (start.go and stop.go of both). The
-- health check has nothing that it could fail to listen on.
pub mod Reported
use proxygate.Prelude.{
  ℕ, suc, ◌+◌, ◌==◌, ◌&&◌, ◌||◌, not, ◌^◌, ◌%◌, String, Bool, true, false, List, [], ◌∷◌, Option,
  none, some, concat, if◌then◌else◌,
}

-- `Status`, less its name and times.
pub record Status : Type 0 where
  pub running : Bool
  pub restarts : ℕ
  pub last_error : String

-- A goroutine of a service that has not closed its `done`: whether its context is done, and whether it
-- has called `Stopped`. Goroutines are named by numbers.
pub record Worker : Type 0 where
  pub id : ℕ
  pub cancelled : Bool
  pub reported : Bool

-- `handle` names the goroutine whose `cancel` and `done` the service holds; `live` are all goroutines
-- that have not closed their `done`, and those below `next` were started.
pub record Service : Type 0 where
  pub status : Status
  pub handle : Option ℕ
  pub next : ℕ
  pub live : List Worker

-- `Started`, `Stopped` and `Restarted`
abbrev started : Status → Status
started s = record s { running = true; last_error = "" }

abbrev error_or : String → Option String → String
error_or old none = old
error_or old (some e) = e

abbrev stopped : Option String → Status → Status
stopped e s = record s { running = false; last_error = error_or s.last_error e }

abbrev restarted : Status → Status
restarted s = record s { restarts = (s.restarts + 1) % 2 ^ 64 }

-- Whether `done` is still open.
is_live : ℕ → List Worker → Bool
is_live i [] = false
is_live i (w ∷ ws) = w.id == i || is_live i ws

-- Whether a goroutine has yet to call `Stopped`.
is_busy : ℕ → List Worker → Bool
is_busy i [] = false
is_busy i (w ∷ ws) = (w.id == i && not w.reported) || is_busy i ws

change : (Worker → Worker) → ℕ → List Worker → List Worker
change f i [] = []
change f i (w ∷ ws) = (if w.id == i then f w else w) ∷ change f i ws

remove : ℕ → List Worker → List Worker
remove i [] = []
remove i (w ∷ ws) = let rest = remove i ws in if w.id == i then rest else w ∷ rest

-- `Start`, for the error of listening, if there is one.
launch : Option String → Service → Option String × Service
launch (some e) s =
    let e = concat ("start SOCKS5 service: " ∷ e ∷ []) in
    (some e, record s { status = stopped (some e) s.status; handle = none })
launch none s = (
  none,
  record {
    status = started s.status;
    handle = some s.next;
    next = suc s.next;
    live = record { id = s.next; cancelled = false; reported = false } ∷ s.live;
  },
)

start_over : Option String → Option ℕ → Service → Option String × Service
unfolding launch is_live
start_over listens none s = launch listens s
start_over listens (some i) s =
    if is_live i s.live then (some "service is already running", s) else launch listens s

unfoldable pub start : Option String → Service → Option String × Service
unfolding start_over
start listens s = start_over listens s.handle s

-- The end of a goroutine: `Stopped` with its error, and then the closing of `done`.
end_worker : Option String → ℕ → Service → Service
unfolding is_busy change
end_worker e i s =
    if is_busy i s.live
    then record s {
      status = stopped e s.status;
      live = change (λ w. record w { reported = true }) i s.live;
    }
    else s

close_worker : ℕ → Service → Service
unfolding is_busy remove
close_worker i s = if is_busy i s.live then s else record s { live = remove i s.live }

-- How the wait of `Stop`, which cancels the context first, ends: the goroutine is done, with its error if
-- it had not called `Stopped` before, or the context of `Stop` is. The lock is held for that time, so
-- nothing but the goroutine's own steps comes between.
pub data Wait : Type 0 where
  worker_done : Option String → Wait
  context_done : String → Wait

wait : Wait → ℕ → Service → Option String × Service
unfolding end_worker close_worker
wait (worker_done e) i s = (none, record (close_worker i (end_worker e i s)) { handle = none })
wait (context_done e) i s = (
  some (concat ("stop service: " ∷ e ∷ [])),
  record s { live = change (λ w. record w { cancelled = true }) i s.live },
)

stop_worker : Wait → Option ℕ → Service → Option String × Service
unfolding wait
stop_worker how none s = (none, s)
stop_worker how (some i) s = wait how i s

unfoldable pub stop : Wait → Service → Option String × Service
unfolding stop_worker
stop how s = stop_worker how s.handle s

-- `Restart`
count_restart : Service → Service
count_restart s = record s { status = restarted s.status }

after_stop : Option String → Option String × Service → Option String × Service
unfolding count_restart
after_stop listens (some e, s) = (some e, s)
after_stop listens (none, s) = start listens (count_restart s)

unfoldable pub restart : Wait → Option String → Service → Option String × Service
unfolding after_stop
restart how listens s = after_stop listens (stop how s)

-- What happens to a service, in the order of its lock; the two last steps of a goroutine need no lock.
-- `Restart` lets go of the lock between its steps: with others in between it is `stops`, `counts` and
-- `starts`.
pub data Event : Type 0 where
  starts : Option String → Event
  stops : Wait → Event
  restarts : Wait → Option String → Event
  counts : Event
  ends : ℕ → Option String → Event
  closes : ℕ → Event

step : Event → Service → Service
unfolding end_worker close_worker count_restart
step (starts listens) s = (start listens s).1
step (stops how) s = (stop how s).1
step (restarts how listens) s = (restart how listens s).1
step counts s = count_restart s
step (ends i e) s = end_worker e i s
step (closes i) s = close_worker i s

unfoldable pub run : List Event → Service → Service
unfolding step
run [] s = s
run (e ∷ events) s = run events (step e s)
