-- ===== src/SpeedQueue.antt =====
-- internal/service/speedtest: the queue of speed tests that users ask for, and its worker. The map
-- of jobs is a function of the address.
pub mod Progress
use proxygate.Prelude.{
  ℕ, suc, ◌+◌, ◌^◌, ◌%◌, String, Bool, true, false, ◌&&◌, ◌||◌, not, List, [], ◌∷◌, ◌++◌, Option,
  none, some, Result, ok, err, length, ltb, ◌==◌, str_eq, if◌then◌else◌,
}
use proxygate.Prelude.Int.{ℤ}

pub data Outcome : Type 0 where
  running canceled : Outcome
  complete : ℤ → Outcome
  failed : String → Outcome

abbrev pub is_running : Outcome → Bool
is_running running = true
is_running canceled = false
is_running (complete speed) = false
is_running (failed why) = false

pub record Job : Type 0 where
  pub id : ℕ
  pub result : Outcome

pub record QueuedJob : Type 0 where
  pub ip : String
  pub id : ℕ

-- `is_alive` from `Start` until the worker closes `done`, and `is_reading` until it leaves its loop;
-- `current` is the job whose test is in progress.
pub record Service : Type 0 where
  pub jobs : String → Option Job
  pub next_job_id : ℕ
  pub queue : List QueuedJob
  pub current : Option QueuedJob
  pub is_alive : Bool
  pub is_reading : Bool

pub data QueueError : Type 0 where
  not_running already_running queue_full not_found : QueueError

abbrev pub put_job : String → Option Job → (String → Option Job) → String → Option Job
put_job ip job jobs k = if str_eq k ip then job else jobs k

abbrev pub has_running : Option Job → Bool
has_running none = false
has_running (some j) = is_running j.result

-- `QueueManual`
enqueue : String → Service → Result QueueError Outcome × Service
enqueue ip s =
    let id = (s.next_job_id + 1) % 2 ^ 64 in
    if ltb (length s.queue) 128
    then (
      ok running,
      record s {
        next_job_id = id;
        jobs = put_job ip (some (record { id = id; result = running })) s.jobs;
        queue = s.queue ++ record { ip = ip; id = id } ∷ [];
      },
    )
    else (err queue_full, record s { next_job_id = id; jobs = put_job ip none s.jobs })

pub queue_manual : String → Service → Result QueueError Outcome × Service
unfolding enqueue
queue_manual ip s =
    if not s.is_alive
    then (err not_running, s)
    else if has_running (s.jobs ip)
    then (err already_running, s)
    else enqueue ip s

-- `CancelManual`
cancel_job : Option Job → String → Service → Result QueueError Outcome × Service
cancel_job none ip s = (err not_found, s)
cancel_job (some j) ip s =
    if is_running j.result
    then (
      ok canceled,
      record s { jobs = put_job ip (some (record j { result = canceled })) s.jobs },
    )
    else (ok j.result, s)

pub cancel_manual : String → Service → Result QueueError Outcome × Service
unfolding cancel_job
cancel_manual ip s = cancel_job (s.jobs ip) ip s

-- `exists && record.id == job.id && record.result.State == "running"`
abbrev pub is_pending : Option Job → ℕ → Bool
is_pending none id = false
is_pending (some j) id = j.id == id && is_running j.result

settle : QueuedJob → Outcome → Service → Service
settle q result s =
    if is_pending (s.jobs q.ip) q.id
    then record s { jobs = put_job q.ip (some (record { id = q.id; result = result })) s.jobs }
    else s

-- The worker takes a job, and `run` looks whether it is still wanted.
take_job : List QueuedJob → Service → Service
take_job [] s = s
take_job (q ∷ qs) s = record s {
  queue = qs;
  current = if is_pending (s.jobs q.ip) q.id then some q else none;
}

-- The end of `run`: the test is done.
pub data Ended : Type 0 where
  was_canceled : Ended
  was_measured : ℤ → Ended
  went_wrong : String → Ended

abbrev result_of : Ended → Outcome
result_of was_canceled = canceled
result_of (was_measured speed) = complete speed
result_of (went_wrong why) = failed why

finish_run : Option QueuedJob → Ended → Service → Service
unfolding settle
finish_run none e s = s
finish_run (some q) e s = record (settle q (result_of e) s) { current = none }

-- `failPending`
fail_pending : List QueuedJob → String → Service → Service
unfolding settle
fail_pending [] why s = s
fail_pending (q ∷ qs) why s = fail_pending qs why (record (settle q (failed why) s) { queue = qs })

-- `failRunning`
abbrev fail_job : String → Option Job → Option Job
fail_job why none = none
fail_job why (some j) =
    if is_running j.result then some (record j { result = failed why }) else some j

fail_running : String → Service → Service
fail_running why s = record s { jobs = λ ip. fail_job why (s.jobs ip) }

-- What happens to the service, in the order of its locks; `starts` is `Start`. The worker stops
-- between two jobs when its context is done, and at any time by a panic, which `Start` recovers. It
-- leaves its loop and fails the jobs in that step, and closes `done` in a later one: between the two a
-- request is still accepted into the queue. `failPending` counts as one step.
pub data Event : Type 0 where
  queues cancels : String → Event
  starts takes : Event
  ends : Ended → Event
  stops panics : String → Event
  closes : Event

take_if_free : Option QueuedJob → Service → Service
unfolding take_job
take_if_free none s = take_job s.queue s
take_if_free (some q) s = s

stop_if_free : Option QueuedJob → String → Service → Service
unfolding fail_pending
stop_if_free none why s = record (fail_pending s.queue why s) { is_reading = false }
stop_if_free (some q) why s = s

step : Event → Service → Service
unfolding finish_run take_if_free stop_if_free fail_running
step (queues ip) s = (queue_manual ip s).1
step (cancels ip) s = (cancel_manual ip s).1
step starts s =
    if s.is_alive
    then s
    else record s { is_alive = true; is_reading = true; queue = []; current = none }
step takes s = if s.is_reading then take_if_free s.current s else s
step (ends e) s = finish_run s.current e s
step (stops why) s = if s.is_reading then stop_if_free s.current why s else s
step (panics why) s =
    if s.is_reading then record (fail_running why s) { is_reading = false; current = none } else s
step closes s = if s.is_reading then s else record s { is_alive = false }

unfoldable pub run : List Event → Service → Service
unfolding step
run [] s = s
run (e ∷ es) s = run es (step e s)
