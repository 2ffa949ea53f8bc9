-- ===== src/SpeedQueue/Progress.antt =====
-- No job is shown as running without being on its way.
use proxygate.Prelude.{
  ℕ, ◌+◌, ◌%◌, ◌^◌, String, Bool, true, false, ◌&&◌, ◌||◌, List, [], ◌∷◌, ◌++◌, Option, none, some,
  ◌≡◌, inl, inr, refl, ap, sym, ◌∙◌, arith, str_eq, str_eq_sound, Bool-cases, ◌==◌, if◌then◌else◌,
}
use proxygate.SpeedQueue.{
  Outcome, failed, is_running, Job, QueuedJob, Service, enqueue, queue_manual, cancel_job,
  cancel_manual, is_pending, settle, take_job, Ended, result_of, finish_run, fail_pending,
  fail_running, Event, queues, cancels, starts, takes, ends, stops, panics, closes, take_if_free,
  stop_if_free, step, run,
}

unfoldable pub queued : String → ℕ → List QueuedJob → Bool
queued ip id [] = false
queued ip id (q ∷ qs) = (str_eq ip q.ip && q.id == id) || queued ip id qs

abbrev current_is : String → ℕ → Option QueuedJob → Bool
current_is ip id none = false
current_is ip id (some q) = str_eq ip q.ip && q.id == id

-- Every job whose result says that it is running is in the queue, or its test is in progress.
unfoldable pub IsLive : Service → Type 0
IsLive s =
    (ip : String) (id : ℕ)
    → is_pending (s.jobs ip) id ≡ true
    → (queued ip id s.queue || current_is ip id s.current) ≡ true

queued-snoc :
    (ip : String) (id : ℕ) (q : QueuedJob) (qs : List QueuedJob)
    → queued ip id (qs ++ q ∷ []) ≡ (queued ip id qs || (str_eq ip q.ip && q.id == id))
unfolding queued
queued-snoc ip id q [] = ground arith
queued-snoc ip id q (x ∷ qs) = ground (arith, queued-snoc ip id q qs)

cancel_job-IsLive :
    (o : Option Job) (ip : String) (s : Service) → IsLive s → IsLive (cancel_job o ip s).1
unfolding cancel_job IsLive
cancel_job-IsLive none ip s h = h
cancel_job-IsLive (some j) ip s h = λ k id e. ground (arith, h k id)

settle-IsLive :
    (q : QueuedJob) (result : Outcome) (s : Service)
    → is_running result ≡ false
    → IsLive s
    → IsLive (settle q result s)
unfolding settle IsLive
settle-IsLive q result s r h = λ k id e. ground (arith, h k id)

enqueue-IsLive : (ip : String) (s : Service) → IsLive s → IsLive (enqueue ip s).1
unfolding enqueue IsLive
enqueue-IsLive ip s h =
    let id = (s.next_job_id + 1) % 2 ^ 64 in
    λ k i e. ground (arith, h k i, queued-snoc k i (record { ip = ip; id = id }) s.queue)

queue_manual-IsLive : (ip : String) (s : Service) → IsLive s → IsLive (queue_manual ip s).1
unfolding queue_manual IsLive
queue_manual-IsLive ip s h = λ k i e. ground (arith, h k i, enqueue-IsLive ip s h k i)

take_job-IsLive :
    (qs : List QueuedJob) (s : Service)
    → s.queue ≡ qs
    → s.current ≡ none
    → IsLive s
    → IsLive (take_job qs s)
unfolding take_job IsLive queued
take_job-IsLive [] s e c h = h
take_job-IsLive (q ∷ qs) s e c h = λ k i p.
    let on_its_way : queued k i (q ∷ qs) || current_is k i none ≡ true = rw (e, c) at (h k i p) in
    elim (Bool-cases (str_eq k q.ip)) [
      | inl t ↦
          ground
            (arith, t, p, on_its_way, ap (λ x. is_pending (s.jobs x) i) (str_eq_sound k q.ip t))
      | inr t ↦ ground (arith, t, p, on_its_way)
    ]

result_of-stopped : (x : Ended) → is_running (result_of x) ≡ false
result_of-stopped x = ground arith

finish_run-IsLive :
    (o : Option QueuedJob) (x : Ended) (s : Service)
    → s.current ≡ o
    → IsLive s
    → IsLive (finish_run o x s)
unfolding finish_run settle IsLive
finish_run-IsLive none x s e h = h
finish_run-IsLive (some q) x s e h = λ k i p. elim (Bool-cases (str_eq k q.ip)) [
  | inl t ↦ ground (
    arith,
    t,
    p,
    e,
    h k i,
    result_of-stopped x,
    ap (λ x. is_pending (s.jobs x) i) (str_eq_sound k q.ip t),
  )
  | inr t ↦ ground (arith, t, p, e, h k i)
]

fail_pending-IsLive :
    (qs : List QueuedJob) (why : String) (s : Service)
    → s.queue ≡ qs
    → IsLive s
    → IsLive (fail_pending qs why s)
unfolding fail_pending settle IsLive queued
fail_pending-IsLive [] why s e h = h
fail_pending-IsLive (q ∷ qs) why s e h = fail_pending-IsLive qs why _ refl λ k i p.
    elim (Bool-cases (str_eq k q.ip)) [
      | inl t ↦
          ground (arith, t, p, e, h k i, ap (λ x. is_pending (s.jobs x) i) (str_eq_sound k q.ip t))
      | inr t ↦ ground (arith, t, p, e, h k i)
    ]

fail_running-idle :
    (why : String) (s : Service) (k : String) (i : ℕ)
    → is_pending ((fail_running why s).jobs k) i ≡ false
unfolding fail_running
fail_running-idle why s k i = ground arith

-- Live; once the worker has left its loop nothing is tested and no job is shown as running; and it has
-- left it when `done` is closed.
pub record IsTracked (s : Service) : Type 0 where
  pub live : IsLive s
  pub quiet : s.is_reading ≡ false → (k : String) (i : ℕ) → is_pending (s.jobs k) i ≡ false
  pub free : s.is_reading ≡ false → s.current ≡ none
  pub closed : s.is_alive ≡ false → s.is_reading ≡ false

-- No test is asked for between the two last steps of a worker.
abbrev IsTimely : Event → Service → Type 0
IsTimely (queues ip) s = s.is_alive ≡ true → s.is_reading ≡ true
IsTimely e s = Unit {0}

unfoldable pub AllTimely : List Event → Service → Type 0
unfolding step
AllTimely [] s = Unit {0}
AllTimely (e ∷ es) s = IsTimely e s × AllTimely es (step e s)

fail_pending-empties :
    (qs : List QueuedJob) (why : String) (s : Service)
    → s.queue ≡ qs
    → ((fail_pending qs why s).queue ≡ []) × ((fail_pending qs why s).current ≡ s.current)
unfolding fail_pending settle
fail_pending-empties [] why s e = (e, refl)
fail_pending-empties (q ∷ qs) why s e =
    let rest = fail_pending-empties qs why (record (settle q (failed why) s) { queue = qs }) refl in
    (rest.0, rest.1 ∙ ground arith)

IsLive-idle : (s : Service) → ((k : String) (i : ℕ) → is_pending (s.jobs k) i ≡ false) → IsLive s
unfolding IsLive
IsLive-idle s h k i p = ground (arith, h k i, p)

take_if_free-IsLive :
    (o : Option QueuedJob) (s : Service) → s.current ≡ o → IsLive s → IsLive (take_if_free o s)
unfolding take_if_free
take_if_free-IsLive none s e h = take_job-IsLive s.queue s refl e h
take_if_free-IsLive (some q) s e h = h

-- A live service with nothing queued or tested shows no job as running.
idle-IsLive :
    (s : Service)
    → IsLive s
    → s.queue ≡ []
    → s.current ≡ none
    → (k : String) (i : ℕ) → is_pending (s.jobs k) i ≡ false
unfolding IsLive queued
idle-IsLive s h empty idle k i = elim (Bool-cases (is_pending (s.jobs k) i)) [
  | inl p ↦ absurd (ground (arith, rw (empty, idle) at (h k i p)))
  | inr p ↦ p
]

fail_pending-alive :
    (qs : List QueuedJob) (why : String) (s : Service)
    → (fail_pending qs why s).is_alive ≡ s.is_alive
unfolding fail_pending settle
fail_pending-alive [] why s = refl
fail_pending-alive (q ∷ qs) why s =
    fail_pending-alive qs why (record (settle q (failed why) s) { queue = qs }) ∙ ground arith

stop_if_free-IsTracked :
    (o : Option QueuedJob) (why : String) (s : Service)
    → s.current ≡ o
    → IsTracked s
    → IsTracked (stop_if_free o why s)
unfolding stop_if_free
stop_if_free-IsTracked none why s e h =
    let v = fail_pending s.queue why s in
    let live : IsLive v = fail_pending-IsLive s.queue why s refl h.live in
    let (empty, same) = fail_pending-empties s.queue why s refl in
    record {
      live = unfold IsLive in live;
      quiet = λ d k i. idle-IsLive v live empty (same ∙ e) k i;
      free = λ d. same ∙ e;
      closed = λ d. refl;
    }
stop_if_free-IsTracked (some q) why s e h = h

pub queue_manual-reading :
    (ip : String) (s : Service) → (queue_manual ip s).1.is_reading ≡ s.is_reading
unfolding queue_manual enqueue
queue_manual-reading ip s = ground arith

queue_manual-dead : (ip : String) (s : Service) → s.is_alive ≡ false → (queue_manual ip s).1 ≡ s
unfolding queue_manual
queue_manual-dead ip s d = rw d refl

queue_manual-quiet :
    (ip : String) (s : Service)
    → (s.is_alive ≡ true → s.is_reading ≡ true)
    → IsTracked s
    → (queue_manual ip s).1.is_reading ≡ false
    → (k : String) (i : ℕ) → is_pending ((queue_manual ip s).1.jobs k) i ≡ false
queue_manual-quiet ip s timely h d k i =
    let left : s.is_reading ≡ false = sym (queue_manual-reading ip s) ∙ d in
    let dead : s.is_alive ≡ false = ground (arith, timely, left) in
    ap (λ (v : Service). is_pending (v.jobs k) i) (queue_manual-dead ip s dead) ∙ h.quiet left k i

queue_manual-IsTracked :
    (ip : String) (s : Service)
    → (s.is_alive ≡ true → s.is_reading ≡ true)
    → IsTracked s
    → IsTracked (queue_manual ip s).1
unfolding queue_manual enqueue
queue_manual-IsTracked ip s timely h = record {
  live = unfold IsLive in queue_manual-IsLive ip s h.live;
  quiet = queue_manual-quiet ip s timely h;
  free = λ d. ground (arith, d, h.free);
  closed = λ d. ground (arith, d, h.closed);
}

cancel_manual-IsTracked :
    (o : Option Job) (ip : String) (s : Service) → IsTracked s → IsTracked (cancel_job o ip s).1
unfolding cancel_job
cancel_manual-IsTracked none ip s h = h
cancel_manual-IsTracked (some j) ip s h = record {
  live = unfold IsLive in cancel_job-IsLive (some j) ip s h.live;
  quiet = λ d k i.
      let left : s.is_reading ≡ false = ground (arith, d) in ground (arith, h.quiet left k i);
  free = λ d. ground (arith, d, h.free);
  closed = λ d. ground (arith, d, h.closed);
}

finish_run-IsTracked :
    (o : Option QueuedJob) (x : Ended) (s : Service)
    → s.current ≡ o
    → IsTracked s
    → IsTracked (finish_run o x s)
unfolding finish_run settle
finish_run-IsTracked none x s e h = h
finish_run-IsTracked (some q) x s e h = record {
  live = unfold IsLive in finish_run-IsLive (some q) x s e h.live;
  quiet = λ d. absurd (ground (arith, d, e, h.free));
  free = λ d. refl;
  closed = λ d. ground (arith, d, h.closed);
}

-- A choice that a test of the service makes.
choose-IsTracked :
    (b : Bool) (v u : Service)
    → (b ≡ true → IsTracked v)
    → (b ≡ false → IsTracked u)
    → IsTracked (if b then v else u)
choose-IsTracked true v u h k = h refl
choose-IsTracked false v u h k = k refl

take_if_free-steady :
    (o : Option QueuedJob) (s : Service)
    → ((take_if_free o s).is_alive ≡ s.is_alive) × ((take_if_free o s).is_reading ≡ s.is_reading)
unfolding take_if_free take_job
take_if_free-steady o s = ground arith

start_again-IsTracked :
    (s : Service)
    → IsTracked s
    → s.is_alive ≡ false
    → IsTracked (record s { is_alive = true; is_reading = true; queue = []; current = none })
start_again-IsTracked s h d = record {
  live = IsLive-idle _ λ k i. h.quiet (h.closed d) k i;
  quiet = λ e. cc;
  free = λ e. cc;
  closed = λ e. cc;
}

step-IsTracked : (e : Event) (s : Service) → IsTimely e s → IsTracked s → IsTracked (step e s)
unfolding step cancel_manual
step-IsTracked (queues ip) s t h = queue_manual-IsTracked ip s t h
step-IsTracked (cancels ip) s t h = cancel_manual-IsTracked (s.jobs ip) ip s h
step-IsTracked starts s t h =
    choose-IsTracked s.is_alive s _ (λ a. h) (λ d. start_again-IsTracked s h d)
step-IsTracked takes s t h =
    let same = take_if_free-steady s.current s in
    choose-IsTracked s.is_reading (take_if_free s.current s) s
      (λ a. record {
        live = take_if_free-IsLive s.current s refl h.live;
        quiet = λ d. absurd (ground (arith, same, a, d));
        free = λ d. absurd (ground (arith, same, a, d));
        closed = λ d. ground (arith, same, d, h.closed);
      })
      (λ d. h)
step-IsTracked (ends x) s t h = finish_run-IsTracked s.current x s refl h
step-IsTracked (stops why) s t h =
    choose-IsTracked s.is_reading (stop_if_free s.current why s) s
      (λ a. stop_if_free-IsTracked s.current why s refl h) (λ d. h)
step-IsTracked (panics why) s t h =
    choose-IsTracked s.is_reading
      (record (fail_running why s) { is_reading = false; current = none }) s
      (λ a. record {
        live = IsLive-idle _ (fail_running-idle why s);
        quiet = λ d. fail_running-idle why s;
        free = λ d. refl;
        closed = λ d. refl;
      })
      (λ d. h)
step-IsTracked closes s t h =
    choose-IsTracked s.is_reading s (record s { is_alive = false }) (λ a. h)
      (λ d. record {
        live = unfold IsLive in h.live;
        quiet = h.quiet;
        free = h.free;
        closed = λ e. d;
      })

-- However users queue and cancel speed tests while the worker takes, ends, stops, panics, closes `done`
-- and is started again, from a tracked start: if no test is asked for after a worker has left its loop
-- and before it has closed `done`, then a job whose result says that it is running is in the queue or
-- being tested, and once a worker has left its loop, and until one is started again, no job is shown as
-- running and nothing is tested.
pub run-IsTracked :
    (es : List Event) (s : Service) → AllTimely es s → IsTracked s → IsTracked (run es s)
unfolding run AllTimely
run-IsTracked [] s t h = h
run-IsTracked (e ∷ es) s t h = run-IsTracked es (step e s) t.1 (step-IsTracked e s t.0 h)
