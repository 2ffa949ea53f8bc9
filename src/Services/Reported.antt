-- ===== src/Services/Reported.antt =====
-- What a service reports is what its goroutine does.
use proxygate.Prelude.{
  ℕ, Bool, true, false, not, List, [], ◌∷◌, Option, none, some, String, ◌≡◌, arith,
}
use proxygate.Services.{
  Worker, Service, launch, start_over, start, is_live, is_busy, change, remove, end_worker,
  close_worker, Wait, worker_done, context_done, wait, stop_worker, stop, after_stop, restart,
  Event, starts, stops, restarts, counts, ends, closes, step, run, count_restart, Status,
}

-- No goroutine, or one, which is the one that the service holds and has not called `Stopped` exactly if
-- the service is shown as running.
abbrev pub Fits : Bool → Option ℕ → List Worker → Type 0
Fits running handle [] = running ≡ false
Fits running handle (w ∷ []) = (running ≡ not w.reported) × (handle ≡ some w.id)
Fits running handle (w ∷ v ∷ ws) = false ≡ true

abbrev pub IsReported : Service → Type 0
IsReported s = Fits s.status.running s.handle s.live

module _ (status : Status) (handle : Option ℕ) (next : ℕ) where
  abbrev with : List Worker → Service
  with live = record { status = status; handle = handle; next = next; live = live }

  start-IsReported :
      (listens : Option String) (live : List Worker)
      → IsReported (with live)
      → IsReported (start listens (with live)).1
  unfolding start start_over launch is_live
  start-IsReported listens [] h = ground arith
  start-IsReported listens (w ∷ []) h = ground (arith, h)
  start-IsReported listens (w ∷ v ∷ ws) h = absurd (ground (arith, h))

  end_worker-IsReported :
      (e : Option String) (i : ℕ) (live : List Worker)
      → IsReported (with live)
      → IsReported (end_worker e i (with live))
  unfolding end_worker is_busy change
  end_worker-IsReported e i [] h = h
  end_worker-IsReported e i (w ∷ []) h = ground (arith, h)
  end_worker-IsReported e i (w ∷ v ∷ ws) h = absurd (ground (arith, h))

  close_worker-IsReported :
      (i : ℕ) (live : List Worker)
      → IsReported (with live)
      → IsReported (close_worker i (with live))
  unfolding close_worker is_busy remove
  close_worker-IsReported i [] h = h
  close_worker-IsReported i (w ∷ []) h = ground (arith, h)
  close_worker-IsReported i (w ∷ v ∷ ws) h = absurd (ground (arith, h))

  stop-IsReported :
      (how : Wait) (live : List Worker)
      → IsReported (with live)
      → IsReported (stop how (with live)).1
  unfolding stop stop_worker wait end_worker close_worker is_busy remove change
  stop-IsReported how [] h = ground (arith, h)
  stop-IsReported (worker_done e) (w ∷ []) h = ground (arith, h)
  stop-IsReported (context_done e) (w ∷ []) h = ground (arith, h)
  stop-IsReported how (w ∷ v ∷ ws) h = absurd (ground (arith, h))

start_any-IsReported :
    (listens : Option String) (s : Service) → IsReported s → IsReported (start listens s).1
start_any-IsReported listens s h = start-IsReported s.status s.handle s.next listens s.live h

restart-IsReported :
    (listens : Option String) (r : Option String × Service)
    → IsReported r.1
    → IsReported (after_stop listens r).1
unfolding after_stop count_restart
restart-IsReported listens (some e, s) h = h
restart-IsReported listens (none, s) h = start_any-IsReported listens (count_restart s) h

step-IsReported : (e : Event) (s : Service) → IsReported s → IsReported (step e s)
unfolding step restart count_restart
step-IsReported (starts listens) s h = start_any-IsReported listens s h
step-IsReported (stops how) s h = stop-IsReported s.status s.handle s.next how s.live h
step-IsReported (restarts how listens) s h =
    restart-IsReported listens (stop how s) (stop-IsReported s.status s.handle s.next how s.live h)
step-IsReported counts s h = h
step-IsReported (ends i e) s h = end_worker-IsReported s.status s.handle s.next e i s.live h
step-IsReported (closes i) s h = close_worker-IsReported s.status s.handle s.next i s.live h

-- Whatever starts, stops and restarts a service in whatever order, and however its goroutines end: at
-- most one goroutine has not closed its `done`, it is the one whose `done` the service holds, and the
-- service reports that it runs exactly while there is one that has not called `Stopped`.
pub run-IsReported : (events : List Event) (s : Service) → IsReported s → IsReported (run events s)
unfolding run
run-IsReported [] s h = h
run-IsReported (e ∷ events) s h = run-IsReported events (step e s) (step-IsReported e s h)
