-- ===== src/Examples/SpeedTests.antt =====
-- A run of the speed test service.
use proxygate.Prelude.{false, List, [], ◌∷◌, none, refl}
use proxygate.Prelude.Int.{pos}
use proxygate.SpeedQueue.{
  Service, Event, queues, cancels, starts, takes, ends, stops, closes, was_measured, run,
}
use proxygate.SpeedQueue.Progress.{
  IsLive, IsTracked, AllTimely, queue_manual-reading, run-IsTracked,
}

abbrev idle_service : Service
idle_service = record {
  jobs = λ ip. none;
  next_job_id = 0;
  queue = [];
  current = none;
  is_alive = false;
  is_reading = false;
}

idle_service-IsTracked : IsTracked idle_service
unfolding IsLive
idle_service-IsTracked = record {
  live = λ ip id p. cc;
  quiet = λ d k i. refl;
  free = λ d. refl;
  closed = λ d. refl;
}

abbrev events : List Event
events =
    starts
    ∷ queues "203.0.113.7"
    ∷ queues "203.0.113.8"
    ∷ takes
    ∷ cancels "203.0.113.8"
    ∷ ends (was_measured (pos 2000))
    ∷ stops "context canceled"
    ∷ closes
    ∷ starts
    ∷ []

events-AllTimely : AllTimely events idle_service
unfolding AllTimely
events-AllTimely = (
  tt,
  (λ e. refl, (λ e. queue_manual-reading "203.0.113.7" _, (tt, (tt, (tt, (tt, (tt, (tt, tt)))))))),
)

run-IsTracked_example : IsTracked (run events idle_service)
run-IsTracked_example = run-IsTracked events idle_service events-AllTimely idle_service-IsTracked
