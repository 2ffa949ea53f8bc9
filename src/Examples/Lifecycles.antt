-- ===== src/Examples/Lifecycles.antt =====
-- A service that is started, fails to stop in time, ends with an error and is restarted.
use proxygate.Prelude.{false, List, [], ◌∷◌, none, some, refl}
use proxygate.Services.{
  Service, Event, starts, stops, restarts, counts, ends, closes, worker_done, context_done, run,
}
use proxygate.Services.Reported.{IsReported, run-IsReported}

abbrev fresh : Service
fresh = record {
  status = record { running = false; restarts = 0; last_error = "" };
  handle = none;
  next = 0;
  live = [];
}

abbrev events : List Event
events =
    starts none
    ∷ stops (context_done "deadline")
    ∷ starts none
    ∷ ends 0 (some "accept")
    ∷ closes 0
    ∷ restarts (worker_done none) (some "in use")
    ∷ counts
    ∷ starts none
    ∷ []

run-IsReported_example : IsReported (run events fresh)
run-IsReported_example = run-IsReported events fresh refl
