-- ===== src/Socks5/Relay.antt =====
-- `relayTCP` of internal/socks5/relay.go: the event loop over the two copying goroutines and the two
-- timers. Times are nanoseconds since `started`; a timer is the time at which it fires.
pub mod Timeouts
pub mod Quiet
use proxygate.Prelude.{
  ℕ, zero, suc, ◌+◌, ◌-◌, Bool, true, false, List, [], ◌∷◌, Option, none, some, leb, ◌==◌,
  if◌then◌else◌,
}

pub record Limits : Type 0 where
  pub idle : ℕ
  pub half_close : ℕ

pub record Relay : Type 0 where
  pub last_activity : ℕ
  pub completed : ℕ
  pub idle_timer : ℕ
  pub half_close_timer : Option ℕ

-- What the loop or a writer meets: bytes were written, a direction is done (with an error or not),
-- a timer has fired, the context is done.
pub data Event : Type 0 where
  writes : ℕ → Event
  finishes : ℕ → Bool → Event
  half_close_fires idle_fires : ℕ → Event
  context_ends : ℕ → Event

pub data Ending : Type 0 where
  done copy_failed half_close_timeout idle_timeout : Ending

pub data Status : Type 0 where
  running : Relay → Status
  ended : Ending → Status

unfoldable pub start : Limits → Relay
start l = record { last_activity = 0; completed = 0; idle_timer = l.idle; half_close_timer = none }

-- `remaining <= 0`, and the timer's new time.
abbrev is_spent : ℕ → ℕ → Relay → Bool
is_spent timeout now s = leb (timeout + s.last_activity) now

abbrev reset_to : ℕ → ℕ → Relay → ℕ
reset_to timeout now s = now + (timeout - (now - s.last_activity))

-- A direction that is done without an error.
finish_one : ℕ → ℕ → Limits → Relay → Status
finish_one zero now l s =
    running (record s {
      completed = 1;
      last_activity = now;
      half_close_timer = some (now + l.half_close);
    })
finish_one (suc n) now l s = ended done

-- The half-close channel is nil until one direction is done.
half_close_fired : Option ℕ → ℕ → Limits → Relay → Status
half_close_fired none now l s = running s
half_close_fired (some t) now l s =
    if is_spent l.half_close now s
    then ended half_close_timeout
    else running (record s { half_close_timer = some (reset_to l.half_close now s) })

step : Limits → Event → Relay → Status
unfolding finish_one half_close_fired
step l (writes now) s = running (record s { last_activity = now })
step l (finishes now true) s = ended copy_failed
step l (finishes now false) s = finish_one s.completed now l s
step l (half_close_fires now) s = half_close_fired s.half_close_timer now l s
step l (idle_fires now) s =
    if is_spent l.idle now s
    then ended idle_timeout
    else running (record s { idle_timer = reset_to l.idle now s })
step l (context_ends now) s = ended done

-- An ended relay takes no further event.
advance : Status → Limits → Event → Status
unfolding step
advance (ended e) l event = ended e
advance (running s) l event = step l event s

unfoldable pub relay_tcp : Limits → List Event → Status → Status
unfolding advance
relay_tcp l [] s = s
relay_tcp l (e ∷ es) s = relay_tcp l es (advance s l e)
