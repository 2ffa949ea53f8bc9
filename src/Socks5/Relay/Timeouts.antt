-- ===== src/Socks5/Relay/Timeouts.antt =====
-- When a TCP relay is given up.
use proxygate.Prelude.{
  ℕ, zero, suc, ◌+◌, ◌≤◌, true, false, List, [], ◌∷◌, ◌++◌, Option, none, some, ◌≡◌, ◌⊎◌, inl, inr,
  refl, subst, arith, leb, Bool-cases,
}
use proxygate.Socks5.Relay.{
  Limits, Relay, Event, writes, finishes, half_close_fires, idle_fires, context_ends, Ending,
  idle_timeout, Status, running, ended, start, step, finish_one, half_close_fired, advance,
  relay_tcp,
}

abbrev pub time_of : Event → ℕ
time_of (writes now) = now
time_of (finishes now failed) = now
time_of (half_close_fires now) = now
time_of (idle_fires now) = now
time_of (context_ends now) = now

-- No event is earlier than `t` or than one before it.
abbrev pub IsOrdered : ℕ → List Event → Type 0
IsOrdered t [] = Unit {0}
IsOrdered t (e ∷ es) = (t ≤ time_of e) × IsOrdered (time_of e) es

abbrev pub end_time : ℕ → List Event → ℕ
end_time t [] = t
end_time t (e ∷ es) = end_time (time_of e) es

-- Each timer fires at the latest when its timeout has passed since the last activity, and the
-- half-close timer runs exactly if one direction is done.
pub record IsPrompt (l : Limits) (now : ℕ) (s : Relay) : Type 0 where
  pub past : s.last_activity ≤ now
  pub idle_prompt : s.idle_timer ≤ s.last_activity + l.idle
  pub half_close_prompt : (t : ℕ) → s.half_close_timer ≡ some t → t ≤ s.last_activity + l.half_close
  pub open_directions :
      ((s.completed ≡ 0) × (s.half_close_timer ≡ none))
      ⊎ ((s.completed ≡ 1) × ((t : ℕ) × (s.half_close_timer ≡ some t)))

abbrev AllPrompt : Limits → ℕ → Status → Type 0
AllPrompt l now (running s) = IsPrompt l now s
AllPrompt l now (ended e) = Unit {0}

half_close_fired-IsPrompt :
    (l : Limits) (t now : ℕ) (timer : Option ℕ) (s : Relay)
    → s.half_close_timer ≡ timer
    → t ≤ now
    → IsPrompt l t s
    → AllPrompt l now (half_close_fired timer now l s)
unfolding half_close_fired
half_close_fired-IsPrompt l t now none s e k p = record {
  past = omega (arith, p.past);
  idle_prompt = p.idle_prompt;
  half_close_prompt = p.half_close_prompt;
  open_directions = p.open_directions;
}
half_close_fired-IsPrompt l t now (some h) s e k p =
    elim (Bool-cases (leb (l.half_close + s.last_activity) now)) [
      | inl spent ↦ rw spent tt
      | inr left ↦ rw left record {
        past = omega (arith, p.past);
        idle_prompt = p.idle_prompt;
        half_close_prompt = λ i j. ground (arith, j, left, p.past);
        open_directions = ground (arith, e, p.open_directions);
      }
    ]

finish_one-IsPrompt :
    (l : Limits) (t now completed : ℕ) (s : Relay)
    → s.completed ≡ completed
    → t ≤ now
    → IsPrompt l t s
    → AllPrompt l now (finish_one completed now l s)
unfolding finish_one
finish_one-IsPrompt l t now zero s e k p = record {
  past = omega arith;
  idle_prompt = omega (arith, p.idle_prompt, p.past);
  half_close_prompt = λ h e. ground (arith, e);
  open_directions = inr (refl, (now + l.half_close, refl));
}
finish_one-IsPrompt l t now (suc n) s e k p = tt

step-IsPrompt :
    (l : Limits) (t : ℕ) (e : Event) (s : Relay)
    → t ≤ time_of e
    → IsPrompt l t s
    → AllPrompt l (time_of e) (step l e s)
unfolding step
step-IsPrompt l t (writes now) s k p = record {
  past = omega arith;
  idle_prompt = ground (arith, p.idle_prompt, p.past);
  half_close_prompt = λ h e. ground (arith, p.half_close_prompt h e, p.past);
  open_directions = p.open_directions;
}
step-IsPrompt l t (finishes now true) s k p = tt
step-IsPrompt l t (finishes now false) s k p = finish_one-IsPrompt l t now s.completed s refl k p
step-IsPrompt l t (half_close_fires now) s k p =
    half_close_fired-IsPrompt l t now s.half_close_timer s refl k p
step-IsPrompt l t (idle_fires now) s k p = elim (Bool-cases (leb (l.idle + s.last_activity) now)) [
  | inl e ↦ rw e tt
  | inr e ↦ rw e record {
    past = omega (arith, p.past);
    idle_prompt = ground (arith, e, p.past);
    half_close_prompt = p.half_close_prompt;
    open_directions = p.open_directions;
  }
]
step-IsPrompt l t (context_ends now) s k p = tt

pub relay_tcp-ended :
    (l : Limits) (es : List Event) (x : Ending) → relay_tcp l es (ended x) ≡ ended x
unfolding relay_tcp advance
relay_tcp-ended l [] x = refl
relay_tcp-ended l (e ∷ es) x = relay_tcp-ended l es x

relay_tcp-AllPrompt :
    (l : Limits) (t : ℕ) (es : List Event) (s : Status)
    → IsOrdered t es
    → AllPrompt l t s
    → AllPrompt l (end_time t es) (relay_tcp l es s)
unfolding relay_tcp advance
relay_tcp-AllPrompt l t [] s o p = p
relay_tcp-AllPrompt l t (e ∷ es) (ended x) o p = rw (relay_tcp-ended l es x) tt
relay_tcp-AllPrompt l t (e ∷ es) (running s) o p =
    relay_tcp-AllPrompt l (time_of e) es (step l e s) o.1 (step-IsPrompt l t e s o.0 p)

-- After any events in the order of time, a relay that still runs has a timer for the idle timeout
-- that fires at the latest when that timeout has passed since the last activity; if one direction
-- is done, the same holds of the half-close timer, which runs in this case only.
pub relay_tcp-IsPrompt :
    (l : Limits) (es : List Event) (s : Relay)
    → IsOrdered 0 es
    → relay_tcp l es (running (start l)) ≡ running s
    → IsPrompt l (end_time 0 es) s
unfolding start
relay_tcp-IsPrompt l es s o h = subst (AllPrompt l (end_time 0 es)) h (
    relay_tcp-AllPrompt l 0 es (running (start l)) o (record {
      past = omega arith;
      idle_prompt = omega arith;
      half_close_prompt = λ t e. cc;
      open_directions = inl (refl, refl);
    }))

abbrev IsWrittenBy : ℕ → Event → Type 0
IsWrittenBy bound (writes t) = t ≤ bound
IsWrittenBy bound _ = Unit {0}

-- Every write among the events was made at the latest at `bound`.
abbrev pub WritesBy : ℕ → List Event → Type 0
WritesBy bound [] = Unit {0}
WritesBy bound (writes t ∷ es) = (t ≤ bound) × WritesBy bound es
WritesBy bound (e ∷ es) = WritesBy bound es

abbrev AllActive : ℕ → Event → Status → Type 0
AllActive last e (ended x) = Unit {0}
AllActive last e (running s) =
    (last ≤ s.last_activity) × (s.last_activity ≤ time_of e) × IsWrittenBy s.last_activity e

finish_one-active :
    (l : Limits) (now completed : ℕ) (s : Relay)
    → s.last_activity ≤ now
    → AllActive s.last_activity (finishes now false) (finish_one completed now l s)
unfolding finish_one
finish_one-active l now zero s k = (k, omega arith, tt)
finish_one-active l now (suc n) s k = tt

half_close_fired-active :
    (l : Limits) (now : ℕ) (timer : Option ℕ) (s : Relay)
    → s.last_activity ≤ now
    → AllActive s.last_activity (half_close_fires now) (half_close_fired timer now l s)
unfolding half_close_fired
half_close_fired-active l now none s k = (omega arith, k, tt)
half_close_fired-active l now (some t) s k =
    elim (Bool-cases (leb (l.half_close + s.last_activity) now)) [
      | inl e ↦ rw e tt
      | inr e ↦ rw e (omega arith, k, tt)
    ]

step-active :
    (l : Limits) (e : Event) (s : Relay)
    → s.last_activity ≤ time_of e
    → AllActive s.last_activity e (step l e s)
unfolding step
step-active l (writes now) s k = (k, omega arith, omega arith)
step-active l (finishes now true) s k = tt
step-active l (finishes now false) s k = finish_one-active l now s.completed s k
step-active l (half_close_fires now) s k = half_close_fired-active l now s.half_close_timer s k
step-active l (idle_fires now) s k = elim (Bool-cases (leb (l.idle + s.last_activity) now)) [
  | inl e ↦ rw e tt
  | inr e ↦ rw e (omega arith, k, tt)
]
step-active l (context_ends now) s k = tt

WritesBy-cons :
    (bound last : ℕ) (e : Event) (es : List Event)
    → IsWrittenBy last e
    → last ≤ bound
    → WritesBy bound es
    → WritesBy bound (e ∷ es)
WritesBy-cons bound last (writes t) es h k w = (omega arith, w)
WritesBy-cons bound last (finishes t failed) es h k w = w
WritesBy-cons bound last (half_close_fires t) es h k w = w
WritesBy-cons bound last (idle_fires t) es h k w = w
WritesBy-cons bound last (context_ends t) es h k w = w

relay_tcp-next :
    (l : Limits) (last : ℕ) (e : Event) (es : List Event) (x : Status) (v : Relay)
    → ((s : Relay)
        → s.last_activity ≤ time_of e
        → relay_tcp l es (running s) ≡ running v
        → (s.last_activity ≤ v.last_activity) × WritesBy v.last_activity es)
    → AllActive last e x
    → relay_tcp l es x ≡ running v
    → (last ≤ v.last_activity) × WritesBy v.last_activity (e ∷ es)
relay_tcp-next l last e es (ended x) v ih a h = absurd (ground (arith, relay_tcp-ended l es x, h))
relay_tcp-next l last e es (running s) v ih (grows, past, w) h =
    let (later, rest) = ih s past h in
    (omega arith, WritesBy-cons v.last_activity s.last_activity e es w later rest)

relay_tcp-active :
    (l : Limits) (t : ℕ) (es : List Event) (s v : Relay)
    → IsOrdered t es
    → s.last_activity ≤ t
    → relay_tcp l es (running s) ≡ running v
    → (s.last_activity ≤ v.last_activity) × WritesBy v.last_activity es
unfolding relay_tcp advance
relay_tcp-active l t [] s v o k h = (ground (arith, h), tt)
relay_tcp-active l t (e ∷ es) s v (o, os) k h =
    relay_tcp-next l s.last_activity e es (step l e s) v
      (λ r. relay_tcp-active l (time_of e) es r v os) (step-active l e s (omega arith)) h

pub relay_tcp-++ :
    (l : Limits) (es fs : List Event) (x : Status)
    → relay_tcp l (es ++ fs) x ≡ relay_tcp l fs (relay_tcp l es x)
unfolding relay_tcp
relay_tcp-++ l [] fs x = refl
relay_tcp-++ l (e ∷ es) fs x = relay_tcp-++ l es fs (advance x l e)

idle_fires-spent :
    (l : Limits) (now : ℕ) (s : Relay)
    → relay_tcp l (idle_fires now ∷ []) (running s) ≡ ended idle_timeout
    → l.idle + s.last_activity ≤ now
unfolding relay_tcp advance step
idle_fires-spent l now s h = ground (arith, h)

-- No relay is cut off by the idle timeout while bytes still flow: if the timer that fires at `now`
-- ends a relay that ran until then, every write was made at least the idle timeout before `now`.
pub relay_tcp-idle_timeout :
    (l : Limits) (es : List Event) (now : ℕ) (s : Relay)
    → IsOrdered 0 es
    → relay_tcp l es (running (start l)) ≡ running s
    → relay_tcp l (es ++ idle_fires now ∷ []) (running (start l)) ≡ ended idle_timeout
    → (bound : ℕ) × (l.idle + bound ≤ now) × WritesBy bound es
unfolding start
relay_tcp-idle_timeout l es now s o h k = (
  s.last_activity,
  idle_fires-spent l now s
      (rw (relay_tcp-++ l es (idle_fires now ∷ []) (running (start l)), h) at k),
  (relay_tcp-active l 0 es (start l) s o (omega arith) h).1,
)
