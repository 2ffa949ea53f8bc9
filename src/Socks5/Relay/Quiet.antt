-- ===== src/Socks5/Relay/Quiet.antt =====
-- A TCP relay on which nothing happens any more.
use proxygate.Prelude.{
  ℕ, zero, suc, ◌+◌, ◌≤◌, true, false, List, [], ◌∷◌, ◌++◌, Option, none, some, ◌≡◌, inl, inr, refl,
  ap, sym, subst, ◌∙◌, arith, leb, Bool-cases,
}
use proxygate.Socks5.Relay.{
  Limits, Relay, Event, writes, finishes, half_close_fires, idle_fires, context_ends, idle_timeout,
  Status, running, ended, start, step, finish_one, half_close_fired, advance, relay_tcp,
}
use proxygate.Socks5.Relay.Timeouts.{
  IsOrdered, end_time, relay_tcp-IsPrompt, relay_tcp-++, relay_tcp-ended,
}

-- The time of the last activity: bytes were written, or a direction was done without an error.
abbrev active_after : ℕ → Event → ℕ
active_after t (writes now) = now
active_after t (finishes now false) = now
active_after t _ = t

abbrev pub last_active : ℕ → List Event → ℕ
last_active t [] = t
last_active t (e ∷ es) = last_active (active_after t e) es

abbrev LastActive : ℕ → Status → Type 0
LastActive t (ended x) = Unit {0}
LastActive t (running s) = s.last_activity ≡ t

finish_one-LastActive :
    (l : Limits) (now completed : ℕ) (s : Relay) → LastActive now (finish_one completed now l s)
unfolding finish_one
finish_one-LastActive l now zero s = refl
finish_one-LastActive l now (suc n) s = tt

half_close_fired-LastActive :
    (l : Limits) (now : ℕ) (timer : Option ℕ) (s : Relay)
    → LastActive s.last_activity (half_close_fired timer now l s)
unfolding half_close_fired
half_close_fired-LastActive l now none s = refl
half_close_fired-LastActive l now (some t) s =
    elim (Bool-cases (leb (l.half_close + s.last_activity) now)) [
      | inl e ↦ rw e tt
      | inr e ↦ rw e refl
    ]

step-LastActive :
    (l : Limits) (e : Event) (s : Relay) → LastActive (active_after s.last_activity e) (step l e s)
unfolding step
step-LastActive l (writes now) s = refl
step-LastActive l (finishes now true) s = tt
step-LastActive l (finishes now false) s = finish_one-LastActive l now s.completed s
step-LastActive l (half_close_fires now) s = half_close_fired-LastActive l now s.half_close_timer s
step-LastActive l (idle_fires now) s = elim (Bool-cases (leb (l.idle + s.last_activity) now)) [
  | inl e ↦ rw e tt
  | inr e ↦ rw e refl
]
step-LastActive l (context_ends now) s = tt

relay_tcp-LastActive :
    (l : Limits) (t : ℕ) (es : List Event) (s : Status)
    → LastActive t s
    → LastActive (last_active t es) (relay_tcp l es s)
unfolding relay_tcp advance
relay_tcp-LastActive l t [] s h = h
relay_tcp-LastActive l t (e ∷ es) (ended x) h = rw (relay_tcp-ended l es x) tt
relay_tcp-LastActive l t (e ∷ es) (running s) h =
    relay_tcp-LastActive l (active_after t e) es (step l e s)
      (subst (λ a. LastActive (active_after a e) (step l e s)) h (step-LastActive l e s))

-- A relay that is given up, or whose timer is due by then at the latest and gives it up when it fires.
abbrev pub IsGivenUp : Limits → ℕ → Status → Type 0
IsGivenUp l due (ended x) = x ≡ idle_timeout
IsGivenUp l due (running v) =
    (v.idle_timer ≤ due)
    × ((c : ℕ)
        → v.idle_timer ≤ c
        → relay_tcp l (idle_fires c ∷ []) (running v) ≡ ended idle_timeout)

idle_fires-IsGivenUp :
    (l : Limits) (s : Relay) (a : ℕ)
    → s.last_activity ≤ a
    → IsGivenUp l (s.last_activity + l.idle) (relay_tcp l (idle_fires a ∷ []) (running s))
unfolding relay_tcp advance step
idle_fires-IsGivenUp l s a h = elim (Bool-cases (leb (l.idle + s.last_activity) a)) [
  | inl e ↦ rw e refl
  | inr e ↦ rw e (ground (arith, e), λ c k. ground (arith, e, k))
]

-- A relay that still runs is given up at the idle timeout if nothing but its timer happens any more. Its
-- timer is due when the timeout has passed since the last activity, or earlier; and a firing of it
-- at `a`, which is not before the last event, either ends the relay with the idle timeout, or sets the
-- timer to a time that is due likewise, and a firing from that time on ends the relay so.
pub relay_tcp-gives_up :
    (l : Limits) (es : List Event) (s : Relay) (a : ℕ)
    → IsOrdered 0 es
    → relay_tcp l es (running (start l)) ≡ running s
    → end_time 0 es ≤ a
    → (s.idle_timer ≤ last_active 0 es + l.idle)
      × IsGivenUp l
          (last_active 0 es + l.idle)
          (relay_tcp l (es ++ idle_fires a ∷ []) (running (start l)))
unfolding start
relay_tcp-gives_up l es s a o h k =
    let p = relay_tcp-IsPrompt l es s o h in
    let same : s.last_activity ≡ last_active 0 es =
      subst (LastActive (last_active 0 es)) h
        (relay_tcp-LastActive l 0 es (running (start l)) refl) in
    let through : relay_tcp l (idle_fires a ∷ []) (running s)
        ≡ relay_tcp l (es ++ idle_fires a ∷ []) (running (start l)) =
      sym (
        relay_tcp-++ l es (idle_fires a ∷ []) (running (start l))
        ∙ ap (relay_tcp l (idle_fires a ∷ [])) h) in
    let early : s.last_activity ≤ a = omega (arith, p.past, k) in
    (
      omega (arith, p.idle_prompt, same),
      subst
          (λ t.
            IsGivenUp l (t + l.idle) (relay_tcp l (es ++ idle_fires a ∷ []) (running (start l))))
          same
          (subst (IsGivenUp l (s.last_activity + l.idle)) through
            (idle_fires-IsGivenUp l s a early)),
    )
