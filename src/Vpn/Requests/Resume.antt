-- ===== src/Vpn/Requests/Resume.antt =====
-- Pausing and resuming connections, and what a candidate leaves behind.
use proxygate.Prelude.{
  ℕ, String, true, false, List, Option, none, some, Result, ok, err, ◌≡◌, refl, ◌⊎◌, inl, inr,
  arith, ap, contains, str_eq, Option-cases, Bool-cases, ◌∙◌,
}
use proxygate.Model.{Node}
use proxygate.Store.{StoreError, node}
use proxygate.Vpn.State.{Selection, auto, manual, Error, World, bump}
use proxygate.Vpn.Sections.{
  set_automatic, set_direct_on, enter_direct, set_direct_off, begin_candidate, is_connect_attempt,
  finish_connect_attempt,
}
use proxygate.Vpn.Connect.{Outside, Activation, activate, validate_forced_protocol, connect_node}
use proxygate.Vpn.Connect.Transaction.{route, activate-failed, activate-IsInstalled, IsInstalled}
use proxygate.Vpn.Requests.{
  Reply, automatic, start_automatic, candidate, start_candidate, start_valid, run_candidate_async,
  set_direct_mode, resume, resume_node, run_candidate, finish_candidate,
}

-- What a resume starts, for the choice that the manager remembers: an automatic selection if there is no
-- manual one with a node.
abbrev RunsAutomatic : World → Reply → Type 0
RunsAutomatic w r =
    ((w.manager.selection ≡ auto) ⊎ (str_eq w.manager.manual_ip "" ≡ true))
    × (r.task ≡ some automatic)
    × (r.error ≡ none)
    × (r.world.manager.selection ≡ w.manager.selection)

abbrev NamesNode : World → Type 0
NamesNode w = (w.manager.selection ≡ manual) × (str_eq w.manager.manual_ip "" ≡ false)

-- The node cannot be read: the manual choice is given up for the automatic one.
abbrev GivesUpChoice : World → Reply → Type 0
GivesUpChoice w r =
    NamesNode w
    × (x : StoreError) × (node w.database w.manager.manual_ip ≡ err x)
    × (r.task ≡ some automatic)
    × (r.error ≡ none)
    × (r.world.manager.selection ≡ auto)
    × (r.world.manager.manual_ip ≡ "")

-- A connection to the same node with the same protocol, or the error that it does not support it.
abbrev Connects : List String → Node → World → Reply → Type 0
Connects drivers n w r =
    (validate_forced_protocol drivers n w.manager.manual_protocol ≡ none)
    × (r.task
        ≡ some (
            candidate w.next_context (bump (bump w.manager.connect_attempt)) n manual
              w.manager.manual_protocol))
    × (r.error ≡ none)

abbrev Refuses : List String → Node → World → Reply → Type 0
Refuses drivers n w r =
    (e : Error) × (validate_forced_protocol drivers n w.manager.manual_protocol ≡ some e)
    × (r.task ≡ none)
    × (r.error ≡ some e)

abbrev KeepsChoice : List String → World → Reply → Type 0
KeepsChoice drivers w r =
    NamesNode w
    × (n : Node) × (node w.database w.manager.manual_ip ≡ ok n)
    × (r.world.manager.selection ≡ manual)
    × (r.world.manager.manual_ip ≡ w.manager.manual_ip)
    × (Connects drivers n w r ⊎ Refuses drivers n w r)

-- The manager routes directly, without a session, and may connect again.
pub record IsResumed (drivers : List String) (w : World) (r : Reply) : Type 0 where
  pub direct : r.world.manager.direct_mode ≡ true
  pub no_session : r.world.manager.session ≡ none
  pub unpaused : r.world.manager.connection_paused ≡ false
  pub starts : RunsAutomatic w r ⊎ (GivesUpChoice w r ⊎ KeepsChoice drivers w r)

module _ (drivers : List String) (w : World) (unpaused : w.manager.connection_paused ≡ false)
    (running : w.manager.closing ≡ false) where
  abbrev resumed : Reply
  resumed = set_direct_mode drivers false (set_direct_mode drivers true w).world

  resumed-direct :
      (resumed.world.manager.direct_mode ≡ true)
      × (resumed.world.manager.session ≡ none)
      × (resumed.world.manager.connection_paused ≡ false)
  unfolding set_direct_mode resume resume_node start_candidate start_valid run_candidate_async
      start_automatic set_automatic set_direct_on enter_direct set_direct_off begin_candidate
  resumed-direct = ground (arith, unpaused, running)

  resumed-auto :
      (w.manager.selection ≡ auto) ⊎ (str_eq w.manager.manual_ip "" ≡ true)
      → RunsAutomatic w resumed
  unfolding set_direct_mode resume start_automatic set_direct_on enter_direct set_direct_off
  resumed-auto h = (
    h,
    ground (arith, unpaused, running, h),
    ground (arith, unpaused, running, h),
    ground (arith, unpaused, running, h),
  )

  resumed-lost :
      (x : StoreError)
      → NamesNode w
      → node w.database w.manager.manual_ip ≡ err x
      → GivesUpChoice w resumed
  unfolding set_direct_mode resume resume_node start_automatic set_automatic set_direct_on
      enter_direct set_direct_off
  resumed-lost x named e = (
    named,
    x,
    e,
    ground (arith, unpaused, running, named, e),
    ground (arith, unpaused, running, named, e),
    ground (arith, unpaused, running, named, e),
    ground (arith, unpaused, running, named, e),
  )

  resumed-node :
      (n : Node) (v : Option Error)
      → NamesNode w
      → node w.database w.manager.manual_ip ≡ ok n
      → validate_forced_protocol drivers n w.manager.manual_protocol ≡ v
      → KeepsChoice drivers w resumed
  unfolding set_direct_mode resume resume_node start_candidate start_valid run_candidate_async
      set_direct_on enter_direct set_direct_off begin_candidate
  resumed-node n none named e v = (
    named,
    n,
    e,
    ground (arith, unpaused, running, named, e, v),
    ground (arith, unpaused, running, named, e, v),
    inl (
      v,
      ground (arith, unpaused, running, named, e, v),
      ground (arith, unpaused, running, named, e, v),
    ),
  )
  resumed-node n (some x) named e v = (
    named,
    n,
    e,
    ground (arith, unpaused, running, named, e, v),
    ground (arith, unpaused, running, named, e, v),
    inr (
      x,
      v,
      ground (arith, unpaused, running, named, e, v),
      ground (arith, unpaused, running, named, e, v),
    ),
  )

  resumed-named :
      (r : Result StoreError Node)
      → NamesNode w
      → node w.database w.manager.manual_ip ≡ r
      → GivesUpChoice w resumed ⊎ KeepsChoice drivers w resumed
  resumed-named (err x) named e = inl (resumed-lost x named e)
  resumed-named (ok n) named e =
      inr
        (resumed-node n (validate_forced_protocol drivers n w.manager.manual_protocol) named e refl)

  resumed-choice :
      (x : Selection)
      → w.manager.selection ≡ x
      → RunsAutomatic w resumed ⊎ (GivesUpChoice w resumed ⊎ KeepsChoice drivers w resumed)
  resumed-choice auto e = inl (resumed-auto (inl e))
  resumed-choice manual e = elim (Bool-cases (str_eq w.manager.manual_ip "")) [
    | inl t ↦ inl (resumed-auto (inr t))
    | inr t ↦ inr (resumed-named (node w.database w.manager.manual_ip) (e, t) refl)
  ]

-- Pausing and resuming, for a manager that is not paused and not closing: right after the two calls the
-- traffic is routed directly, there is no session, and connections are not paused any more. What is
-- started follows the choice that the manager had: without a manual choice of a node an automatic
-- selection, and the selection stays as it was; if the chosen node cannot be read, an automatic selection
-- too, and the choice is given up; else the choice is kept, and a connection to the same node with the
-- same protocol is started, unless the node or the drivers do not support it, which is the error returned.
pub resume-restores :
    (drivers : List String) (w : World)
    → w.manager.connection_paused ≡ false
    → w.manager.closing ≡ false
    → IsResumed drivers w (set_direct_mode drivers false (set_direct_mode drivers true w).world)
resume-restores drivers w unpaused running =
    let (direct, session, resumes) = resumed-direct drivers w unpaused running in
    record {
      direct = direct;
      no_session = session;
      unpaused = resumes;
      starts = resumed-choice drivers w unpaused running w.manager.selection refl;
    }

-- Traffic goes through a session with the node that was asked for.
pub record IsSelected (n : Node) (selection : Selection) (v : World) : Type 0 where
  pub active : (s : ℕ) × (v.manager.session ≡ some s)
  pub same_node : v.manager.node ≡ n
  pub same_selection : v.manager.selection ≡ selection
  pub tunnelled : v.manager.direct_mode ≡ false

finish_candidate-route :
    (context attempt : ℕ) (u : World) (e : Option Error)
    → route (finish_candidate context attempt (u, e)).manager ≡ route u.manager
unfolding finish_candidate finish_connect_attempt
finish_candidate-route context attempt u e = ground arith

IsSelected-route :
    (n : Node) (selection : Selection) (u v : World)
    → route v.manager ≡ route u.manager
    → IsSelected n selection u
    → IsSelected n selection v
IsSelected-route n selection u v same h = record {
  active = (h.active.0, ap (λ r. r.session) same ∙ h.active.1);
  same_node = ap (λ r. r.node) same ∙ h.same_node;
  same_selection = ap (λ r. r.selection) same ∙ h.same_selection;
  tunnelled = ap (λ r. r.direct_mode) same ∙ h.tunnelled;
}

IsSelected-installed :
    (a : Activation) (r : Result Error (ℕ × String)) (u v : World)
    → IsInstalled a r u v
    → IsSelected a.node a.selection v
IsSelected-installed a r u v i =
    let (s, p, _, session, n, protocol, selection, direct, state) = i.connected_to in
    record { active = (s, session); same_node = n; same_selection = selection; tunnelled = direct }

-- A candidate whose attempt is the latest one either ends with traffic going through a session
-- with its node, or it leaves the routing exactly as the other goroutines left it.
pub run_candidate-IsSelected :
    (out : Outside) (priority : List String) (others : World → World) (context attempt : ℕ)
    (n : Node) (selection : Selection) (forced : String) (w : World)
    → ((u : World) (i : ℕ) → contains i u.closed ≡ true → contains i (others u).closed ≡ true)
    → is_connect_attempt attempt w ≡ true
    → let v = run_candidate out priority others context attempt n selection forced w in
      IsSelected n selection v
      ⊎ (route v.manager ≡ route (others (connect_node out priority n true forced w).1).manager)
unfolding run_candidate
run_candidate-IsSelected out priority others context attempt n selection forced w keeps current =
    let a : Activation = record {
      node = n;
      selection = selection;
      require_health = true;
      expected_attempt = attempt;
      forced_protocol = forced;
    } in
    let x = activate out priority others a w in
    let same = finish_candidate-route context attempt x.0 x.1 in
    elim (Option-cases x.1) [
      | inl e ↦ inl (
          rw current (
            IsSelected-route n selection x.0 _ same (
              IsSelected-installed a _ _ x.0
                (activate-IsInstalled out priority others a w x.0 (ground (arith, e))))))
      | inr (f, e) ↦ inr (
          rw current
            (same ∙ (activate-failed out priority others a w x.0 f keeps (ground (arith, e))).0))
    ]
