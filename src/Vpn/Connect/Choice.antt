-- ===== src/Vpn/Connect/Choice.antt =====
-- Which protocol a connection is made with, and what becomes of the sessions tried on the way.
use proxygate.Prelude.{
  ℕ, ◌≤◌, ◌<◌, String, Bool, true, false, ◌&&◌, ◌||◌, not, List, [], ◌∷◌, ◌++◌, Option, none, some,
  Result, ok, err, ◌≡◌, ◌⊎◌, inl, inr, refl, arith, has_text, contains, Bool-cases, Option-cases,
  if◌then◌else◌, ◌∙◌, ltb,
}
use proxygate.Model.{Node}
use proxygate.Vpn.State.{Error, World}
use proxygate.Vpn.Connect.{
  Outside, Attempt, stopped, skipped, refused, made, try_protocol, Outcome, proceed, connect_loop,
  connect_valid, connect_node, candidates, validate_forced_protocol,
}

abbrev pub succeeds : Option Error → Bool
succeeds none = true
succeeds (some e) = false

-- A protocol that the node offers, with a driver that connects and, where asked for, a session
-- that passes the health check.
abbrev pub usable : Outside → Node → Bool → String → Bool
usable out node require_health protocol =
    has_text protocol node.protocols
    && has_text protocol out.drivers
    && succeeds (out.start protocol)
    && (not require_health || succeeds (out.probe protocol))

unfoldable pub first_usable : Outside → Node → Bool → List String → Option String
first_usable out node require_health [] = none
first_usable out node require_health (p ∷ ps) =
    if usable out node require_health p then some p else first_usable out node require_health ps

abbrev pub protocol_of : Result Error (ℕ × String) → Option String
protocol_of (ok (session, protocol)) = some protocol
protocol_of (err e) = none

abbrev is_made : Attempt → Bool
is_made (made session) = true
is_made _ = false

abbrev is_stopped : Attempt → Bool
is_stopped (stopped e) = true
is_stopped _ = false

try_protocol-usable :
    (out : Outside) (node : Node) (require_health : Bool) (p : String) (w : World)
    → out.done_before p ≡ none
    → (is_made (try_protocol out node require_health p w).0 ≡ usable out node require_health p)
      × (is_stopped (try_protocol out node require_health p w).0 ≡ false)
unfolding try_protocol
try_protocol-usable out node require_health p w h = ground arith

proceed-protocol :
    (attempt : Attempt) (w : World) (p : String) (failures : List String)
    (next : List String → World → Outcome) (rest : Option String)
    → is_stopped attempt ≡ false
    → ((fs : List String) (v : World) → protocol_of (next fs v).0 ≡ rest)
    → protocol_of (proceed (attempt, w) p failures next).0
      ≡ (if is_made attempt then some p else rest)
unfolding proceed
proceed-protocol (stopped e) w p failures next rest s ih = cc
proceed-protocol skipped w p failures next rest s ih = ih failures w
proceed-protocol (refused why) w p failures next rest s ih = ih (failures ++ why ∷ []) w
proceed-protocol (made session) w p failures next rest s ih = refl

-- As long as its context is not done, the loop connects with the first usable protocol of the list,
-- and fails exactly if there is none.
pub connect_loop-first_usable :
    (out : Outside) (node : Node) (require_health : Bool) (ps failures : List String) (w : World)
    → ((p : String) → out.done_before p ≡ none)
    → protocol_of (connect_loop out node require_health ps failures w).0
      ≡ first_usable out node require_health ps
unfolding connect_loop first_usable
connect_loop-first_usable out node require_health [] failures w h = refl
connect_loop-first_usable out node require_health (p ∷ ps) failures w h =
    let (same, going) = try_protocol-usable out node require_health p w (h p) in
    let attempt = try_protocol out node require_health p w in
    rw (← same) (
      proceed-protocol attempt.0 attempt.1 p failures (connect_loop out node require_health ps)
        (first_usable out node require_health ps) going
        λ fs v. connect_loop-first_usable out node require_health ps fs v h)

-- What an attempt does to the sessions: it opens at most one, and closes it unless it is the result.
pub record IsTidy (w : World) (made_session : Option ℕ) (v : World) : Type 0 where
  pub grows : w.next_session ≤ v.next_session
  pub same_manager : v.manager ≡ w.manager
  pub same_database : v.database ≡ w.database
  pub closes_new : (i : ℕ) → i < w.next_session → contains i v.closed ≡ contains i w.closed
  pub closes_rest :
      (i : ℕ)
      → w.next_session ≤ i
      → i < v.next_session
      → (contains i v.closed ≡ true) ⊎ (made_session ≡ some i)

abbrev session_made : Attempt → Option ℕ
session_made (made session) = some session
session_made _ = none

try_protocol-IsTidy :
    (out : Outside) (node : Node) (require_health : Bool) (p : String) (w : World)
    → let (attempt, v) = try_protocol out node require_health p w in
      IsTidy w (session_made attempt) v
unfolding try_protocol contains
try_protocol-IsTidy out node require_health p w = record {
  grows = ground arith;
  same_manager = ground arith;
  same_database = ground arith;
  closes_new = λ i h. ground arith;
  closes_rest = λ i h k. ground arith;
}

IsTidy-trans : (w v u : World) (r : Option ℕ) → IsTidy w none v → IsTidy v r u → IsTidy w r u
IsTidy-trans w v u r a b = record {
  grows = omega (arith, a.grows, b.grows);
  same_manager = b.same_manager ∙ a.same_manager;
  same_database = b.same_database ∙ a.same_database;
  closes_new = λ i h. ground (arith, a.closes_new i h, b.closes_new i, a.grows);
  closes_rest = λ i h k. ground (
    arith,
    a.closes_rest i h,
    b.closes_new i,
    b.closes_rest i,
    Bool-cases (ltb i v.next_session),
  );
}

abbrev pub session_of : Result Error (ℕ × String) → Option ℕ
session_of (ok (session, protocol)) = some session
session_of (err e) = none

proceed-IsTidy :
    (w : World) (attempt : Attempt) (v : World) (p : String) (failures : List String)
    (next : List String → World → Outcome)
    → IsTidy w (session_made attempt) v
    → ((fs : List String) (u : World) → IsTidy u (session_of (next fs u).0) (next fs u).1)
    → let (r, u) = proceed (attempt, v) p failures next in IsTidy w (session_of r) u
unfolding proceed
proceed-IsTidy w (stopped e) v p failures next t ih = t
proceed-IsTidy w skipped v p failures next t ih = IsTidy-trans w v _ _ t (ih failures v)
proceed-IsTidy w (refused why) v p failures next t ih =
    IsTidy-trans w v _ _ t (ih (failures ++ why ∷ []) v)
proceed-IsTidy w (made session) v p failures next t ih = t

IsTidy-refl : (w : World) → IsTidy w none w
IsTidy-refl w = record {
  grows = omega arith;
  same_manager = refl;
  same_database = refl;
  closes_new = λ i h. refl;
  closes_rest = λ i h k. absurd (omega arith);
}

connect_loop-IsTidy :
    (out : Outside) (node : Node) (require_health : Bool) (ps failures : List String) (w : World)
    → let (r, v) = connect_loop out node require_health ps failures w in IsTidy w (session_of r) v
unfolding connect_loop
connect_loop-IsTidy out node require_health [] failures w = IsTidy-refl w
connect_loop-IsTidy out node require_health (p ∷ ps) failures w =
    let attempt = try_protocol out node require_health p w in
    proceed-IsTidy w attempt.0 attempt.1 p failures (connect_loop out node require_health ps)
      (try_protocol-IsTidy out node require_health p w)
      (connect_loop-IsTidy out node require_health ps)

-- Whatever happens while a node is connected to, the manager and the database are left alone, no
-- older session is closed, and every session opened on the way is closed but the one returned.
pub connect_node-IsTidy :
    (out : Outside) (priority : List String) (node : Node) (require_health : Bool) (forced : String)
    (w : World)
    → let (r, v) = connect_node out priority node require_health forced w in
      IsTidy w (session_of r) v
unfolding connect_node connect_valid
connect_node-IsTidy out priority node require_health forced w =
    elim (Bool-cases (out.ipv4_literal node.ip)) [
      | inr e ↦ rw e (IsTidy-refl w)
      | inl e ↦ elim (Option-cases (validate_forced_protocol out.drivers node forced)) [
        | inl v ↦
            rw (e, v)
              (connect_loop-IsTidy out node require_health (candidates priority forced) [] w)
        | inr (x, v) ↦ rw (e, v) (IsTidy-refl w)
      ]
    ]
