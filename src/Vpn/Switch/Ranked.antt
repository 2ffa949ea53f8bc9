-- ===== src/Vpn/Switch/Ranked.antt =====
-- Which node the ranked switch ends on, and what is left of a session that failed.
use proxygate.Prelude.{
  ℕ, suc, String, false, List, [], ◌∷◌, Option, none, some, Result, ok, err, ◌≡◌, refl, arith,
}
use proxygate.Model.{Node}
use proxygate.Store.{StoreError, nodes, order_by}
use proxygate.Vpn.State.{auto, connected, Error, World}
use proxygate.Vpn.Sections.{begin_automatic, end_automatic}
use proxygate.Vpn.Connect.{activate, Activation}
use proxygate.Vpn.Connect.Transaction.{activate-IsInstalled, IsInstalled}
use proxygate.Vpn.Switch.{
  Setting, Round, switch_loop, switch_automatic, switch_ranked, switch_unless_paused, close_switch,
  try_node, after_activate, note_failure,
}

pub data Among (n : Node) : List Node → Type 0 where
  here : {ns : List Node} → Among n (n ∷ ns)
  there : {m : Node} {ns : List Node} → Among n ns → Among n (m ∷ ns)

-- Traffic goes through a VPN session with one of the nodes, chosen automatically.
pub record IsOn (ns : List Node) (v : World) : Type 0 where
  pub among : Among v.manager.node ns
  pub active : (s : ℕ) × (v.manager.session ≡ some s)
  pub automatic : v.manager.selection ≡ auto
  pub tunnelled : v.manager.direct_mode ≡ false
  pub reported : v.manager.state ≡ connected

IsOn-installed :
    (a : Activation) (r : Result Error (ℕ × String)) (ns : List Node) (u v : World)
    → a.selection ≡ auto
    → IsInstalled a r u v
    → IsOn (a.node ∷ ns) v
IsOn-installed a r ns u v k i =
    let (s, p, _, session, n, protocol, selection, direct, state) = i.connected_to in
    record {
      among = rw n here;
      active = (s, session);
      automatic = cc;
      tunnelled = direct;
      reported = state;
    }

IsOn-there : (n : Node) (ns : List Node) (v : World) → IsOn ns v → IsOn (n ∷ ns) v
IsOn-there n ns v h = record {
  among = there h.among;
  active = h.active;
  automatic = h.automatic;
  tunnelled = h.tunnelled;
  reported = h.reported;
}

note_failure-IsOn :
    (stop : Option Error) (r : Round) (n : Node) (e : Error) (ns : List Node)
    (next : List String → World → World × Option Error) (failures : List String) (w v : World)
    → ((fs : List String) (u : World) → next fs u ≡ (v, none) → IsOn ns v)
    → note_failure stop r n e next failures w ≡ (v, none)
    → IsOn (n ∷ ns) v
unfolding note_failure
note_failure-IsOn (some x) r n e ns next failures w v rest h = absurd (ground (arith, h))
note_failure-IsOn none r n e ns next failures w v rest h = IsOn-there n ns v (rest _ _ h)

after_activate-IsOn :
    (x : World × Option Error) (r : Round) (n : Node) (ns : List Node)
    (next : List String → World → World × Option Error) (failures : List String) (v : World)
    → ((u : World) → x ≡ (u, none) → IsOn (n ∷ ns) u)
    → ((fs : List String) (u : World) → next fs u ≡ (v, none) → IsOn ns v)
    → after_activate x r n next failures ≡ (v, none)
    → IsOn (n ∷ ns) v
unfolding after_activate
after_activate-IsOn (w, none) r n ns next failures v installed rest h = installed v h
after_activate-IsOn (w, some e) r n ns next failures v installed rest h =
    note_failure-IsOn r.stop_after r n e ns next failures w v rest h

try_node-IsOn :
    (stop : Option Error) (s : Setting) (n : Node) (ns : List Node)
    (next : List String → World → World × Option Error) (failures : List String) (w v : World)
    → ((fs : List String) (u : World) → next fs u ≡ (v, none) → IsOn ns v)
    → try_node stop s n next failures w ≡ (v, none)
    → IsOn (n ∷ ns) v
unfolding try_node
try_node-IsOn (some x) s n ns next failures w v rest h = absurd (ground (arith, h))
try_node-IsOn none s n ns next failures w v rest h =
    let r = s.round n in
    let a : Activation = record {
      node = n;
      selection = auto;
      require_health = false;
      expected_attempt = 0;
      forced_protocol = "";
    } in
    after_activate-IsOn (activate r.outside s.priority r.others a w) r n ns next failures v
      (λ u e.
        IsOn-installed a _ ns _ u refl (activate-IsInstalled r.outside s.priority r.others a w u e))
      rest h

switch_loop-IsOn :
    (s : Setting) (ns : List Node) (failures : List String) (w v : World)
    → switch_loop s ns failures w ≡ (v, none)
    → IsOn ns v
unfolding switch_loop
switch_loop-IsOn s [] failures w v h = absurd (ground (arith, h))
switch_loop-IsOn s (n ∷ ns) failures w v h =
    try_node-IsOn (s.round n).stop_before s n ns (switch_loop s ns) failures w v
      (λ fs u e. switch_loop-IsOn s ns fs u v e) h

switch_ranked-IsOn :
    (s : Setting) (r : Result StoreError (List Node)) (w v : World)
    → switch_ranked s r w ≡ (v, none)
    → (ns : List Node) × (r ≡ ok ns) × IsOn ns v
unfolding switch_ranked
switch_ranked-IsOn s (err e) w v h = absurd (ground (arith, h))
switch_ranked-IsOn s (ok []) w v h = absurd (ground (arith, h))
switch_ranked-IsOn s (ok (n ∷ ns)) w v h = (n ∷ ns, refl, switch_loop-IsOn s (n ∷ ns) [] w v h)

close_switch-IsOn :
    (context : ℕ) (x : World × Option Error) (v : World) (P : Type 0)
    → close_switch context x ≡ (v, none)
    → ((u : World) → x ≡ (u, none) → v ≡ end_automatic context u → P)
    → P
unfolding close_switch
close_switch-IsOn context (u, none) v P h go = go u refl (ground (arith, h))
close_switch-IsOn context (u, some e) v P h go = absurd (ground (arith, h))

IsOn-end_automatic :
    (context : ℕ) (ns : List Node) (u : World) → IsOn ns u → IsOn ns (end_automatic context u)
unfolding end_automatic
IsOn-end_automatic context ns u h = record {
  among = h.among;
  active = h.active;
  automatic = h.automatic;
  tunnelled = h.tunnelled;
  reported = h.reported;
}

switch_unless_paused-IsOn :
    (s : Setting) (context : ℕ) (w v : World)
    → switch_unless_paused s (w, some context) ≡ (v, none)
    → (ns : List Node) × (nodes w.database (order_by s.selection_mode) 10 0 ≡ ok ns) × IsOn ns v
unfolding switch_unless_paused
switch_unless_paused-IsOn s context w v h =
    close_switch-IsOn context
      (switch_ranked s (nodes w.database (order_by s.selection_mode) 10 0) w) v _ h
      λ u e same.
        let (ns, listed, on) = switch_ranked-IsOn s _ w u e in
        (ns, listed, rw same (IsOn-end_automatic context ns u on))

abbrev automatic_begun : World → World
automatic_begun w = record w {
  next_context = suc w.next_context;
  manager = record w.manager { cancel_automatic = some w.next_context };
}

begin_automatic-begun :
    (w : World)
    → w.manager.connection_paused ≡ false
    → begin_automatic w ≡ (automatic_begun w, some w.next_context)
unfolding begin_automatic
begin_automatic-begun w p = ground (arith, p)

-- If connections are not paused and `switchAutomatic` returns no error, then the ten best nodes of
-- the database were read and traffic goes through a session with one of them. This holds whatever
-- the other goroutines do while each node is tried.
pub switch_automatic-IsOn :
    (s : Setting) (w v : World)
    → w.manager.connection_paused ≡ false
    → switch_automatic s w ≡ (v, none)
    → (ns : List Node) × (nodes w.database (order_by s.selection_mode) 10 0 ≡ ok ns) × IsOn ns v
unfolding switch_automatic
switch_automatic-IsOn s w v p h =
    switch_unless_paused-IsOn s w.next_context (automatic_begun w) v
      (rw (begin_automatic-begun w p) at h)
