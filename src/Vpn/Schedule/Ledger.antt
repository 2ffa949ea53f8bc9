-- ===== src/Vpn/Schedule/Ledger.antt =====
-- What the critical sections do to the VPN sessions: who owns them, and the seven kinds of moves.
use proxygate.Prelude.{
  ℕ, suc, ◌<◌, true, false, List, [], ◌∷◌, Option, none, some, ◌≡◌, ◌≢◌, ◌⊎◌, refl, arith, contains,
  Bool-cases, ◌&&◌, not, ◌==◌,
}
use proxygate.Vpn.Schedule.{System, without}

-- What of the system concerns the sessions.
pub record Ledger : Type 0 where
  pub active : Option ℕ
  pub held : Option ℕ
  pub tests : List ℕ
  pub next : ℕ
  pub closed : List ℕ

abbrev pub ledger : System → Ledger
ledger s = record {
  active = s.world.manager.session;
  held = s.holding;
  tests = s.testing;
  next = s.world.next_session;
  closed = s.world.closed;
}

abbrev pub close_in : Option ℕ → List ℕ → List ℕ
close_in none closed = closed
close_in (some i) closed = i ∷ closed

-- The seven things that happen to sessions.
pub data Move (l : Ledger) (m : Ledger) : Type 0 where
  stay : m ≡ l → Move l m
  release : m ≡ record l { active = none; closed = close_in l.active l.closed } → Move l m
  open_next : l.held ≡ none → m ≡ record l { held = some l.next; next = suc l.next } → Move l m
  discard : m ≡ record l { held = none; closed = close_in l.held l.closed } → Move l m
  hand_over :
      (i : ℕ)
      → l.held ≡ some i
      → m ≡ record l { active = some i; held = none; closed = close_in l.active l.closed }
      → Move l m
  open_test : m ≡ record l { tests = l.next ∷ l.tests; next = suc l.next } → Move l m
  close_own_test :
      (i : ℕ)
      → contains i l.tests ≡ true
      → m ≡ record l { tests = without i l.tests; closed = i ∷ l.closed }
      → Move l m

abbrev pub IsDistinct : List ℕ → Type 0
IsDistinct [] = Unit {0}
IsDistinct (x ∷ xs) = (contains x xs ≡ false) × IsDistinct xs

pub record IsOwned (l : Ledger) : Type 0 where
  pub active_open : (i : ℕ) → l.active ≡ some i → (i < l.next) × (contains i l.closed ≡ false)
  pub held_open : (i : ℕ) → l.held ≡ some i → (i < l.next) × (contains i l.closed ≡ false)
  pub apart : (i : ℕ) → l.held ≡ some i → l.active ≢ some i
  pub tests_open :
      (i : ℕ) → contains i l.tests ≡ true → (i < l.next) × (contains i l.closed ≡ false)
  pub tests_apart : (i : ℕ) → contains i l.tests ≡ true → (l.active ≢ some i) × (l.held ≢ some i)
  pub closed_known : (i : ℕ) → contains i l.closed ≡ true → i < l.next
  pub no_leak :
      (i : ℕ)
      → i < l.next
      → (contains i l.closed ≡ true)
        ⊎ ((l.active ≡ some i) ⊎ ((l.held ≡ some i) ⊎ (contains i l.tests ≡ true)))
  pub once : IsDistinct l.closed

release-IsOwned :
    (active held : Option ℕ) (next : ℕ) (tests closed : List ℕ)
    → IsOwned (record { active = active; held = held; tests = tests; next = next; closed = closed })
    → IsOwned (record {
      active = none;
      held = held;
      tests = tests;
      next = next;
      closed = close_in active closed;
    })
unfolding contains
release-IsOwned none held next tests closed h = h
release-IsOwned (some a) held next tests closed h = record {
  active_open = λ i e. cc;
  held_open = λ i e. ground (arith, h.held_open i e, h.apart i e);
  apart = λ i e. λ z. cc;
  tests_open = λ i e. ground (arith, h.tests_open i e, h.tests_apart i e);
  tests_apart = λ i e. ground (arith, h.tests_open i e, h.tests_apart i e);
  closed_known = λ i e. ground (arith, h.active_open a, h.closed_known i);
  no_leak = λ i e. ground (arith, h.no_leak i);
  once = ground (arith, h.active_open a, h.once);
}

discard-IsOwned :
    (active held : Option ℕ) (next : ℕ) (tests closed : List ℕ)
    → IsOwned (record { active = active; held = held; tests = tests; next = next; closed = closed })
    → IsOwned (record {
      active = active;
      held = none;
      tests = tests;
      next = next;
      closed = close_in held closed;
    })
unfolding contains
discard-IsOwned active none next tests closed h = h
discard-IsOwned active (some a) next tests closed h = record {
  active_open = λ i e. ground (arith, h.active_open i e, h.apart i);
  held_open = λ i e. cc;
  apart = λ i e. cc;
  tests_open = λ i e. ground (arith, h.tests_open i e, h.tests_apart i e);
  tests_apart = λ i e. ground (arith, h.tests_open i e, h.tests_apart i e);
  closed_known = λ i e. ground (arith, h.held_open a, h.closed_known i);
  no_leak = λ i e. ground (arith, h.no_leak i);
  once = ground (arith, h.held_open a, h.once);
}

open-IsOwned :
    (active : Option ℕ) (next : ℕ) (tests closed : List ℕ)
    → IsOwned (record { active = active; held = none; tests = tests; next = next; closed = closed })
    → IsOwned (record {
      active = active;
      held = some next;
      tests = tests;
      next = suc next;
      closed = closed;
    })
open-IsOwned active next tests closed h = record {
  active_open = λ i e. ground (arith, h.active_open i e);
  held_open = λ i e. ground (arith, h.closed_known i, Bool-cases (contains i closed));
  apart = λ i e z. ground (arith, h.active_open i z);
  tests_open = λ i e. ground (arith, h.tests_open i e, h.tests_apart i e);
  tests_apart = λ i e. ground (arith, h.tests_open i e, h.tests_apart i e);
  closed_known = λ i e. ground (arith, h.closed_known i);
  no_leak = λ i e. ground (arith, h.no_leak i);
  once = h.once;
}

hand_over-IsOwned :
    (active : Option ℕ) (s next : ℕ) (tests closed : List ℕ)
    → IsOwned
        (record { active = active; held = some s; tests = tests; next = next; closed = closed })
    → IsOwned (record {
      active = some s;
      held = none;
      tests = tests;
      next = next;
      closed = close_in active closed;
    })
unfolding contains
hand_over-IsOwned none s next tests closed h = record {
  active_open = λ i e. ground (arith, h.held_open i e);
  held_open = λ i e. cc;
  apart = λ i e. cc;
  tests_open = λ i e. ground (arith, h.tests_open i e, h.tests_apart i e);
  tests_apart = λ i e. ground (arith, h.tests_open i e, h.tests_apart i e);
  closed_known = h.closed_known;
  no_leak = λ i e. ground (arith, h.no_leak i);
  once = h.once;
}
hand_over-IsOwned (some a) s next tests closed h = record {
  active_open = λ i e. ground (arith, h.held_open i e, h.apart i e);
  held_open = λ i e. cc;
  apart = λ i e. cc;
  tests_open = λ i e. ground (arith, h.tests_open i e, h.tests_apart i e);
  tests_apart = λ i e. ground (arith, h.tests_open i e, h.tests_apart i e);
  closed_known = λ i e. ground (arith, h.active_open a, h.closed_known i);
  no_leak = λ i e. ground (arith, h.no_leak i);
  once = ground (arith, h.active_open a, h.once);
}

contains-without :
    (i j : ℕ) (xs : List ℕ) → contains j (without i xs) ≡ (contains j xs && not (i == j))
unfolding contains without
contains-without i j [] = refl
contains-without i j (x ∷ xs) = ground (arith, contains-without i j xs)

open_test-IsOwned :
    (active held : Option ℕ) (next : ℕ) (tests closed : List ℕ)
    → IsOwned (record { active = active; held = held; next = next; tests = tests; closed = closed })
    → IsOwned (record {
      active = active;
      held = held;
      next = suc next;
      tests = next ∷ tests;
      closed = closed;
    })
unfolding contains
open_test-IsOwned active held next tests closed h = record {
  active_open = λ i e. ground (arith, h.active_open i e);
  held_open = λ i e. ground (arith, h.held_open i e);
  apart = h.apart;
  tests_open =
      λ i e. ground (arith, e, h.tests_open i, h.closed_known i, Bool-cases (contains i closed));
  tests_apart = λ i e. (
    λ z. ground (arith, e, z, h.tests_apart i, h.active_open i z),
    λ z. ground (arith, e, z, h.tests_apart i, h.held_open i z),
  );
  closed_known = λ i e. ground (arith, h.closed_known i);
  no_leak = λ i e. ground (arith, h.no_leak i);
  once = h.once;
}

close_test-IsOwned :
    (active held : Option ℕ) (next : ℕ) (tests closed : List ℕ) (t : ℕ)
    → contains t tests ≡ true
    → IsOwned (record { active = active; held = held; next = next; tests = tests; closed = closed })
    → IsOwned (record {
      active = active;
      held = held;
      next = next;
      tests = without t tests;
      closed = t ∷ closed;
    })
unfolding contains
close_test-IsOwned active held next tests closed t k h = record {
  active_open = λ i e. ground (arith, h.active_open i e, h.tests_apart t k, e);
  held_open = λ i e. ground (arith, h.held_open i e, h.tests_apart t k, e);
  apart = h.apart;
  tests_open = λ i e. ground (arith, contains-without t i tests, e, h.tests_open i);
  tests_apart = λ i e. h.tests_apart i (ground (arith, contains-without t i tests, e));
  closed_known = λ i e. ground (arith, h.tests_open t k, h.closed_known i, e);
  no_leak = λ i e. ground (arith, contains-without t i tests, h.no_leak i e);
  once = ground (arith, h.tests_open t k, h.once);
}

pub Move-IsOwned : (l m : Ledger) → Move l m → IsOwned l → IsOwned m
Move-IsOwned l m (stay e) h = rw e h
Move-IsOwned l m (release e) h = rw e (release-IsOwned l.active l.held l.next l.tests l.closed h)
Move-IsOwned l m (open_next n e) h =
    rw e (open-IsOwned l.active l.next l.tests l.closed (rw n at h))
Move-IsOwned l m (discard e) h = rw e (discard-IsOwned l.active l.held l.next l.tests l.closed h)
Move-IsOwned l m (hand_over i n e) h =
    rw e (hand_over-IsOwned l.active i l.next l.tests l.closed (rw n at h))
Move-IsOwned l m (open_test e) h =
    rw e (open_test-IsOwned l.active l.held l.next l.tests l.closed h)
Move-IsOwned l m (close_own_test i k e) h =
    rw e (close_test-IsOwned l.active l.held l.next l.tests l.closed i k h)

pub Move-closed :
    (l m : Ledger) (i : ℕ) → Move l m → contains i l.closed ≡ true → contains i m.closed ≡ true
unfolding contains
Move-closed l m i (stay e) h = ground arith
Move-closed l m i (release e) h = ground arith
Move-closed l m i (open_next n e) h = ground arith
Move-closed l m i (discard e) h = ground arith
Move-closed l m i (hand_over j n e) h = ground arith
Move-closed l m i (open_test e) h = ground arith
Move-closed l m i (close_own_test j k e) h = ground arith
