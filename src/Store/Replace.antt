-- ===== src/Store/Replace.antt =====
-- What a refresh of the node list keeps.
use proxygate.Prelude.{
  ℕ, String, Bool, true, false, List, [], ◌∷◌, ◌++◌, Option, none, some, ok, err, ◌≡◌, refl, ap,
  sym, subst, ◌∙◌, arith, str_eq, str_eq_sound, Bool-cases, Option-cases, inl, inr, if◌then◌else◌,
}
use proxygate.Model.{Node}
use proxygate.Store.{
  Database, unique_violation, or_unavailable, find_node, row_or_error, node, keep_measurements,
  incoming, with_preserved, unique_ips, replace_nodes,
}

-- The columns that measurements and failed connections write are those of the other row.
pub record KeepsMeasurements (old new : Node) : Type 0 where
  pub same_bps : new.measured_bps ≡ old.measured_bps
  pub same_time : new.measured_at ≡ old.measured_at
  pub same_result : new.speed_test_failed ≡ old.speed_test_failed
  pub same_failure : new.last_failure ≡ old.last_failure
  pub same_reason : new.failure_reason ≡ old.failure_reason

KeepsMeasurements-refl : (n : Node) → KeepsMeasurements n n
KeepsMeasurements-refl n = record {
  same_bps = refl;
  same_time = refl;
  same_result = refl;
  same_failure = refl;
  same_reason = refl;
}

abbrev row_for : Option Node → ℕ → Node → Node
row_for old refreshed_at n = record (keep_measurements old n) { refreshed_at = refreshed_at }

row_for-ip : (old : Option Node) (t : ℕ) (n : Node) → (row_for old t n).ip ≡ n.ip
row_for-ip none t n = refl
row_for-ip (some old) t n = refl

pub row_for-KeepsMeasurements :
    (o : Option Node) (old : Node) (t : ℕ) (n : Node)
    → o ≡ some old
    → KeepsMeasurements old (row_for o t n)
row_for-KeepsMeasurements none old t n e = cc
row_for-KeepsMeasurements (some x) old t n e =
    let same : x ≡ old = ground (arith, e) in
    record {
      same_bps = ap (λ y. y.measured_bps) same;
      same_time = ap (λ y. y.measured_at) same;
      same_result = ap (λ y. y.speed_test_failed) same;
      same_failure = ap (λ y. y.last_failure) same;
      same_reason = ap (λ y. y.failure_reason) same;
    }

find_node-incoming :
    (ip : String) (table : List Node) (t : ℕ) (ns : List Node) (old new : Node)
    → find_node ip table ≡ some old
    → find_node ip (incoming table t ns) ≡ some new
    → KeepsMeasurements old new
unfolding incoming find_node
find_node-incoming ip table t [] old new h k = absurd (ground (arith, k))
find_node-incoming ip table t (n ∷ ns) old new h k =
    let row = row_for (find_node n.ip table) t n in
    elim (Bool-cases (str_eq row.ip ip)) [
      | inr e ↦ find_node-incoming ip table t ns old new h (rw e at k)
      | inl e ↦
          let same = sym (row_for-ip (find_node n.ip table) t n) ∙ str_eq_sound row.ip ip e in
          subst (KeepsMeasurements old) (ground (arith, rw e at k)) (
            row_for-KeepsMeasurements (find_node n.ip table) old t n
              (ap (λ i. find_node i table) same ∙ h))
    ]

find_node-ip :
    (ip : String) (ns : List Node) (n : Node) → find_node ip ns ≡ some n → str_eq n.ip ip ≡ true
unfolding find_node
find_node-ip ip [] n h = absurd (ground (arith, h))
find_node-ip ip (m ∷ ns) n h = elim (Bool-cases (str_eq m.ip ip)) [
  | inl e ↦
      let same : m ≡ n = ground (arith, e, h) in ap (λ (x : Node). str_eq x.ip ip) (sym same) ∙ e
  | inr e ↦ find_node-ip ip ns n (rw e at h)
]

find_node-snoc :
    (ip : String) (ns : List Node) (n : Node)
    → find_node ip ns ≡ none
    → str_eq n.ip ip ≡ true
    → find_node ip (ns ++ n ∷ []) ≡ some n
unfolding find_node
find_node-snoc ip [] n h e = rw e refl
find_node-snoc ip (m ∷ ns) n h e = elim (Bool-cases (str_eq m.ip ip)) [
  | inl t ↦ absurd (ground (arith, t, h))
  | inr t ↦ rw t (find_node-snoc ip ns n (rw t at h) e)
]

node-found :
    (db : Database) (ip : String) (n : Node)
    → node db ip ≡ ok n
    → (db.available ≡ true) × (find_node ip db.nodes ≡ some n)
unfolding node
node-found db ip n h = go db.available (find_node ip db.nodes) h
  where
    go :
        (b : Bool) (o : Option Node)
        → or_unavailable b (row_or_error o) ≡ ok n
        → (b ≡ true) × (o ≡ some n)
    go true (some x) e = (refl, ground (arith, e))
    go true none e = absurd (ground (arith, e))
    go false o e = absurd (ground (arith, e))

replaced :
    (db db' : Database) (ns : List Node) (t : ℕ) (ip : String)
    → db.available ≡ true
    → replace_nodes db ns t ip ≡ ok db'
    → (db'.available ≡ true) × (db'.nodes ≡ with_preserved ip db.nodes (incoming db.nodes t ns))
unfolding replace_nodes
replaced db db' ns t ip a h = go db.available (unique_ips rows) a h
  where
    rows : List Node
    rows = with_preserved ip db.nodes (incoming db.nodes t ns)

    go :
        (b u : Bool)
        → b ≡ true
        → or_unavailable b (
            if u
            then ok (record db { nodes = rows; last_refresh = some t })
            else err unique_violation)
          ≡ ok db'
        → (db'.available ≡ true) × (db'.nodes ≡ rows)
    go true true e k = (ground (arith, k, a), ground (arith, k))
    go true false e k = absurd (ground (arith, k))
    go false u e k = absurd (ground (arith, e))

with_preserved-find :
    (ip : String) (table rows : List Node) (old : Node)
    → str_eq ip "" ≡ false
    → find_node ip table ≡ some old
    → ((new : Node) → find_node ip rows ≡ some new → KeepsMeasurements old new)
    → (new : Node) × (find_node ip (with_preserved ip table rows) ≡ some new)
      × KeepsMeasurements old new
unfolding with_preserved
with_preserved-find ip table rows old named found keeps = elim (Option-cases (find_node ip rows)) [
  | inl e ↦ (
    old,
    rw (named, e, found) (find_node-snoc ip rows old e (find_node-ip ip table old found)),
    KeepsMeasurements-refl old,
  )
  | inr (new, e) ↦ (new, rw (named, e) e, keeps new e)
]

-- A refresh that succeeds keeps the preserved node in the table, whether or not the new list has it,
-- and whatever the list says of it, it keeps its measurements and its last failure.
pub replace_nodes-KeepsMeasurements :
    (db db' : Database) (ns : List Node) (t : ℕ) (ip : String) (old : Node)
    → str_eq ip "" ≡ false
    → node db ip ≡ ok old
    → replace_nodes db ns t ip ≡ ok db'
    → (new : Node) × (node db' ip ≡ ok new) × KeepsMeasurements old new
unfolding node
replace_nodes-KeepsMeasurements db db' ns t ip old named h k =
    let (available, found) = node-found db ip old h in
    let (available', rows) = replaced db db' ns t ip available k in
    let (new, kept, keeps) =
      with_preserved-find ip db.nodes (incoming db.nodes t ns) old named found
        (λ n e. find_node-incoming ip db.nodes t ns old n found e) in
    (new, rw (available', rows, kept) refl, keeps)
