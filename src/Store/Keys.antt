-- ===== src/Store/Keys.antt =====
-- The primary key of the table `nodes`: `ReplaceNodes` never violates it if the nodes given have
-- different IPs.
use proxygate.Prelude.{
  ℕ, String, Bool, true, false, ◌&&◌, not, List, [], ◌∷◌, ◌++◌, Option, none, some, ok, err, ◌≡◌,
  refl, ap, sym, subst, ◌∙◌, arith, str_eq, eq_iff, test-str_eq, Bool-cases, inl, inr,
  if◌then◌else◌,
}
use proxygate.Prelude.Int.{pos}
use proxygate.Model.{Node}
use proxygate.Store.Replace.{KeepsMeasurements, row_for-KeepsMeasurements}
use proxygate.Store.{
  Database, find_node, unique_ips, is_none, incoming, with_preserved, replace_nodes, or_unavailable,
  keep_measurements, append_row, unique_violation,
}

row-ip :
    (o : Option Node) (t : ℕ) (n : Node)
    → (record (keep_measurements o n) { refreshed_at = t }).ip ≡ n.ip
row-ip none t n = refl
row-ip (some old) t n = refl

pub has-incoming :
    (table : List Node) (t : ℕ) (ip : String) (ns : List Node)
    → is_none (find_node ip (incoming table t ns)) ≡ is_none (find_node ip ns)
unfolding incoming find_node
has-incoming table t ip [] = refl
has-incoming table t ip (n ∷ ns) =
    let same : str_eq (record (keep_measurements (find_node n.ip table) n) { refreshed_at = t }).ip
          ip
        ≡ str_eq n.ip ip =
      ap (λ i. str_eq i ip) (row-ip (find_node n.ip table) t n) in
    ground (arith, same, has-incoming table t ip ns)

unique-incoming :
    (table : List Node) (t : ℕ) (ns : List Node) → unique_ips (incoming table t ns) ≡ unique_ips ns
unfolding incoming unique_ips
unique-incoming table t [] = refl
unique-incoming table t (n ∷ ns) =
    let same : is_none (
          find_node (record (keep_measurements (find_node n.ip table) n) { refreshed_at = t }).ip
            (incoming table t ns))
        ≡ is_none (find_node n.ip ns) =
      ap (λ i. is_none (find_node i (incoming table t ns))) (row-ip (find_node n.ip table) t n)
      ∙ has-incoming table t n.ip ns in
    λ i. same i && unique-incoming table t ns i

has-snoc :
    (ip : String) (rows : List Node) (m : Node)
    → is_none (find_node ip (rows ++ m ∷ []))
      ≡ (is_none (find_node ip rows) && not (str_eq m.ip ip))
unfolding find_node
has-snoc ip [] m = ground arith
has-snoc ip (n ∷ rows) m = ground (arith, has-snoc ip rows m)

unique-snoc :
    (rows : List Node) (m : Node)
    → unique_ips rows ≡ true
    → is_none (find_node m.ip rows) ≡ true
    → unique_ips (rows ++ m ∷ []) ≡ true
unfolding unique_ips find_node
unique-snoc [] m u h = refl
unique-snoc (n ∷ rows) m u h =
    let apart : str_eq n.ip m.ip ≡ false = ground (arith, h) in
    let apart' : str_eq m.ip n.ip ≡ false =
      (test-str_eq m.ip n.ip).1 (λ e. (test-str_eq n.ip m.ip).0 apart (sym e)) in
    let later : unique_ips (rows ++ m ∷ []) ≡ true =
      unique-snoc rows m (ground (arith, u)) (ground (arith, h, apart)) in
    ground (arith, u, apart', later, has-snoc n.ip rows m)

pub found-ip : (ip : String) (ns : List Node) (n : Node) → find_node ip ns ≡ some n → n.ip ≡ ip
unfolding find_node
found-ip ip [] n h = absurd (ground (arith, h))
found-ip ip (m ∷ ns) n h = elim (Bool-cases (str_eq m.ip ip)) [
  | inl e ↦
      let same : m ≡ n = ground (arith, e, h) in
      ap (λ (x : Node). x.ip) (sym same) ∙ (eq_iff m.ip ip).0 e
  | inr e ↦ found-ip ip ns n (ground (arith, e, h))
]

-- The row of a node: its contents are those of the node, at the time of the replacement, and its
-- measurements and last failure are those of the row that the table had for the IP, if any.
pub record IsRow (table : List Node) (t : ℕ) (n row : Node) : Type 0 where
  pub contents : row ≡ record n {
    refreshed_at = t;
    measured_bps = row.measured_bps;
    measured_at = row.measured_at;
    speed_test_failed = row.speed_test_failed;
    last_failure = row.last_failure;
    failure_reason = row.failure_reason;
  }
  pub known : (old : Node) → find_node n.ip table ≡ some old → KeepsMeasurements old row
  pub unknown :
      find_node n.ip table ≡ none
      → (row.measured_bps ≡ pos 0)
        × (row.measured_at ≡ 0)
        × (row.speed_test_failed ≡ false)
        × (row.last_failure ≡ 0)
        × (row.failure_reason ≡ "")

keep_measurements-IsRow :
    (table : List Node) (o : Option Node) (t : ℕ) (n : Node)
    → find_node n.ip table ≡ o
    → IsRow table t n (record (keep_measurements o n) { refreshed_at = t })
keep_measurements-IsRow table none t n e = record {
  contents = refl;
  known = λ old k. absurd (ground (arith, e, k));
  unknown = λ k. (refl, refl, refl, refl, refl);
}
keep_measurements-IsRow table (some old) t n e = record {
  contents = refl;
  known = λ x k. row_for-KeepsMeasurements (some old) x t n (sym e ∙ k);
  unknown = λ k. absurd (ground (arith, e, k));
}

-- The row that the new table has for a node given.
abbrev HasRow : List Node → ℕ → String → Node → List Node → Type 0
HasRow table t i n rows = (row : Node) × (find_node i rows ≡ some row) × IsRow table t n row

incoming-HasRow :
    (table : List Node) (t : ℕ) (i : String) (ns : List Node) (n : Node)
    → find_node i ns ≡ some n
    → HasRow table t i n (incoming table t ns)
unfolding incoming find_node
incoming-HasRow table t i [] n h = absurd (ground (arith, h))
incoming-HasRow table t i (m ∷ ns) n h =
    let row : Node = record (keep_measurements (find_node m.ip table) m) { refreshed_at = t } in
    let same : str_eq row.ip i ≡ str_eq m.ip i =
      ap (λ x. str_eq x i) (row-ip (find_node m.ip table) t m) in
    elim (Bool-cases (str_eq m.ip i)) [
      | inl e ↦
          let this : m ≡ n = ground (arith, e, h) in
          (
            row,
            rw (same, e) refl,
            subst (λ x. IsRow table t x row) this
                (keep_measurements-IsRow table (find_node m.ip table) t m refl),
          )
      | inr e ↦
          let (found, there, is_row) = incoming-HasRow table t i ns n (rw e at h) in
          (found, rw (same, e) there, is_row)
    ]

find_node-append :
    (i : String) (rows : List Node) (m row : Node)
    → find_node i rows ≡ some row
    → find_node i (rows ++ m ∷ []) ≡ some row
unfolding find_node
find_node-append i [] m row h = absurd (ground (arith, h))
find_node-append i (n ∷ rows) m row h = elim (Bool-cases (str_eq n.ip i)) [
  | inl e ↦ rw e (rw e at h)
  | inr e ↦ rw e (find_node-append i rows m row (rw e at h))
]

find_node-appended :
    (i : String) (rows : List Node) (m : Node)
    → is_none (find_node i rows) ≡ true
    → m.ip ≡ i
    → find_node i (rows ++ m ∷ []) ≡ some m
unfolding find_node
find_node-appended i [] m h e = let same = (eq_iff m.ip i).1 e in rw same refl
find_node-appended i (n ∷ rows) m h e = elim (Bool-cases (str_eq n.ip i)) [
  | inl t ↦ absurd (ground (arith, t, h))
  | inr t ↦ rw t (find_node-appended i rows m (rw t at h) e)
]

append_row-find :
    (i : String) (rows : List Node) (o : Option Node) (row : Node)
    → find_node i rows ≡ some row
    → find_node i (append_row rows o) ≡ some row
append_row-find i rows none row h = h
append_row-find i rows (some m) row h = find_node-append i rows m row h

with_preserved-find_old :
    (i ip : String) (table rows : List Node) (row : Node)
    → find_node i rows ≡ some row
    → find_node i (with_preserved ip table rows) ≡ some row
unfolding with_preserved
with_preserved-find_old i ip table rows row h =
    elim (Bool-cases (not (str_eq ip "") && is_none (find_node ip rows))) [
      | inl e ↦ rw e (append_row-find i rows (find_node ip table) row h)
      | inr e ↦ rw e h
    ]

with_preserved-find_kept :
    (ip : String) (table rows : List Node) (old : Node)
    → str_eq ip "" ≡ false
    → is_none (find_node ip rows) ≡ true
    → find_node ip table ≡ some old
    → find_node ip (with_preserved ip table rows) ≡ some old
unfolding with_preserved
with_preserved-find_kept ip table rows old named missing h =
    rw (named, missing, h) (find_node-appended ip rows old missing (found-ip ip table old h))

-- The rows, with one more for the IP at most.
record IsExtended (ip : String) (rows new : List Node) : Type 0 where
  no_twins : unique_ips new ≡ true
  same_others :
      (i : String) → str_eq ip i ≡ false → is_none (find_node i new) ≡ is_none (find_node i rows)
  all_kept : (i : String) → is_none (find_node i rows) ≡ false → is_none (find_node i new) ≡ false

same-IsExtended :
    (ip : String) (rows : List Node) → unique_ips rows ≡ true → IsExtended ip rows rows
same-IsExtended ip rows u = record { no_twins = u; same_others = λ i e. refl; all_kept = λ i e. e }

append_row-IsExtended :
    (ip : String) (rows : List Node) (o : Option Node)
    → ((n : Node) → o ≡ some n → n.ip ≡ ip)
    → unique_ips rows ≡ true
    → is_none (find_node ip rows) ≡ true
    → IsExtended ip rows (append_row rows o)
append_row-IsExtended ip rows none named u h = same-IsExtended ip rows u
append_row-IsExtended ip rows (some n) named u h =
    let e : n.ip ≡ ip = named n refl in
    record {
      no_twins = unique-snoc rows n u (ap (λ i. is_none (find_node i rows)) e ∙ h);
      same_others = λ i other.
          let apart : str_eq n.ip i ≡ false = ap (λ t. str_eq t i) e ∙ other in
          ground (arith, apart, has-snoc i rows n);
      all_kept = λ i there. ground (arith, there, has-snoc i rows n);
    }

with_preserved-IsExtended :
    (ip : String) (table rows : List Node)
    → unique_ips rows ≡ true
    → IsExtended ip rows (with_preserved ip table rows)
unfolding with_preserved
with_preserved-IsExtended ip table rows u =
    elim (Bool-cases (not (str_eq ip "") && is_none (find_node ip rows))) [
      | inl e ↦ rw e (
          append_row-IsExtended ip rows (find_node ip table) (λ n h. found-ip ip table n h) u
            (ground (arith, e)))
      | inr e ↦ rw e (same-IsExtended ip rows u)
    ]

-- What a replacement of a table leaves: a row for each node given, the row of the preserved node if it
-- is not among them, no other, and each IP once.
pub record IsReplaced (table ns : List Node) (t : ℕ) (ip : String) (db : Database) : Type 0 where
  pub available : db.available ≡ true
  pub time : db.last_refresh ≡ some t
  pub no_twins : unique_ips db.nodes ≡ true
  pub same_others :
      (i : String) → str_eq ip i ≡ false → is_none (find_node i db.nodes) ≡ is_none (find_node i ns)
  pub all_kept :
      (i : String) → is_none (find_node i ns) ≡ false → is_none (find_node i db.nodes) ≡ false
  pub rows : (i : String) (n : Node) → find_node i ns ≡ some n → HasRow table t i n db.nodes
  pub preserved :
      (old : Node)
      → str_eq ip "" ≡ false
      → is_none (find_node ip ns) ≡ true
      → find_node ip table ≡ some old
      → find_node ip db.nodes ≡ some old

pub replace_nodes-IsReplaced :
    (db : Database) (ns : List Node) (t : ℕ) (ip : String)
    → db.available ≡ true
    → unique_ips ns ≡ true
    → (db' : Database) × (replace_nodes db ns t ip ≡ ok db') × IsReplaced db.nodes ns t ip db'
unfolding replace_nodes
replace_nodes-IsReplaced db ns t ip a u =
    let rows : List Node = with_preserved ip db.nodes (incoming db.nodes t ns) in
    let x =
      with_preserved-IsExtended ip db.nodes (incoming db.nodes t ns)
        (unique-incoming db.nodes t ns ∙ u) in
    (
      record db { nodes = rows; last_refresh = some t },
      rw (a, x.no_twins) refl,
      record {
        available = a;
        time = refl;
        no_twins = x.no_twins;
        same_others = λ i e. x.same_others i e ∙ has-incoming db.nodes t i ns;
        all_kept = λ i e. x.all_kept i (has-incoming db.nodes t i ns ∙ e);
        rows = λ i n e.
            let (row, there, is_row) = incoming-HasRow db.nodes t i ns n e in
            (row, with_preserved-find_old i ip db.nodes (incoming db.nodes t ns) row there, is_row);
        preserved = λ old named missing e.
            with_preserved-find_kept ip db.nodes (incoming db.nodes t ns) old named
              (has-incoming db.nodes t ip ns ∙ missing) e;
      },
    )

-- A replacement that succeeds leaves each IP once.
pub replace_nodes_unique :
    (db db' : Database) (ns : List Node) (t : ℕ) (ip : String)
    → replace_nodes db ns t ip ≡ ok db'
    → unique_ips db'.nodes ≡ true
unfolding replace_nodes
replace_nodes_unique db db' ns t ip e =
    checked db.available (with_preserved ip db.nodes (incoming db.nodes t ns)) e
  where
    checked :
        (b : Bool) (rows : List Node)
        → or_unavailable b (
            if unique_ips rows
            then ok (record db { nodes = rows; last_refresh = some t })
            else err unique_violation)
          ≡ ok db'
        → unique_ips db'.nodes ≡ true
    checked true rows k = elim (Bool-cases (unique_ips rows)) [
      | inl u ↦
          let same : record db { nodes = rows; last_refresh = some t } ≡ db' =
            ground (arith, u, k) in
          ap (λ (d : Database). unique_ips d.nodes) (sym same) ∙ u
      | inr u ↦ absurd (ground (arith, u, k))
    ]
    checked false rows k = absurd (ground (arith, k))
