-- ===== src/Store.antt =====
-- internal/store/store.go: the SQLite tables `nodes` and `metadata`, and the statements on them.
-- `available` is false while the database answers every statement with an error.
pub mod Replace
pub mod Keys
use proxygate.Prelude.{
  ℕ, String, Bool, true, false, ◌&&◌, ◌||◌, not, List, [], ◌∷◌, ◌++◌, Option, none, some, Result,
  ok, err, str_eq, ◌==◌, if◌then◌else◌, take, drop,
}
use proxygate.Prelude.Int.{ℤ, pos, ltb_ℤ}
use proxygate.Model.{Node}

pub data StoreError : Type 0 where
  unavailable no_rows unique_violation : StoreError

-- The value of `last_refresh` is a time; the other keys of `metadata` hold texts.
pub record Database : Type 0 where
  pub nodes : List Node
  pub last_refresh : Option ℕ
  pub metadata : List (String × String)
  pub available : Bool

abbrev pub or_unavailable {ℓ} : {A : Type ℓ} → Bool → Result StoreError A → Result StoreError A
or_unavailable true r = r
or_unavailable false r = err unavailable

-- `WHERE ip=?` on a table whose key is the IP.
unfoldable pub find_node : String → List Node → Option Node
find_node ip [] = none
find_node ip (n ∷ ns) = if str_eq n.ip ip then some n else find_node ip ns

abbrev pub row_or_error : Option Node → Result StoreError Node
row_or_error none = err no_rows
row_or_error (some n) = ok n

-- `Node`
unfoldable pub node : Database → String → Result StoreError Node
unfolding find_node
node db ip = or_unavailable db.available (row_or_error (find_node ip db.nodes))

abbrev pub is_not_found {ℓ} : {A : Type ℓ} → Result StoreError A → Bool
is_not_found (err no_rows) = true
is_not_found _ = false

-- `UPDATE nodes SET … WHERE ip=?`
unfoldable pub update_node : String → (Node → Node) → List Node → List Node
update_node ip f [] = []
update_node ip f (n ∷ ns) = (if str_eq n.ip ip then f n else n) ∷ update_node ip f ns

unfoldable pub update : Database → String → (Node → Node) → Result StoreError Database
unfolding update_node
update db ip f = or_unavailable db.available (ok (record db { nodes = update_node ip f db.nodes }))

-- `MarkFailure`
unfoldable pub mark_failure : Database → ℕ → String → String → Result StoreError Database
unfolding update
mark_failure db now ip reason =
    update db ip (λ n. record n { last_failure = now; failure_reason = reason })

-- `SaveMeasurement`
unfoldable pub save_measurement : Database → ℕ → String → ℤ → Result StoreError Database
unfolding update
save_measurement db now ip bits_per_second =
    update db ip (λ n. record n {
      measured_bps = bits_per_second;
      measured_at = now;
      speed_test_failed = false;
    })

-- `SaveMeasurementFailure`
unfoldable pub save_measurement_failure : Database → ℕ → String → Result StoreError Database
unfolding update
save_measurement_failure db now ip =
    update db ip
      (λ n. record n { measured_bps = pos 0; measured_at = now; speed_test_failed = true })

-- `DELETE FROM nodes WHERE ip=? AND refreshed_at<>?`
unfoldable pub delete_stale : String → ℕ → List Node → List Node
delete_stale ip refreshed [] = []
delete_stale ip refreshed (n ∷ ns) =
    if str_eq n.ip ip && not (n.refreshed_at == refreshed)
    then delete_stale ip refreshed ns
    else n ∷ delete_stale ip refreshed ns

-- With no `last_refresh` the comparison is with NULL, and nothing is deleted.
abbrev delete_if : Option ℕ → String → List Node → List Node
delete_if none ip ns = ns
delete_if (some refreshed) ip ns = delete_stale ip refreshed ns

-- `DeleteNodeIfStale`
unfoldable pub delete_node_if_stale : Database → String → Result StoreError Database
unfolding delete_stale
delete_node_if_stale db ip =
    or_unavailable db.available (ok (record db { nodes = delete_if db.last_refresh ip db.nodes }))

unfoldable pub get_metadata : String → List (String × String) → Option String
get_metadata key [] = none
get_metadata key ((k, v) ∷ rest) = if str_eq k key then some v else get_metadata key rest

unfoldable pub put_metadata : String → String → List (String × String) → List (String × String)
put_metadata key value [] = (key, value) ∷ []
put_metadata key value ((k, v) ∷ rest) =
    if str_eq k key then (k, value) ∷ rest else (k, v) ∷ put_metadata key value rest

abbrev text_or_error : Option String → Result StoreError String
text_or_error none = err no_rows
text_or_error (some s) = ok s

-- `Metadata`
unfoldable pub metadata : Database → String → Result StoreError String
unfolding get_metadata
metadata db key = or_unavailable db.available (text_or_error (get_metadata key db.metadata))

-- `SetMetadata`
unfoldable pub set_metadata : Database → String → String → Result StoreError Database
unfolding put_metadata
set_metadata db key value =
    or_unavailable db.available (ok (record db { metadata = put_metadata key value db.metadata }))

-- `LastRefresh`: the zero time if there is none.
abbrev time_or_zero : Option ℕ → ℕ
time_or_zero none = 0
time_or_zero (some t) = t

pub last_refresh : Database → ℕ
last_refresh db = if db.available then time_or_zero db.last_refresh else 0

-- The measurement columns that `ReplaceNodes` keeps for a node that the table has already.
abbrev keep_measurements : Option Node → Node → Node
keep_measurements none n = record n {
  measured_bps = pos 0;
  measured_at = 0;
  speed_test_failed = false;
  last_failure = 0;
  failure_reason = "";
}
keep_measurements (some old) n = record n {
  measured_bps = old.measured_bps;
  measured_at = old.measured_at;
  speed_test_failed = old.speed_test_failed;
  last_failure = old.last_failure;
  failure_reason = old.failure_reason;
}

pub incoming : List Node → ℕ → List Node → List Node
incoming table refreshed_at [] = []
incoming table refreshed_at (n ∷ ns) =
    record (keep_measurements (find_node n.ip table) n) { refreshed_at = refreshed_at }
    ∷ incoming table refreshed_at ns

abbrev pub is_none {ℓ} : {A : Type ℓ} → Option A → Bool
is_none none = true
is_none (some a) = false

abbrev append_row : List Node → Option Node → List Node
append_row rows none = rows
append_row rows (some n) = rows ++ n ∷ []

-- The preserved row is added if no incoming row has its IP.
pub with_preserved : String → List Node → List Node → List Node
with_preserved ip table rows =
    if not (str_eq ip "") && is_none (find_node ip rows)
    then append_row rows (find_node ip table)
    else rows

-- Whether the primary key holds.
unfoldable pub unique_ips : List Node → Bool
unique_ips [] = true
unique_ips (n ∷ ns) = is_none (find_node n.ip ns) && unique_ips ns

-- `ReplaceNodes`: one transaction, which leaves the tables alone if it fails.
unfoldable pub replace_nodes : Database → List Node → ℕ → String → Result StoreError Database
unfolding incoming with_preserved unique_ips
replace_nodes db nodes refreshed_at preserve_ip =
    let rows = with_preserved preserve_ip db.nodes (incoming db.nodes refreshed_at nodes) in
    or_unavailable db.available (
      if unique_ips rows
      then ok (record db { nodes = rows; last_refresh = some refreshed_at })
      else err unique_violation)

pub data Mode : Type 0 where
  ping score speed : Mode

-- `orderBy`: the text of the setting picks the clause.
unfoldable pub order_by : String → Mode
order_by mode = if str_eq mode "ping" then ping else if str_eq mode "score" then score else speed

-- Whether `a` stands before `b` under `orderBy`'s clause for the mode.
unfoldable pub before : Mode → Node → Node → Bool
before ping a b =
    let dead_a = not (ltb_ℤ (pos 0) a.ping_ms) in
    let dead_b = not (ltb_ℤ (pos 0) b.ping_ms) in
    if dead_a && not dead_b
    then false
    else if not dead_a && dead_b
    then true
    else ltb_ℤ a.ping_ms b.ping_ms || (not (ltb_ℤ b.ping_ms a.ping_ms) && ltb_ℤ b.score a.score)
before score a b =
    ltb_ℤ b.score a.score || (not (ltb_ℤ a.score b.score) && ltb_ℤ b.speed_bps a.speed_bps)
before speed a b =
    ltb_ℤ b.speed_bps a.speed_bps || (not (ltb_ℤ a.speed_bps b.speed_bps) && ltb_ℤ b.score a.score)

insert_node : Mode → Node → List Node → List Node
insert_node mode n [] = n ∷ []
insert_node mode n (m ∷ ms) =
    let later = insert_node mode n ms in if before mode m n then m ∷ later else n ∷ m ∷ ms

-- `ORDER BY`
pub rank : Mode → List Node → List Node
rank mode [] = []
rank mode (n ∷ ns) = insert_node mode n (rank mode ns)

-- `Nodes`
unfoldable pub nodes : Database → Mode → ℕ → ℕ → Result StoreError (List Node)
unfolding rank insert_node
nodes db mode limit offset =
    or_unavailable db.available (ok (take limit (drop offset (rank mode db.nodes))))
