-- ===== src/VpnGate/Rows/Parsed.antt =====
-- What `ParseCSV` answers with.
use proxygate.Prelude.{
  ℕ, String, true, List, [], ◌∷◌, Option, none, some, Result, ok, err, ◌≡◌, refl, sym, subst, arith,
  Bytes,
}
use proxygate.Model.{Node}
use proxygate.Store.{find_node, unique_ips}
use proxygate.VpnGate.{
  Reading, collect, some_nodes, after_header, parse_payload, parse_csv, without_hash,
}
use proxygate.VpnGate.Rows.{nodes_of, IsBest, IsCollected, collect-IsCollected}

-- Go walks a map in any order: every node of it once.
abbrev pub IsWalk : (List Node → List Node) → Type 0
IsWalk walk =
    (ns : List Node)
    → unique_ips ns ≡ true
    → (unique_ips (walk ns) ≡ true) × ((ip : String) → find_node ip (walk ns) ≡ find_node ip ns)

-- Nodes of the rows that `encoding/csv` reads from some part of the text.
pub record IsParsed (r : Reading) (now : ℕ) (nodes : List Node) : Type 0 where
  pub payload : Bytes
  pub header : List String
  pub rows : List (Result String (List String))
  pub read : r.rows payload ≡ ok header ∷ rows
  pub collected : IsCollected (nodes_of r now rows) nodes

walk-IsCollected :
    (walk : List Node → List Node) (ns unique : List Node)
    → IsWalk walk
    → IsCollected ns unique
    → IsCollected ns (walk unique)
walk-IsCollected walk ns unique w c = record {
  no_twins = (w unique c.no_twins).0;
  best = λ ip. subst (IsBest ip ns) (sym ((w unique c.no_twins).1 ip)) (c.best ip);
}

some_nodes-IsCollected :
    (walk : List Node → List Node) (ns nodes : List Node) (r : Result String (List Node))
    → IsWalk walk
    → ((unique : List Node) → r ≡ ok unique → IsCollected ns unique)
    → some_nodes walk r ≡ ok nodes
    → IsCollected ns nodes
unfolding some_nodes
some_nodes-IsCollected walk ns nodes (err m) w c e = absurd (ground (arith, e))
some_nodes-IsCollected walk ns nodes (ok []) w c e = absurd (ground (arith, e))
some_nodes-IsCollected walk ns nodes (ok (n ∷ unique)) w c e =
    let same : walk (n ∷ unique) ≡ nodes = ground (arith, e) in
    subst (IsCollected ns) same (walk-IsCollected walk ns (n ∷ unique) w (c (n ∷ unique) refl))

nothing-IsCollected : IsCollected [] []
unfolding find_node unique_ips
nothing-IsCollected = record { no_twins = refl; best = λ ip. tt }

after_header-IsParsed :
    (r : Reading) (walk : List Node → List Node) (now : ℕ) (payload : Bytes) (nodes : List Node)
    (read : List (Result String (List String)))
    → IsWalk walk
    → r.rows payload ≡ read
    → after_header r walk now read ≡ ok nodes
    → IsParsed r now nodes
unfolding after_header
after_header-IsParsed r walk now payload nodes [] w same e = absurd (ground (arith, e))
after_header-IsParsed r walk now payload nodes (err m ∷ rows) w same e = absurd (ground (arith, e))
after_header-IsParsed r walk now payload nodes (ok header ∷ rows) w same e = record {
  payload = payload;
  header = header;
  rows = rows;
  read = same;
  collected =
      some_nodes-IsCollected walk (nodes_of r now rows) nodes (collect r now [] rows) w
        (λ unique k. collect-IsCollected r now rows [] [] unique nothing-IsCollected k) e;
}

parse_payload-IsParsed :
    (r : Reading) (walk : List Node → List Node) (now : ℕ) (o : Option Bytes) (nodes : List Node)
    → IsWalk walk
    → parse_payload r walk now o ≡ ok nodes
    → IsParsed r now nodes
unfolding parse_payload
parse_payload-IsParsed r walk now none nodes w e = absurd (ground (arith, e))
parse_payload-IsParsed r walk now (some text) nodes w e =
    after_header-IsParsed r walk now (without_hash text) nodes (r.rows (without_hash text)) w refl e

pub parse_csv-IsParsed :
    (r : Reading) (walk : List Node → List Node) (text : Bytes) (now : ℕ) (nodes : List Node)
    → IsWalk walk
    → parse_csv r walk text now ≡ ok nodes
    → IsParsed r now nodes
unfolding parse_csv
parse_csv-IsParsed r walk text now nodes w e = parse_payload-IsParsed r walk now _ nodes w e
