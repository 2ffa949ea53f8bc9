-- ===== src/VpnGate/Fetched.antt =====
-- What `Fetch` answers with.
use proxygate.Prelude.{
  ℕ, ◌+◌, String, Bool, true, false, List, [], ◌∷◌, Option, none, some, Result, ok, err, ◌≡◌, refl,
  ap, sym, subst, ◌∙◌, arith, All, All-get_elem?, Bytes, take, length, ltb, ◌==◌, str_eq, eq_iff,
  Bool-cases, inl, inr, if◌then◌else◌,
}
use proxygate.Model.{Node}
use proxygate.Store.{find_node, unique_ips, is_none}
use proxygate.VpnGate.{
  Reading, Response, parse_csv, filter_nodes, keep, apply_filter, parse_body, fetch,
  max_response_size,
}
use proxygate.VpnGate.Columns.{IsSound, nodes_of-IsSound}
use proxygate.VpnGate.Rows.{nodes_of, IsBest}
use proxygate.VpnGate.Rows.Parsed.{IsWalk, IsParsed, parse_csv-IsParsed}

-- A node that the filter lets through.
abbrev passes : Result String Bool → Bool
passes (err e) = false
passes (ok b) = b

abbrev pub chosen : (Node → Result String Bool) → Option Node → Option Node
chosen matches none = none
chosen matches (some n) = if passes (matches n) then some n else none

keep-ok :
    (n : Node) (b : Result String Bool) (rest : Result String (List Node)) (kept : List Node)
    → keep n b rest ≡ ok kept
    → (others : List Node) × (rest ≡ ok others) × (kept ≡ (if passes b then n ∷ others else others))
unfolding keep
keep-ok n (err m) rest kept e = absurd (ground (arith, e))
keep-ok n (ok b) (err m) kept e = absurd (ground (arith, e))
keep-ok n (ok b) (ok others) kept e = (others, refl, ground (arith, e))

-- The nodes that pass, found where they were.
record IsFiltered (matches : Node → Result String Bool) (ns kept : List Node) : Type 0 where
  no_twins : unique_ips kept ≡ true
  found : (ip : String) → find_node ip kept ≡ chosen matches (find_node ip ns)

find-twin :
    (n : Node) (ns : List Node) (ip : String)
    → is_none (find_node n.ip ns) ≡ true
    → str_eq n.ip ip ≡ true
    → find_node ip ns ≡ none
find-twin n ns ip h e =
    let same : find_node n.ip ns ≡ find_node ip ns =
      ap (λ t. find_node t ns) ((eq_iff n.ip ip).0 e) in
    missing (find_node ip ns) (subst (λ o. is_none o ≡ true) same h)
  where
    missing : (o : Option Node) → is_none o ≡ true → o ≡ none
    missing none t = refl
    missing (some m) t = absurd (ground (arith, t))

filter_nodes-IsFiltered :
    (matches : Node → Result String Bool) (ns kept : List Node)
    → unique_ips ns ≡ true
    → filter_nodes matches ns ≡ ok kept
    → IsFiltered matches ns kept
unfolding filter_nodes unique_ips find_node
filter_nodes-IsFiltered matches [] kept u e =
    let same : [] ≡ kept = ground (arith, e) in
    subst (IsFiltered matches []) same (record { no_twins = refl; found = λ ip. refl })
filter_nodes-IsFiltered matches (n ∷ ns) kept u e =
    let (others, rest, same) = keep-ok n (matches n) (filter_nodes matches ns) kept e in
    let f : IsFiltered matches ns others =
      filter_nodes-IsFiltered matches ns others (ground (arith, u)) rest in
    subst (IsFiltered matches (n ∷ ns)) (sym same) (joined others f (passes (matches n)) refl)
  where
    gone : (ip : String) → str_eq n.ip ip ≡ true → find_node ip ns ≡ none
    gone ip t = find-twin n ns ip (ground (arith, u)) t

    joined :
        (others : List Node)
        → IsFiltered matches ns others
        → (b : Bool) → passes (matches n) ≡ b
        → IsFiltered matches (n ∷ ns) (if b then n ∷ others else others)
    joined others f true t = record {
      no_twins = ground (arith, f.found n.ip, gone n.ip ((eq_iff n.ip n.ip).1 refl), f.no_twins);
      found = λ ip. elim (Bool-cases (str_eq n.ip ip)) [
        | inl same ↦ ground (arith, same, t)
        | inr other ↦ ground (arith, other, f.found ip)
      ];
    }
    joined others f false t = record {
      no_twins = f.no_twins;
      found = λ ip. elim (Bool-cases (str_eq n.ip ip)) [
        | inl same ↦ ground (arith, same, t, f.found ip, gone ip same)
        | inr other ↦ ground (arith, other, f.found ip)
      ];
    }

-- The nodes of the rows, one for an IP, and those of them that the filter lets through.
pub record IsFetched (r : Reading) (now : ℕ) (compiled : Result String (Node → Result String Bool))
    (nodes : List Node) : Type 0 where
  pub matches : Node → Result String Bool
  pub compiles : compiled ≡ ok matches
  pub parsed : List Node
  pub from_rows : IsParsed r now parsed
  pub no_twins : unique_ips nodes ≡ true
  pub found : (ip : String) → find_node ip nodes ≡ chosen matches (find_node ip parsed)
  pub sound : (ip : String) (n : Node) → find_node ip nodes ≡ some n → IsSound r n

best-IsSound :
    (r : Reading) (ns : List Node) (ip : String) (o : Option Node) (n : Node)
    → All (IsSound r) ns
    → IsBest ip ns o
    → o ≡ some n
    → IsSound r n
best-IsSound r ns ip none n h b e = absurd (ground (arith, e))
best-IsSound r ns ip (some m) n h b e =
    let same : m ≡ n = ground (arith, e) in
    subst (IsSound r) same (All-get_elem? (IsSound r) ns b.0.0 m h b.0.1)

chosen-some :
    (matches : Node → Result String Bool) (o : Option Node) (n : Node)
    → chosen matches o ≡ some n
    → o ≡ some n
chosen-some matches none n e = absurd (ground (arith, e))
chosen-some matches (some m) n e = elim (Bool-cases (passes (matches m))) [
  | inl t ↦ ground (arith, t, e)
  | inr t ↦ absurd (ground (arith, t, e))
]

filtered-IsFetched :
    (r : Reading) (now : ℕ) (matches : Node → Result String Bool) (parsed nodes : List Node)
    → IsParsed r now parsed
    → filter_nodes matches parsed ≡ ok nodes
    → IsFetched r now (ok matches) nodes
filtered-IsFetched r now matches parsed nodes p e =
    let f = filter_nodes-IsFiltered matches parsed nodes p.collected.no_twins e in
    record {
      matches = matches;
      compiles = refl;
      parsed = parsed;
      from_rows = p;
      no_twins = f.no_twins;
      found = f.found;
      sound = λ ip n k.
          best-IsSound r (nodes_of r now p.rows) ip (find_node ip parsed) n
            (nodes_of-IsSound r now p.rows) (p.collected.best ip)
            (chosen-some matches (find_node ip parsed) n (sym (f.found ip) ∙ k));
    }

apply_filter-IsFetched :
    (r : Reading) (now : ℕ) (compiled : Result String (Node → Result String Bool))
    (parsed : Result String (List Node)) (nodes : List Node)
    → ((ns : List Node) → parsed ≡ ok ns → IsParsed r now ns)
    → apply_filter compiled parsed ≡ ok nodes
    → IsFetched r now compiled nodes
unfolding apply_filter
apply_filter-IsFetched r now compiled (err m) nodes p e = absurd (ground (arith, e))
apply_filter-IsFetched r now (err m) (ok ns) nodes p e = absurd (ground (arith, e))
apply_filter-IsFetched r now (ok matches) (ok ns) nodes p e =
    filtered-IsFetched r now matches ns nodes (p ns refl) e

parse_body-IsFetched :
    (r : Reading) (walk : List Node → List Node) (now : ℕ)
    (compiled : Result String (Node → Result String Bool)) (body : Result String Bytes)
    (nodes : List Node)
    → IsWalk walk
    → parse_body r walk now compiled body ≡ ok nodes
    → IsFetched r now compiled nodes
unfolding parse_body
parse_body-IsFetched r walk now compiled (err m) nodes w e = absurd (ground (arith, e))
parse_body-IsFetched r walk now compiled (ok body) nodes w e =
    let text : Bytes = take (max_response_size + 1) body in
    elim (Bool-cases (ltb max_response_size (length text))) [
      | inl t ↦ absurd (ground (arith, t, e))
      | inr t ↦
          let parses : apply_filter compiled (parse_csv r walk text now) ≡ ok nodes =
            ground (arith, t, e) in
          apply_filter-IsFetched r now compiled (parse_csv r walk text now) nodes
            (λ ns k. parse_csv-IsParsed r walk text now ns w k) parses
    ]

-- The nodes that `Fetch` answers with, in whatever order Go walks the map: each IP stands once, a node
-- has the highest score of the rows with its IP and passes the filter, every IP whose best row passes is
-- there, and every node has an IPv4 address, a port from 1 to 65535, at least one protocol, only
-- protocols that the settings know, none twice, and numbers of 64 bits.
pub fetch-IsFetched :
    (r : Reading) (walk : List Node → List Node) (now : ℕ)
    (compile : String → Result String (Node → Result String Bool))
    (response : Result String Response) (expression : String) (nodes : List Node)
    → IsWalk walk
    → fetch r walk now compile response expression ≡ ok nodes
    → IsFetched r now (compile expression) nodes
unfolding fetch
fetch-IsFetched r walk now compile (err m) expression nodes w e = absurd (ground (arith, e))
fetch-IsFetched r walk now compile (ok response) expression nodes w e =
    elim (Bool-cases (response.status_code == 200)) [
      | inl t ↦
          let body : parse_body r walk now (compile expression) response.body ≡ ok nodes =
            ground (arith, t, e) in
          parse_body-IsFetched r walk now (compile expression) response.body nodes w body
      | inr t ↦ absurd (ground (arith, t, e))
    ]
