-- ===== src/VpnGate/Rows.antt =====
-- Which nodes `ParseCSV` makes of the rows.
pub mod Parsed
use proxygate.Prelude.{
  ℕ, zero, suc, String, Bool, true, false, ◌&&◌, List, [], ◌∷◌, ◌++◌, Option, none, some, Result,
  ok, err, ◌≡◌, inl, inr, append-nil, append_assoc, refl, ap, sym, subst, ◌∙◌, arith, All, All-snoc,
  All-map, get_elem?, get_elem?-last, get_elem?-append, length, Bytes, str_eq, eq_iff, test-str_eq,
  Bool-cases, if◌then◌else◌,
}
use proxygate.Prelude.Int.{ℤ, pos, negsuc, ltb_ℤ}
use proxygate.Model.{Node}
use proxygate.Store.{find_node, unique_ips, is_none}
use proxygate.VpnGate.{
  Reading, row_node, put_best, put_row, collect, some_nodes, after_header, parse_payload, parse_csv,
}

-- The nodes of the rows, in their order.
abbrev pub append_node : Option Node → List Node → List Node
append_node none ns = ns
append_node (some n) ns = n ∷ ns

abbrev pub nodes_of : Reading → ℕ → List (Result String (List String)) → List Node
nodes_of r now [] = []
nodes_of r now (err e ∷ rows) = nodes_of r now rows
nodes_of r now (ok columns ∷ rows) = append_node (row_node r now columns) (nodes_of r now rows)

-- A node with the IP scores no more.
abbrev pub IsNoMore : String → Node → Node → Type 0
IsNoMore ip n m = str_eq m.ip ip ≡ true → ltb_ℤ n.score m.score ≡ false

-- Of the nodes with the IP, one of the highest score; none if there is none.
abbrev pub IsBest : String → List Node → Option Node → Type 0
IsBest ip ns none = All (λ m. str_eq m.ip ip ≡ false) ns
IsBest ip ns (some n) =
    ((k : ℕ) × (get_elem? ns k ≡ some n)) × ((str_eq n.ip ip ≡ true) × All (IsNoMore ip n) ns)

-- How `put_best` changes what stands at an IP.
abbrev better : String → Node → Option Node → Option Node
better ip n none = some n
better ip n (some m) = some (if ltb_ℤ m.score n.score then n else m)

apart_ips : (a b ip : String) → str_eq a b ≡ false → str_eq a ip ≡ true → str_eq b ip ≡ false
apart_ips a b ip e t =
    (test-str_eq b ip).1 (λ same. (test-str_eq a b).0 e ((eq_iff a ip).0 t ∙ sym same))

find-put_best :
    (ip : String) (n : Node) (ns : List Node)
    → find_node ip (put_best n ns)
      ≡ (if str_eq n.ip ip then better ip n (find_node ip ns) else find_node ip ns)
unfolding find_node put_best
find-put_best ip n [] = refl
find-put_best ip n (m ∷ ms) = elim (Bool-cases (str_eq m.ip n.ip)) [
  | inl e ↦
      let same : str_eq m.ip ip ≡ str_eq n.ip ip = ap (λ t. str_eq t ip) ((eq_iff m.ip n.ip).0 e) in
      ground (arith, e, same)
  | inr e ↦
      let apart : str_eq m.ip ip ≡ true → str_eq n.ip ip ≡ false = apart_ips m.ip n.ip ip e in
      ground (arith, e, find-put_best ip n ms, apart)
]

unique-put_best :
    (n : Node) (ns : List Node) → unique_ips ns ≡ true → unique_ips (put_best n ns) ≡ true
unfolding unique_ips put_best find_node
unique-put_best n [] h = refl
unique-put_best n (m ∷ ms) h = elim (Bool-cases (str_eq m.ip n.ip)) [
  | inl e ↦
      let same : find_node m.ip ms ≡ find_node n.ip ms =
        ap (λ t. find_node t ms) ((eq_iff m.ip n.ip).0 e) in
      ground (arith, e, h, same)
  | inr e ↦
      let apart : str_eq n.ip m.ip ≡ false =
        (test-str_eq n.ip m.ip).1 (λ t. (test-str_eq m.ip n.ip).0 e (sym t)) in
      ground (arith, e, h, apart, find-put_best m.ip n ms, unique-put_best n ms)
]

lower_score : (a b c : ℤ) → ltb_ℤ a b ≡ true → ltb_ℤ a c ≡ false → ltb_ℤ b c ≡ false
lower_score a b c h k = ground (arith, h, k)

same_or_less : (a : ℤ) → ltb_ℤ a a ≡ false
same_or_less a = ground arith

new-IsBest :
    (ip : String) (ns : List Node) (n : Node)
    → str_eq n.ip ip ≡ true
    → All (IsNoMore ip n) ns
    → IsBest ip (ns ++ n ∷ []) (some n)
new-IsBest ip ns n e h = (
  (length ns, get_elem?-last ns n),
  (e, All-snoc (IsNoMore ip n) ns n h (λ t. same_or_less n.score)),
)

-- One row more.
IsBest-better :
    (ip : String) (ns : List Node) (n : Node) (o : Option Node)
    → str_eq n.ip ip ≡ true
    → IsBest ip ns o
    → IsBest ip (ns ++ n ∷ []) (better ip n o)
IsBest-better ip ns n none e h = new-IsBest ip ns n e (
    All-map (λ m. str_eq m.ip ip ≡ false) (IsNoMore ip n) ns
      (λ m f t. absurd (ground (arith, f, t))) h)
IsBest-better ip ns n (some m) e h = picked (ltb_ℤ m.score n.score) refl
  where
    picked :
        (b : Bool)
        → ltb_ℤ m.score n.score ≡ b
        → IsBest ip (ns ++ n ∷ []) (some (if b then n else m))
    picked true t = new-IsBest ip ns n e (
        All-map (IsNoMore ip m) (IsNoMore ip n) ns
          (λ x f same. lower_score m.score n.score x.score t (f same)) h.1.1)
    picked false t = (
      (h.0.0, get_elem?-append ns (n ∷ []) h.0.0 m h.0.1),
      (h.1.0, All-snoc (IsNoMore ip m) ns n h.1.1 (λ same. t)),
    )

IsBest-other :
    (ip : String) (ns : List Node) (n : Node) (o : Option Node)
    → str_eq n.ip ip ≡ false
    → IsBest ip ns o
    → IsBest ip (ns ++ n ∷ []) o
IsBest-other ip ns n none e h = All-snoc (λ m. str_eq m.ip ip ≡ false) ns n h e
IsBest-other ip ns n (some m) e h = (
  (h.0.0, get_elem?-append ns (n ∷ []) h.0.0 m h.0.1),
  (h.1.0, All-snoc (IsNoMore ip m) ns n h.1.1 (λ same. absurd (ground (arith, same, e)))),
)

-- What the map holds: one node for an IP, the best of the rows.
pub record IsCollected (ns unique : List Node) : Type 0 where
  pub no_twins : unique_ips unique ≡ true
  pub best : (ip : String) → IsBest ip ns (find_node ip unique)

put_best-IsCollected :
    (ns unique : List Node) (n : Node)
    → IsCollected ns unique
    → IsCollected (ns ++ n ∷ []) (put_best n unique)
put_best-IsCollected ns unique n c = record {
  no_twins = unique-put_best n unique c.no_twins;
  best = λ ip.
      subst (IsBest ip (ns ++ n ∷ [])) (sym (find-put_best ip n unique))
        (there ip (str_eq n.ip ip) refl);
}
  where
    there :
        (ip : String) (b : Bool)
        → str_eq n.ip ip ≡ b
        → IsBest ip
            (ns ++ n ∷ [])
            (if b then better ip n (find_node ip unique) else find_node ip unique)
    there ip true e = IsBest-better ip ns n (find_node ip unique) e (c.best ip)
    there ip false e = IsBest-other ip ns n (find_node ip unique) e (c.best ip)

put_row-IsCollected :
    (ns unique rest : List Node) (o : Option Node)
    → IsCollected ns unique
    → (new : List Node) × IsCollected new (put_row o unique)
      × (new ++ rest ≡ ns ++ append_node o rest)
put_row-IsCollected ns unique rest none c = (ns, c, refl)
put_row-IsCollected ns unique rest (some n) c =
    (ns ++ n ∷ [], put_best-IsCollected ns unique n c, append_assoc ns (n ∷ []) rest)

collect-IsCollected :
    (r : Reading) (now : ℕ) (rows : List (Result String (List String)))
    (ns unique result : List Node)
    → IsCollected ns unique
    → collect r now unique rows ≡ ok result
    → IsCollected (ns ++ nodes_of r now rows) result
unfolding collect
collect-IsCollected r now [] ns unique result c e =
    let same : unique ≡ result = ground (arith, e) in
    subst (IsCollected (ns ++ [])) same (subst (λ t. IsCollected t unique) (sym (append-nil ns)) c)
collect-IsCollected r now (err m ∷ rows) ns unique result c e = absurd (ground (arith, e))
collect-IsCollected r now (ok columns ∷ rows) ns unique result c e =
    let o = row_node r now columns in
    let (new, collected, same) = put_row-IsCollected ns unique (nodes_of r now rows) o c in
    subst (λ t. IsCollected t result) same
      (collect-IsCollected r now rows new (put_row o unique) result collected e)
