-- ===== src/Web/Page.antt =====
-- The pages of the list of nodes.
use proxygate.Prelude.{
  ℕ, zero, suc, ◌≤◌, String, Bool, true, false, ◌&&◌, not, List, [], ◌∷◌, Option, none, some,
  Result, ok, err, ◌≡◌, refl, ap, sym, subst, ◌∙◌, arith, Bytes, length, take, drop, str_eq, eq_iff,
  ◌==◌, Bool-cases, inl, inr,
}
use proxygate.Prelude.Int.{ℤ, pos, negsuc}
use proxygate.Model.{Node}
use proxygate.Store.{
  Database, StoreError, Mode, nodes, node, find_node, row_or_error, or_unavailable, order_by, rank,
}
use proxygate.Store.Keys.{found-ip}
use proxygate.Text.{atoi}
use proxygate.Vpn.Routing.{active_ip}
use proxygate.Web.{
  Site, bounded, bounded_integer, includes, put_in_front, with_active, page, nodes_page,
}

bounded-range :
    (o : Option ℤ) (fallback minimum maximum : ℕ)
    → minimum ≤ fallback
    → fallback ≤ maximum
    → (minimum ≤ bounded o fallback minimum maximum)
      × (bounded o fallback minimum maximum ≤ maximum)
unfolding bounded
bounded-range none fallback minimum maximum h k = (h, k)
bounded-range (some (negsuc n)) fallback minimum maximum h k = (h, k)
bounded-range (some (pos n)) fallback minimum maximum h k =
    (ground (arith, h, k), ground (arith, h, k))

pub bounded_integer-range :
    (value : Bytes) (fallback minimum maximum : ℕ)
    → minimum ≤ fallback
    → fallback ≤ maximum
    → (minimum ≤ bounded_integer value fallback minimum maximum)
      × (bounded_integer value fallback minimum maximum ≤ maximum)
unfolding bounded_integer
bounded_integer-range value fallback minimum maximum h k =
    bounded-range (atoi value) fallback minimum maximum h k

take-bound {ℓ} : {A : Type ℓ} (n : ℕ) (xs : List A) → length (take n xs) ≤ n
take-bound zero xs = omega arith
take-bound (suc n) [] = omega arith
take-bound (suc n) (x ∷ xs) = omega (arith, take-bound n xs)

-- What a page shows: no more nodes than asked for, and the active node if it is the first one.
pub record IsPage (db : Database) (active : String) (limit offset : ℕ) (ns : List Node)
    : Type 0 where
  pub short : length ns ≤ limit
  pub with_active_node :
      (n : Node)
      → offset ≡ 0
      → str_eq active "" ≡ false
      → node db active ≡ ok n
      → includes active ns ≡ true

active-found :
    (db : Database) (active : String) (n : Node) → node db active ≡ ok n → str_eq n.ip active ≡ true
unfolding node
active-found db active n e = found db.available (find_node active db.nodes) refl e
  where
    found :
        (b : Bool) (o : Option Node)
        → find_node active db.nodes ≡ o
        → or_unavailable b (row_or_error o) ≡ ok n
        → str_eq n.ip active ≡ true
    found true (some m) f e =
        let same : m ≡ n = ground (arith, e) in
        (eq_iff n.ip active).1 (ap (λ (x : Node). x.ip) (sym same) ∙ found-ip active db.nodes m f)
    found true none f e = absurd (ground (arith, e))
    found false o f e = absurd (ground (arith, e))

put_in_front-IsPage :
    (db : Database) (active : String) (limit offset : ℕ) (ns : List Node)
    (o : Result StoreError Node)
    → 1 ≤ limit
    → length ns ≤ limit
    → node db active ≡ o
    → IsPage db active limit offset (put_in_front limit ns o)
unfolding put_in_front includes
put_in_front-IsPage db active limit offset ns (err e) l h same = record {
  short = h;
  with_active_node = λ n zero_offset named k. absurd (ground (arith, k, same));
}
put_in_front-IsPage db active (suc limit) offset ns (ok n) l h same = record {
  short = take-bound (suc limit) (n ∷ ns);
  with_active_node = λ m zero_offset named k. ground (arith, active-found db active n same);
}
put_in_front-IsPage db active zero offset ns (ok n) l h same = absurd (omega (arith, l))

with_active-IsPage :
    (db : Database) (active : String) (limit offset : ℕ) (ns : List Node)
    → 1 ≤ limit
    → length ns ≤ limit
    → IsPage db active limit offset (with_active db active limit offset ns)
unfolding with_active
with_active-IsPage db active limit offset ns l h =
    elim (Bool-cases (offset == 0 && not (str_eq active "") && not (includes active ns))) [
      | inl e ↦ rw e (put_in_front-IsPage db active limit offset ns (node db active) l h refl)
      | inr e ↦ rw e (record {
        short = h;
        with_active_node = λ n zero_offset named k. ground (arith, e, zero_offset, named);
      })
    ]

page-IsPage :
    (db : Database) (active : String) (limit offset : ℕ) (r : Result StoreError (List Node))
    (ns : List Node)
    → 1 ≤ limit
    → ((raw : List Node) → r ≡ ok raw → length raw ≤ limit)
    → page db active limit offset r ≡ ok ns
    → IsPage db active limit offset ns
unfolding page
page-IsPage db active limit offset (err e) ns l h k = absurd (ground (arith, k))
page-IsPage db active limit offset (ok raw) ns l h k =
    let same : with_active db active limit offset raw ≡ ns = ground (arith, k) in
    subst (IsPage db active limit offset) same
      (with_active-IsPage db active limit offset raw l (h raw refl))

nodes-bound :
    (db : Database) (mode : Mode) (limit offset : ℕ) (raw : List Node)
    → nodes db mode limit offset ≡ ok raw
    → length raw ≤ limit
unfolding nodes
nodes-bound db mode limit offset raw e = bound db.available (drop offset (rank mode db.nodes)) e
  where
    bound :
        (b : Bool) (ns : List Node)
        → or_unavailable b (ok (take limit ns)) ≡ ok raw
        → length raw ≤ limit
    bound true ns k =
        let same : take limit ns ≡ raw = ground (arith, k) in
        subst (λ xs. length xs ≤ limit) same (take-bound limit ns)
    bound false ns k = absurd (ground (arith, k))

-- A page that is shown has at most as many nodes as the limit of the request, which is from 1 to 500, and
-- the first page has the active node, if the database has that node.
pub nodes_page-IsPage :
    (limit offset : Bytes) (s : Site) (ns : List Node)
    → nodes_page limit offset s ≡ ok ns
    → (1 ≤ bounded_integer limit 100 1 500)
      × (bounded_integer limit 100 1 500 ≤ 500)
      × IsPage s.world.database
          (active_ip s.world.manager)
          (bounded_integer limit 100 1 500)
          (bounded_integer offset 0 0 1000000)
          ns
unfolding nodes_page
nodes_page-IsPage limit offset s ns e =
    let r = bounded_integer-range limit 100 1 500 (omega arith) (omega arith) in
    let db = s.world.database in
    let mode = order_by s.settings.settings.selection_mode in
    let m = bounded_integer limit 100 1 500 in
    let n = bounded_integer offset 0 0 1000000 in
    (
      r.0,
      r.1,
      page-IsPage db (active_ip s.world.manager) m n (nodes db mode m n) ns r.0
          (λ raw k. nodes-bound db mode m n raw k) e,
    )
