-- ===== src/Vpn/DnsCache/Freshness.antt =====
-- Where the answers of the cache come from.
use proxygate.Prelude.{
  ℕ, ◌+◌, ◌<◌, String, Bool, true, false, List, [], ◌∷◌, ◌++◌, Option, none, some, Bytes, ◌≡◌, ◌≢◌,
  refl, sym, subst, ap, ◌∙◌, All, length, ltb, leb, str_eq, str_eq_sound, has_text, arith,
  Bool-cases, inl, inr, if◌then◌else◌, append_assoc, append-nil,
}
use proxygate.Vpn.State.{Error}
use proxygate.Vpn.DnsCache.{
  Entry, DnsSession, Event, asks, finishes, closes, find_entry, delete_entry, answered, await,
  after_cache, resolve_ipv4, sweep, make_room, oldest_from, store_entry, cache_after, finish_lookup,
  step, run, new_dns_session, session_closed,
}

-- A lookup of the key ended with these addresses, and their lifetime ends at `expires`.
pub record IsLookedUp (es : List Event) (x : String × Entry) : Type 0 where
  pub before : List Event
  pub now : ℕ
  pub later : ℕ
  pub ttl : ℕ
  pub after : List Event
  pub looked_up : es ≡ before ++ finishes now later x.0 (some (x.1.addresses, ttl)) ∷ after
  pub lifetime : x.1.expires ≡ later + ttl

IsLookedUp-later :
    (es fs : List Event) (x : String × Entry) → IsLookedUp es x → IsLookedUp (es ++ fs) x
IsLookedUp-later es fs x r = record {
  before = r.before;
  now = r.now;
  later = r.later;
  ttl = r.ttl;
  after = r.after ++ fs;
  looked_up = ap (λ xs. xs ++ fs) r.looked_up ∙ append_assoc r.before _ fs;
  lifetime = r.lifetime;
}

All-later :
    (es fs : List Event) (xs : List (String × Entry))
    → All (IsLookedUp es) xs
    → All (IsLookedUp (es ++ fs)) xs
All-later es fs [] h = tt
All-later es fs (x ∷ xs) h = (IsLookedUp-later es fs x h.0, All-later es fs xs h.1)

module _ (P : String × Entry → Type 0) where
  All-delete_entry :
      (key : String) (cache : List (String × Entry)) → All P cache → All P (delete_entry key cache)
  unfolding delete_entry
  All-delete_entry key [] h = h
  All-delete_entry key ((k, e) ∷ rest) h = elim (Bool-cases (str_eq k key)) [
    | inl t ↦ rw t (All-delete_entry key rest h.1)
    | inr t ↦ rw t (h.0, All-delete_entry key rest h.1)
  ]

  All-sweep : (now : ℕ) (cache : List (String × Entry)) → All P cache → All P (sweep now cache)
  unfolding sweep
  All-sweep now [] h = h
  All-sweep now ((k, e) ∷ rest) h = elim (Bool-cases (ltb now e.expires)) [
    | inl t ↦ rw t (h.0, All-sweep now rest h.1)
    | inr t ↦ rw t (All-sweep now rest h.1)
  ]

  All-make_room : (cache : List (String × Entry)) → All P cache → All P (make_room cache)
  unfolding make_room
  All-make_room cache h = elim (Bool-cases (leb 256 (length cache))) [
    | inl t ↦ rw t (All-delete_entry (oldest_from ("", 0) cache) cache h)
    | inr t ↦ rw t h
  ]

  All-find_entry :
      (key : String) (cache : List (String × Entry)) (e : Entry)
      → All P cache
      → find_entry key cache ≡ some e
      → P (key, e)
  unfolding find_entry
  All-find_entry key [] e h f = absurd (ground (arith, f))
  All-find_entry key ((k, x) ∷ rest) e h f = elim (Bool-cases (str_eq k key)) [
    | inl t ↦
        subst P
          (ap (λ s. (s, x)) (str_eq_sound k key t) ∙ ap (λ y. (key, y)) (ground (arith, t, f))) h.0
    | inr t ↦ All-find_entry key rest e h.1 (ground (arith, t, f))
  ]

await-cache : (key : String) (s : DnsSession) → (await key s).1.cache ≡ s.cache
unfolding await
await-cache key s = ground arith

resolve_ipv4-All :
    (P : String × Entry → Type 0) (stop : Option Error) (now : ℕ) (key : String) (s : DnsSession)
    → All P s.cache
    → All P (resolve_ipv4 stop now key s).1.cache
unfolding resolve_ipv4 after_cache
resolve_ipv4-All P (some e) now key s h = h
resolve_ipv4-All P none now key s h = go s.closed
  where
    found : (o : Option Entry) → All P (after_cache o now key s).1.cache
    found none = subst (All P) (sym (await-cache key s)) h
    found (some e) = elim (Bool-cases (ltb now e.expires)) [
      | inl t ↦ rw t h
      | inr t ↦ rw t (
          subst (All P) (sym (await-cache key (record s { cache = delete_entry key s.cache })))
            (All-delete_entry P key s.cache h))
    ]

    go :
        (b : Bool)
        → All P
            (if b
              then (session_closed, s)
              else after_cache (find_entry key s.cache) now key s).1.cache
    go true = h
    go false = found (find_entry key s.cache)

cache_after-All :
    (P : String × Entry → Type 0) (now later : ℕ) (key : String) (answer : Option (List Bytes × ℕ))
    (cache : List (String × Entry))
    → ((addresses : List Bytes) (ttl : ℕ)
        → answer ≡ some (addresses, ttl)
        → P (key, record { addresses = addresses; expires = later + ttl }))
    → All P cache
    → All P (cache_after now later key answer cache)
unfolding cache_after store_entry
cache_after-All P now later key none cache new h = h
cache_after-All P now later key (some (addresses, ttl)) cache new h =
    elim (Bool-cases (ltb 0 ttl)) [
      | inl t ↦ rw t (
        new addresses ttl refl,
        All-delete_entry P key _ (All-make_room P (sweep now cache) (All-sweep P now cache h)),
      )
      | inr t ↦ rw t h
    ]

step-All :
    (es : List Event) (e : Event) (s : DnsSession)
    → All (IsLookedUp es) s.cache
    → All (IsLookedUp (es ++ e ∷ [])) (step e s).cache
unfolding step finish_lookup
step-All es (asks stop now key) s h = resolve_ipv4-All _ stop now key s (All-later es _ s.cache h)
step-All es (finishes now later key answer) s h = elim (Bool-cases (has_text key s.pending)) [
  | inr t ↦ rw t (All-later es _ s.cache h)
  | inl t ↦ rw t (
      cache_after-All _ now later key answer s.cache
        (λ addresses ttl e. record {
          before = es;
          now = now;
          later = later;
          ttl = ttl;
          after = [];
          looked_up = ap (λ a. es ++ finishes now later key a ∷ []) e;
          lifetime = refl;
        })
        (All-later es _ s.cache h))
]
step-All es closes s h = All-later es _ s.cache h

run-All :
    (past es : List Event) (s : DnsSession)
    → All (IsLookedUp past) s.cache
    → All (IsLookedUp (past ++ es)) (run es s).cache
unfolding run
run-All past [] s h = rw (append-nil past) h
run-All past (e ∷ es) s h =
    subst (λ xs. All (IsLookedUp xs) (run es (step e s)).cache) (append_assoc past (e ∷ []) es)
      (run-All (past ++ e ∷ []) es (step e s) (step-All past e s h))

await-answered :
    (key : String) (s : DnsSession) (addresses : List Bytes) → (await key s).0 ≢ answered addresses
unfolding await
await-answered key s addresses h = ground (arith, h)

answered-found :
    (now : ℕ) (key : String) (s : DnsSession) (addresses : List Bytes)
    → (resolve_ipv4 none now key s).0 ≡ answered addresses
    → (e : Entry) × (find_entry key s.cache ≡ some e)
      × (e.addresses ≡ addresses)
      × (now < e.expires)
unfolding resolve_ipv4 after_cache
answered-found now key s addresses h = go s.closed (find_entry key s.cache) refl h
  where
    go :
        (b : Bool) (o : Option Entry)
        → find_entry key s.cache ≡ o
        → (if b then (session_closed, s) else after_cache o now key s).0 ≡ answered addresses
        → (e : Entry) × (find_entry key s.cache ≡ some e)
          × (e.addresses ≡ addresses)
          × (now < e.expires)
    go true o f k = absurd (ground (arith, k))
    go false none f k = absurd (await-answered key s addresses k)
    go false (some e) f k = elim (Bool-cases (ltb now e.expires)) [
      | inl t ↦ (e, f, ground (arith, t, k), ground (arith, t))
      | inr t ↦ absurd (await-answered key _ addresses (rw t at k))
    ]

-- An answer of the cache, at any time, is the result of an earlier lookup of the same key through
-- this session, and the lifetime of that result has not passed.
pub resolve_ipv4-IsLookedUp :
    (es : List Event) (now : ℕ) (key : String) (addresses : List Bytes)
    → (resolve_ipv4 none now key (run es new_dns_session)).0 ≡ answered addresses
    → (e : Entry) × IsLookedUp es (key, e) × (e.addresses ≡ addresses) × (now < e.expires)
resolve_ipv4-IsLookedUp es now key addresses h =
    let s = run es new_dns_session in
    let (e, found, same, fresh) = answered-found now key s addresses h in
    (
      e,
      All-find_entry (IsLookedUp es) key s.cache e (run-All [] es new_dns_session tt) found,
      same,
      fresh,
    )
