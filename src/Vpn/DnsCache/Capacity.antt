-- ===== src/Vpn/DnsCache/Capacity.antt =====
-- The bounds of the cache and of the lookups in flight.
use proxygate.Prelude.{
  ℕ, ◌≤◌, ◌<◌, String, Bool, true, false, List, [], ◌∷◌, Option, none, some, Bytes, ◌≡◌, refl,
  length, ltb, leb, ◌||◌, str_eq, has_text, str_eq_refl, subst, sym, arith, inl, inr, Bool-cases,
  if◌then◌else◌,
}
use proxygate.Vpn.State.{Error}
use proxygate.Vpn.DnsCache.{
  session_closed, Entry, DnsSession, Event, asks, finishes, closes, find_entry, delete_entry, await,
  after_cache, resolve_ipv4, sweep, oldest_from, make_room, store_entry, remove_pending,
  cache_after, finish_lookup, step, run, new_dns_session, dns_cache_capacity, dns_lookup_capacity,
}

length-delete_entry :
    (key : String) (cache : List (String × Entry)) → length (delete_entry key cache) ≤ length cache
unfolding delete_entry
length-delete_entry key [] = omega arith
length-delete_entry key ((k, e) ∷ rest) = ground (arith, length-delete_entry key rest)

length-sweep : (now : ℕ) (cache : List (String × Entry)) → length (sweep now cache) ≤ length cache
unfolding sweep
length-sweep now [] = omega arith
length-sweep now ((k, e) ∷ rest) = ground (arith, length-sweep now rest)

has_key : String → List (String × Entry) → Bool
has_key key [] = false
has_key key ((k, e) ∷ rest) = str_eq k key || has_key key rest

length-delete_entry-has_key :
    (key : String) (cache : List (String × Entry))
    → has_key key cache ≡ true
    → length (delete_entry key cache) < length cache
unfolding delete_entry has_key
length-delete_entry-has_key key [] h = cc
length-delete_entry-has_key key ((k, e) ∷ rest) h =
    ground (arith, length-delete_entry-has_key key rest, length-delete_entry key rest)

oldest_from-has_key :
    (key : String) (time : ℕ) (cache : List (String × Entry))
    → (str_eq key (oldest_from (key, time) cache) || has_key (oldest_from (key, time) cache) cache)
      ≡ true
unfolding oldest_from has_key
oldest_from-has_key key time [] = rw (str_eq_refl key) refl
oldest_from-has_key key time ((k, e) ∷ rest) =
    ground (arith, oldest_from-has_key k e.expires rest, oldest_from-has_key key time rest)

oldest-has_key :
    (entry : String × Entry) (rest : List (String × Entry))
    → has_key (oldest_from ("", 0) (entry ∷ rest)) (entry ∷ rest) ≡ true
unfolding oldest_from has_key
oldest-has_key (k, e) rest = oldest_from-has_key k e.expires rest

below_capacity : (n : ℕ) → leb 256 n ≡ false → n ≤ 255
below_capacity n h = ground arith

length-make_room :
    (cache : List (String × Entry)) → length cache ≤ 256 → length (make_room cache) ≤ 255
unfolding make_room
length-make_room [] h = omega arith
length-make_room (entry ∷ rest) h =
    let smaller =
      length-delete_entry-has_key (oldest_from ("", 0) (entry ∷ rest)) (entry ∷ rest)
        (oldest-has_key entry rest) in
    elim (Bool-cases (leb 256 (length (entry ∷ rest)))) [
      | inl e ↦ rw e (omega (arith, smaller))
      | inr e ↦ rw e (below_capacity (length (entry ∷ rest)) e)
    ]

length-cache_after :
    (now later : ℕ) (key : String) (answer : Option (List Bytes × ℕ))
    (cache : List (String × Entry))
    → length cache ≤ 256
    → length (cache_after now later key answer cache) ≤ 256
unfolding cache_after store_entry
length-cache_after now later key none cache h = h
length-cache_after now later key (some (addresses, ttl)) cache h =
    let swept = length-sweep now cache in
    let room = length-make_room (sweep now cache) (omega arith) in
    let stored = length-delete_entry key (make_room (sweep now cache)) in
    elim (Bool-cases (ltb 0 ttl)) [ inl e ↦ rw e (omega arith) | inr e ↦ rw e h ]

has_text-remove_pending :
    (k key : String) (ks : List String)
    → has_text k ks ≡ false
    → has_text k (remove_pending key ks) ≡ false
unfolding remove_pending has_text
has_text-remove_pending k key [] h = h
has_text-remove_pending k key (x ∷ ks) h = ground (arith, has_text-remove_pending k key ks)

length-remove_pending :
    (key : String) (ks : List String) → length (remove_pending key ks) ≤ length ks
unfolding remove_pending
length-remove_pending key [] = omega arith
length-remove_pending key (k ∷ ks) = ground (arith, length-remove_pending key ks)

-- No text stands twice in a list.
abbrev pub IsDistinct : List String → Type 0
IsDistinct [] = Unit {0}
IsDistinct (k ∷ ks) = (has_text k ks ≡ false) × IsDistinct ks

remove_pending-IsDistinct :
    (key : String) (ks : List String) → IsDistinct ks → IsDistinct (remove_pending key ks)
unfolding remove_pending
remove_pending-IsDistinct key [] h = h
remove_pending-IsDistinct key (k ∷ ks) h = elim (Bool-cases (str_eq k key)) [
  | inl e ↦ rw e (remove_pending-IsDistinct key ks h.1)
  | inr e ↦ rw e (has_text-remove_pending k key ks h.0, remove_pending-IsDistinct key ks h.1)
]

-- At most 256 cached answers, and at most 64 lookups in flight, of different keys.
pub record IsBounded (s : DnsSession) : Type 0 where
  pub cached : length s.cache ≤ dns_cache_capacity
  pub in_flight : length s.pending ≤ dns_lookup_capacity
  pub single_flight : IsDistinct s.pending

await-IsBounded : (key : String) (s : DnsSession) → IsBounded s → IsBounded (await key s).1
unfolding await
await-IsBounded key s h = elim (Bool-cases (has_text key s.pending)) [
  | inl e ↦ rw e h
  | inr e ↦ elim (Bool-cases (leb 64 (length s.pending))) [
    | inl full ↦ rw (e, full) h
    | inr free ↦
        rw (e, free)
          (record {
            cached = h.cached;
            in_flight = ground (arith, free);
            single_flight = (e, h.single_flight);
          })
  ]
]

after_cache-IsBounded :
    (found : Option Entry) (now : ℕ) (key : String) (s : DnsSession)
    → IsBounded s
    → IsBounded (after_cache found now key s).1
unfolding after_cache
after_cache-IsBounded none now key s h = await-IsBounded key s h
after_cache-IsBounded (some e) now key s h = elim (Bool-cases (ltb now e.expires)) [
  | inl fresh ↦ rw fresh h
  | inr stale ↦ rw stale (
      await-IsBounded key _ (record {
        cached = omega (arith, h.cached, length-delete_entry key s.cache);
        in_flight = h.in_flight;
        single_flight = h.single_flight;
      }))
]

resolve_ipv4-IsBounded :
    (stop : Option Error) (now : ℕ) (key : String) (s : DnsSession)
    → IsBounded s
    → IsBounded (resolve_ipv4 stop now key s).1
unfolding resolve_ipv4
resolve_ipv4-IsBounded (some e) now key s h = h
resolve_ipv4-IsBounded none now key s h = elim (Bool-cases s.closed) [
  | inl e ↦
      subst
        (λ b.
          IsBounded
            (if b then (session_closed, s) else after_cache (find_entry key s.cache) now key s).1)
        (sym e) h
  | inr e ↦
      subst
        (λ b.
          IsBounded
            (if b then (session_closed, s) else after_cache (find_entry key s.cache) now key s).1)
        (sym e) (after_cache-IsBounded (find_entry key s.cache) now key s h)
]

step-IsBounded : (e : Event) (s : DnsSession) → IsBounded s → IsBounded (step e s)
unfolding step finish_lookup
step-IsBounded (asks stop now key) s h = resolve_ipv4-IsBounded stop now key s h
step-IsBounded (finishes now later key answer) s h = elim (Bool-cases (has_text key s.pending)) [
  | inr e ↦ rw e h
  | inl e ↦ rw e (record {
    cached = length-cache_after now later key answer s.cache h.cached;
    in_flight = omega (arith, h.in_flight, length-remove_pending key s.pending);
    single_flight = remove_pending-IsDistinct key s.pending h.single_flight;
  })
]
step-IsBounded closes s h = record {
  cached = h.cached;
  in_flight = h.in_flight;
  single_flight = h.single_flight;
}

run-IsBounded' : (es : List Event) (s : DnsSession) → IsBounded s → IsBounded (run es s)
unfolding run
run-IsBounded' [] s h = h
run-IsBounded' (e ∷ es) s h = run-IsBounded' es (step e s) (step-IsBounded e s h)

-- Whatever callers ask and lookups answer, a session never caches more than 256 answers and never
-- has more than 64 lookups in flight, of which no two are of the same key.
pub run-IsBounded : (es : List Event) → IsBounded (run es new_dns_session)
run-IsBounded es =
    run-IsBounded' es new_dns_session
      (record { cached = omega arith; in_flight = omega arith; single_flight = tt })
