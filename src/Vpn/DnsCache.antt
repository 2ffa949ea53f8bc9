-- ===== src/Vpn/DnsCache.antt =====
-- internal/vpn/dns_cache.go: the DNS answers and the lookups in flight of one VPN session. Times are
-- nanoseconds, 0 for Go's zero time.
pub mod Capacity
pub mod Freshness
use proxygate.Prelude.{
  ℕ, suc, ◌+◌, String, Bool, true, false, ◌||◌, not, List, [], ◌∷◌, ◌++◌, Option, none, some, Bytes,
  length, ltb, leb, ◌==◌, str_eq, has_text, concat, if◌then◌else◌,
}
use proxygate.Vpn.State.{Error}

abbrev pub dns_cache_capacity : ℕ
dns_cache_capacity = 256

abbrev pub dns_lookup_capacity : ℕ
dns_lookup_capacity = 64

pub record Entry : Type 0 where
  pub addresses : List Bytes
  pub expires : ℕ

-- The maps of `dnsSession`; `closed` is whether its context is done.
pub record DnsSession : Type 0 where
  pub cache : List (String × Entry)
  pub pending : List String
  pub closed : Bool

abbrev pub new_dns_session : DnsSession
new_dns_session = record { cache = []; pending = []; closed = false }

-- `strings.Join(servers, "|")`
join_servers : List String → String
join_servers [] = ""
join_servers (s ∷ []) = s
join_servers (s ∷ t ∷ ts) = concat (s ∷ "|" ∷ join_servers (t ∷ ts) ∷ [])

-- The key of a lookup; `canonical` is `strings.ToLower` after `strings.TrimSuffix(…, ".")`.
cache_key : (String → String) → String → List String → String
cache_key canonical host servers = concat (canonical host ∷ "|" ∷ join_servers servers ∷ [])

unfoldable pub find_entry : String → List (String × Entry) → Option Entry
find_entry key [] = none
find_entry key ((k, e) ∷ rest) = if str_eq k key then some e else find_entry key rest

-- `delete(s.cache, key)`
unfoldable pub delete_entry : String → List (String × Entry) → List (String × Entry)
delete_entry key [] = []
delete_entry key ((k, e) ∷ rest) =
    if str_eq k key then delete_entry key rest else (k, e) ∷ delete_entry key rest

-- What `resolveIPv4` does up to its wait: an answer of the cache, an error, or a wait on the lookup
-- of the key, which it started or which was in flight.
pub data Resolution : Type 0 where
  answered : List Bytes → Resolution
  failed : Error → Resolution
  session_closed too_many_lookups : Resolution
  waits : Bool → Resolution

await : String → DnsSession → Resolution × DnsSession
await key s =
    if has_text key s.pending
    then (waits false, s)
    else if leb dns_lookup_capacity (length s.pending)
    then (too_many_lookups, s)
    else (waits true, record s { pending = key ∷ s.pending })

after_cache : Option Entry → ℕ → String → DnsSession → Resolution × DnsSession
unfolding await
after_cache none now key s = await key s
after_cache (some e) now key s =
    if ltb now e.expires
    then (answered e.addresses, s)
    else await key (record s { cache = delete_entry key s.cache })

unfoldable pub resolve_ipv4 : Option Error → ℕ → String → DnsSession → Resolution × DnsSession
unfolding after_cache
resolve_ipv4 (some e) now key s = (failed e, s)
resolve_ipv4 none now key s =
    if s.closed then (session_closed, s) else after_cache (find_entry key s.cache) now key s

-- The expired entries are deleted.
sweep : ℕ → List (String × Entry) → List (String × Entry)
sweep now [] = []
sweep now ((k, e) ∷ rest) = if ltb now e.expires then (k, e) ∷ sweep now rest else sweep now rest

-- The loop for the entry that expires first; its start is the zero time.
oldest_from : String × ℕ → List (String × Entry) → String
oldest_from (key, time) [] = key
oldest_from (key, time) ((k, e) ∷ rest) =
    if time == 0 || ltb e.expires time
    then oldest_from (k, e.expires) rest
    else oldest_from (key, time) rest

make_room : List (String × Entry) → List (String × Entry)
unfolding oldest_from
make_room cache =
    if leb dns_cache_capacity (length cache)
    then delete_entry (oldest_from ("", 0) cache) cache
    else cache

-- `s.cache[key] = entry`
store_entry : String → Entry → List (String × Entry) → List (String × Entry)
store_entry key e cache = (key, e) ∷ delete_entry key cache

-- `delete(s.pending, key)`
remove_pending : String → List String → List String
remove_pending key [] = []
remove_pending key (k ∷ ks) =
    if str_eq k key then remove_pending key ks else k ∷ remove_pending key ks

cache_after :
    ℕ → ℕ → String → Option (List Bytes × ℕ) → List (String × Entry) → List (String × Entry)
unfolding sweep make_room store_entry
cache_after now later key none cache = cache
cache_after now later key (some (addresses, ttl)) cache =
    if ltb 0 ttl
    then store_entry key (record { addresses = addresses; expires = later + ttl })
        (make_room (sweep now cache))
    else cache

-- `lookup` once `lookupSessionIPv4` has answered: its addresses and their lifetime, or none for an
-- error. The clock is read twice.
unfoldable pub finish_lookup : ℕ → ℕ → String → Option (List Bytes × ℕ) → DnsSession → DnsSession
unfolding cache_after remove_pending
finish_lookup now later key answer s = record s {
  cache = cache_after now later key answer s.cache;
  pending = remove_pending key s.pending;
}

-- What happens to a session: a caller asks, the goroutine of a lookup in flight finishes, `Close`.
pub data Event : Type 0 where
  asks : Option Error → ℕ → String → Event
  finishes : ℕ → ℕ → String → Option (List Bytes × ℕ) → Event
  closes : Event

step : Event → DnsSession → DnsSession
step (asks stop now key) s = (resolve_ipv4 stop now key s).1
step (finishes now later key answer) s =
    if has_text key s.pending then finish_lookup now later key answer s else s
step closes s = record s { closed = true }

unfoldable pub run : List Event → DnsSession → DnsSession
unfolding step
run [] s = s
run (e ∷ es) s = run es (step e s)
