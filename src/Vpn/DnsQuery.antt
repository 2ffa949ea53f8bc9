-- ===== src/Vpn/DnsQuery.antt =====
-- internal/vpn/dns.go: the queries for IPv4 addresses that go through a VPN session, one server after
-- the other. Packing and unpacking of messages, and the session's sockets, are parameters.
pub mod Answers
use proxygate.Prelude.{
  ℕ, ◌*◌, ◌-◌, ◌^◌, String, Bool, true, false, ◌&&◌, ◌||◌, not, List, [], ◌∷◌, ◌++◌, Option, none,
  some, Result, ok, err, Bytes, concat, length, map, codes, str_eq, bytes_eq, ltb, leb, ◌==◌,
  if◌then◌else◌,
}
use proxygate.Text.{lower}

-- `dnsmessage`, as far as the source reads it.
pub data Resource : Type 0 where
  a_record : Bytes → Resource
  cname other_resource : Resource

pub record Answer : Type 0 where
  pub ttl : ℕ
  pub body : Resource

pub record Question : Type 0 where
  pub is_a : Bool
  pub name : String

pub record Message : Type 0 where
  pub is_response : Bool
  pub id : ℕ
  pub truncated : Bool
  pub code : ℕ
  pub questions : List Question
  pub answers : List Answer

-- What a query meets before its response: the first error of the name, the identifier, the packing,
-- the dialing, the deadline, the writing and the reading, or the bytes read.
pub record Exchange : Type 0 where
  pub name : String
  pub id : ℕ
  pub invalid_name : Option String
  pub no_id : Option String
  pub no_payload : Option String
  pub no_connection : Option String
  pub no_deadline : Option String
  pub no_write : Option String
  pub read : Result String Bytes
  pub unpack : Bytes → Result String Message
  pub code_text : ℕ → String

-- `strings.EqualFold` on ASCII letters.
abbrev equal_fold : String → String → Bool
equal_fold s t = bytes_eq (map lower (codes s)) (map lower (codes t))

-- `appendARecords`
abbrev a_addresses : Resource → List Bytes
a_addresses (a_record ip) = ip ∷ []
a_addresses cname = []
a_addresses other_resource = []

unfoldable pub append_a_records : List Answer → List Bytes
append_a_records [] = []
append_a_records (a ∷ answers) = a_addresses a.body ++ append_a_records answers

-- The least time to live, in seconds, of the A and CNAME records.
abbrev limits_ttl : Resource → Bool
limits_ttl (a_record ip) = true
limits_ttl cname = true
limits_ttl other_resource = false

abbrev min : ℕ → ℕ → ℕ
min a b = if leb a b then a else b

unfoldable pub least_ttl : List Answer → ℕ
least_ttl [] = 2 ^ 32 - 1
least_ttl (a ∷ answers) =
    let rest = least_ttl answers in if limits_ttl a.body then min a.ttl rest else rest

abbrev pub second : ℕ
second = 1000000000

abbrev pub Reply : Type 0
Reply = Result String (List Bytes × ℕ)

abbrev asks_for : String → List Question → Bool
asks_for name [] = false
asks_for name (q ∷ []) = q.is_a && equal_fold q.name name
asks_for name (q ∷ r ∷ questions) = false

check_message : Exchange → Message → Reply
check_message x m =
    if not m.is_response || not (m.id == x.id)
    then err "UDP DNS response does not match query"
    else if not (asks_for x.name m.questions)
    then err "UDP DNS response contains an unexpected question"
    else if not (m.code == 0)
    then err (concat ("UDP DNS returned " ∷ x.code_text m.code ∷ []))
    else if m.truncated
    then err "UDP DNS response is truncated"
    else ok (append_a_records m.answers, least_ttl m.answers * second)

decode_message : Exchange → Result String Message → Reply
unfolding check_message
decode_message x (err e) = err (concat ("decode UDP DNS response: " ∷ e ∷ []))
decode_message x (ok m) = check_message x m

read_response : Exchange → Result String Bytes → Reply
unfolding decode_message
read_response x (err e) = err (concat ("read UDP DNS response: " ∷ e ∷ []))
read_response x (ok bytes) =
    if ltb (length bytes) 12
    then err "UDP DNS response is too short"
    else decode_message x (x.unpack bytes)

-- A step that may fail, with the text that its error gets.
unless_failed : Option String → String → Reply → Reply
unless_failed none context next = next
unless_failed (some e) context next = err (concat (context ∷ ": " ∷ e ∷ []))

-- `querySessionA`
unfoldable pub query_session_a : Exchange → Reply
unfolding unless_failed read_response
query_session_a x = unless_failed x.invalid_name "invalid DNS name" (
    unless_failed x.no_id "create DNS query ID" (
      unless_failed x.no_payload "encode DNS query" (
        unless_failed x.no_connection "connect UDP DNS" (
          unless_failed x.no_deadline "set UDP DNS deadline"
            (unless_failed x.no_write "write UDP DNS query" (read_response x x.read))))))

-- What the loop of `lookupSessionIPv4` meets at one server. `done_before`
-- and `done_after` are the error of the context before and after the query to a server.
pub record Attempt : Type 0 where
  pub server : String
  pub done_before : Option String
  pub exchange : Exchange
  pub done_after : Option String

abbrev failure_of : Reply → String
failure_of (err e) = e
failure_of (ok answer) = "response contains no A records"

abbrev is_answer : Reply → Bool
is_answer (err e) = false
is_answer (ok ([], ttl)) = false
is_answer (ok (ip ∷ ips, ttl)) = true

-- One round: the context, then the answer, then the context again.
next_round :
    (List String → String) → List String → Option String → Reply → Option String → Reply → Reply
next_round join failures (some e) reply after rest = err e
next_round join failures none reply (some e) rest =
    if is_answer reply then reply else err (join failures)
next_round join failures none reply none rest = if is_answer reply then reply else rest

-- `join` makes the error of the failures.
lookup_from : (List String → String) → List String → List Attempt → Reply
unfolding next_round
lookup_from join failures [] = err (join failures)
lookup_from join failures (a ∷ attempts) =
    let reply = query_session_a a.exchange in
    let failures = failures ++ concat (a.server ∷ ": " ∷ failure_of reply ∷ []) ∷ [] in
    next_round join failures a.done_before reply a.done_after (lookup_from join failures attempts)

-- `lookupSessionIPv4`
unfoldable pub lookup_session_ipv4 : (List String → String) → List Attempt → Reply
unfolding lookup_from
lookup_session_ipv4 join attempts = lookup_from join [] attempts
