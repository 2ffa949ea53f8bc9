-- ===== src/Vpn/DnsQuery/Answers.antt =====
-- Which answers a lookup gives.
use proxygate.Prelude.{
  ℕ, suc, ◌*◌, ◌≤◌, String, true, false, List, [], ◌∷◌, ◌++◌, Option, none, some, Result, ok, err,
  Bytes, ◌≡◌, ◌≢◌, refl, ap, sym, ◌∙◌, arith, All, All-map, get_elem?, length, ltb, Bool-cases, inl,
  inr, concat, take,
}
use proxygate.Vpn.DnsQuery.{
  Answer, Message, Exchange, append_a_records, least_ttl, limits_ttl, second, Reply, asks_for,
  check_message, decode_message, read_response, unless_failed, query_session_a, Attempt, failure_of,
  is_answer, next_round, lookup_from, lookup_session_ipv4,
}

-- A response that answers the question: the addresses of its A records.
pub record IsResponse (x : Exchange) (ips : List Bytes) (ttl : ℕ) : Type 0 where
  pub bytes : Bytes
  pub message : Message
  pub read : x.read ≡ ok bytes
  pub unpacked : x.unpack bytes ≡ ok message
  pub response : message.is_response ≡ true
  pub same_id : message.id ≡ x.id
  pub same_question : asks_for x.name message.questions ≡ true
  pub success : message.code ≡ 0
  pub whole : message.truncated ≡ false
  pub addresses : ips ≡ append_a_records message.answers
  pub lasts : All (λ a. limits_ttl a.body ≡ true → ttl ≤ a.ttl * second) message.answers

least_ttl-All :
    (answers : List Answer)
    → All (λ a. limits_ttl a.body ≡ true → least_ttl answers ≤ a.ttl) answers
unfolding least_ttl
least_ttl-All [] = tt
least_ttl-All (a ∷ answers) = (
  λ e. ground (arith, e),
  All-map (λ b. limits_ttl b.body ≡ true → least_ttl answers ≤ b.ttl)
      (λ b. limits_ttl b.body ≡ true → least_ttl (a ∷ answers) ≤ b.ttl) answers
      (λ b h e. ground (arith, h e)) (least_ttl-All answers),
)

check_message-IsResponse :
    (x : Exchange) (bytes : Bytes) (m : Message) (ips : List Bytes) (ttl : ℕ)
    → x.read ≡ ok bytes
    → x.unpack bytes ≡ ok m
    → check_message x m ≡ ok (ips, ttl)
    → IsResponse x ips ttl
unfolding check_message
check_message-IsResponse x bytes m ips ttl r u e =
    let lasts : ttl ≡ least_ttl m.answers * second = ground (arith, e) in
    record {
      bytes = bytes;
      message = m;
      read = r;
      unpacked = u;
      response = ground (arith, e);
      same_id = ground (arith, e);
      same_question = ground (arith, e);
      success = ground (arith, e);
      whole = ground (arith, e);
      addresses = ground (arith, e);
      lasts =
          All-map (λ a. limits_ttl a.body ≡ true → least_ttl m.answers ≤ a.ttl)
            (λ a. limits_ttl a.body ≡ true → ttl ≤ a.ttl * second) m.answers
            (λ a h t. omega (arith, lasts, h t)) (least_ttl-All m.answers);
    }

decode_message-IsResponse :
    (x : Exchange) (bytes : Bytes) (m : Result String Message) (ips : List Bytes) (ttl : ℕ)
    → x.read ≡ ok bytes
    → x.unpack bytes ≡ m
    → decode_message x m ≡ ok (ips, ttl)
    → IsResponse x ips ttl
unfolding decode_message
decode_message-IsResponse x bytes (err t) ips ttl r u e = absurd (ground (arith, e))
decode_message-IsResponse x bytes (ok m) ips ttl r u e =
    check_message-IsResponse x bytes m ips ttl r u e

read_response-IsResponse :
    (x : Exchange) (o : Result String Bytes) (ips : List Bytes) (ttl : ℕ)
    → x.read ≡ o
    → read_response x o ≡ ok (ips, ttl)
    → IsResponse x ips ttl
unfolding read_response
read_response-IsResponse x (err t) ips ttl r e = absurd (ground (arith, e))
read_response-IsResponse x (ok bytes) ips ttl r e = elim (Bool-cases (ltb (length bytes) 12)) [
  | inl t ↦ absurd (ground (arith, t, e))
  | inr t ↦
      let decoded : decode_message x (x.unpack bytes) ≡ ok (ips, ttl) = ground (arith, t, e) in
      decode_message-IsResponse x bytes (x.unpack bytes) ips ttl r refl decoded
]

unless_failed-ok :
    (o : Option String) (context : String) (next : Reply) (r : List Bytes × ℕ)
    → unless_failed o context next ≡ ok r
    → next ≡ ok r
unfolding unless_failed
unless_failed-ok none context next r e = e
unless_failed-ok (some t) context next r e = absurd (ground (arith, e))

query_session_a-IsResponse :
    (x : Exchange) (ips : List Bytes) (ttl : ℕ)
    → query_session_a x ≡ ok (ips, ttl)
    → IsResponse x ips ttl
unfolding query_session_a
query_session_a-IsResponse x ips ttl e = read_response-IsResponse x x.read ips ttl refl (
    unless_failed-ok x.no_write _ _ _ (
      unless_failed-ok x.no_deadline _ _ _ (
        unless_failed-ok x.no_connection _ _ _ (
          unless_failed-ok x.no_payload _ _ _
            (unless_failed-ok x.no_id _ _ _ (unless_failed-ok x.invalid_name _ _ _ e))))))

-- The answer is that of a server, the first that has one.
pub record IsAnswered (attempts : List Attempt) (ips : List Bytes) (ttl : ℕ) : Type 0 where
  pub index : ℕ
  pub attempt : Attempt
  pub asked : get_elem? attempts index ≡ some attempt
  pub first : All (λ a. is_answer (query_session_a a.exchange) ≡ false) (take index attempts)
  pub some_address : ips ≢ []
  pub response : IsResponse attempt.exchange ips ttl

IsAnswered-here :
    (a : Attempt) (attempts : List Attempt) (ips : List Bytes) (ttl : ℕ)
    → query_session_a a.exchange ≡ ok (ips, ttl)
    → is_answer (query_session_a a.exchange) ≡ true
    → IsAnswered (a ∷ attempts) ips ttl
IsAnswered-here a attempts ips ttl e t = record {
  index = 0;
  attempt = a;
  asked = refl;
  first = tt;
  some_address = λ empty.
      let none_there : is_answer (ok (ips, ttl)) ≡ true = ap is_answer (sym e) ∙ t in
      ground (arith, ap (λ xs. is_answer (ok (xs, ttl))) empty, none_there);
  response = query_session_a-IsResponse a.exchange ips ttl e;
}

IsAnswered-later :
    (a : Attempt) (attempts : List Attempt) (ips : List Bytes) (ttl : ℕ)
    → is_answer (query_session_a a.exchange) ≡ false
    → IsAnswered attempts ips ttl
    → IsAnswered (a ∷ attempts) ips ttl
IsAnswered-later a attempts ips ttl t h = record {
  index = suc h.index;
  attempt = h.attempt;
  asked = h.asked;
  first = (t, h.first);
  some_address = h.some_address;
  response = h.response;
}

next_round-IsAnswered :
    (join : List String → String) (failures : List String) (a : Attempt) (attempts : List Attempt)
    (before after : Option String) (rest : Reply) (ips : List Bytes) (ttl : ℕ)
    → (rest ≡ ok (ips, ttl) → IsAnswered attempts ips ttl)
    → next_round join failures before (query_session_a a.exchange) after rest ≡ ok (ips, ttl)
    → IsAnswered (a ∷ attempts) ips ttl
unfolding next_round
next_round-IsAnswered join failures a attempts (some t) after rest ips ttl ih e =
    absurd (ground (arith, e))
next_round-IsAnswered join failures a attempts none after rest ips ttl ih e =
    elim (Bool-cases (is_answer (query_session_a a.exchange))) [
      | inl t ↦ IsAnswered-here a attempts ips ttl (taken after e t) t
      | inr t ↦ IsAnswered-later a attempts ips ttl t (ih (passed after e t))
    ]
  where
    taken :
        (o : Option String)
        → next_round join failures none (query_session_a a.exchange) o rest ≡ ok (ips, ttl)
        → is_answer (query_session_a a.exchange) ≡ true
        → query_session_a a.exchange ≡ ok (ips, ttl)
    taken none k t = ground (arith, k, t)
    taken (some x) k t = ground (arith, k, t)

    passed :
        (o : Option String)
        → next_round join failures none (query_session_a a.exchange) o rest ≡ ok (ips, ttl)
        → is_answer (query_session_a a.exchange) ≡ false
        → rest ≡ ok (ips, ttl)
    passed none k t = ground (arith, k, t)
    passed (some x) k t = absurd (ground (arith, k, t))

lookup_from-IsAnswered :
    (join : List String → String) (failures : List String) (attempts : List Attempt)
    (ips : List Bytes) (ttl : ℕ)
    → lookup_from join failures attempts ≡ ok (ips, ttl)
    → IsAnswered attempts ips ttl
unfolding lookup_from
lookup_from-IsAnswered join failures [] ips ttl e = absurd (ground (arith, e))
lookup_from-IsAnswered join failures (a ∷ attempts) ips ttl e =
    let failures : List String =
      failures ++ concat (a.server ∷ ": " ∷ failure_of (query_session_a a.exchange) ∷ []) ∷ [] in
    next_round-IsAnswered join failures a attempts a.done_before a.done_after
      (lookup_from join failures attempts) ips ttl
      (lookup_from-IsAnswered join failures attempts ips ttl) e

-- The addresses that a lookup gives are those of the A records of a response that one of the servers
-- sent, the first one with an answer. It is a whole response without an error to the query that was
-- sent, by its identifier and its one question, there is an address in it, and the time for which
-- the addresses are kept exceeds that of none of its A and CNAME records.
pub lookup_session_ipv4-IsAnswered :
    (join : List String → String) (attempts : List Attempt) (ips : List Bytes) (ttl : ℕ)
    → lookup_session_ipv4 join attempts ≡ ok (ips, ttl)
    → IsAnswered attempts ips ttl
unfolding lookup_session_ipv4
lookup_session_ipv4-IsAnswered join attempts ips ttl e =
    lookup_from-IsAnswered join [] attempts ips ttl e
