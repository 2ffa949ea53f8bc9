-- ===== src/Examples/DnsQueries.antt =====
-- A lookup that asks two servers.
use proxygate.Prelude.{
  ℕ, String, true, false, List, [], ◌∷◌, Option, none, some, Result, ok, err, ◌≡◌, refl, Bytes,
  codes,
}
use proxygate.Vpn.DnsQuery.{
  Exchange, Message, Attempt, a_record, cname, query_session_a, lookup_session_ipv4,
  append_a_records, least_ttl,
}
use proxygate.Vpn.DnsQuery.Answers.{IsAnswered, lookup_session_ipv4-IsAnswered}

abbrev message : Message
message = record {
  is_response = true;
  id = 7;
  truncated = false;
  code = 0;
  questions = record { is_a = true; name = "Example.com." } ∷ [];
  answers =
      record { ttl = 30; body = cname }
      ∷ record { ttl = 60; body = a_record (192 ∷ 0 ∷ 2 ∷ 1 ∷ []) }
      ∷ [];
}

abbrev exchange : Option String → Exchange
exchange no_connection = record {
  name = "example.com.";
  id = 7;
  invalid_name = none;
  no_id = none;
  no_payload = none;
  no_connection = no_connection;
  no_deadline = none;
  no_write = none;
  read = ok (codes "twelve bytes");
  unpack = λ bytes. ok message;
  code_text = λ code. "code";
}

abbrev attempts : List Attempt
attempts =
    record {
      server = "1.1.1.1:53";
      done_before = none;
      exchange = exchange (some "refused");
      done_after = none;
    }
    ∷ record {
      server = "8.8.8.8:53";
      done_before = none;
      exchange = exchange none;
      done_after = none;
    }
    ∷ []

abbrev join : List String → String
join failures = "failed"

second_server : lookup_session_ipv4 join attempts ≡ ok ((192 ∷ 0 ∷ 2 ∷ 1 ∷ []) ∷ [], 30000000000)
unfolding lookup_session_ipv4 query_session_a proxygate.Prelude.bytes_eq proxygate.Text.lower
    append_a_records least_ttl
second_server = refl

lookup_session_ipv4-IsAnswered_example :
    IsAnswered attempts ((192 ∷ 0 ∷ 2 ∷ 1 ∷ []) ∷ []) 30000000000
lookup_session_ipv4-IsAnswered_example =
    lookup_session_ipv4-IsAnswered join attempts ((192 ∷ 0 ∷ 2 ∷ 1 ∷ []) ∷ []) 30000000000
      second_server
