-- ===== src/Socks5/Associate.antt =====
-- The event loop of `handleUDPAssociate` of internal/socks5/server.go.
pub mod Delivery
use proxygate.Prelude.{
  ℕ, zero, suc, Bool, true, false, List, [], ◌∷◌, ◌++◌, Option, none, some, Bytes, length, ltb,
  Result, ok, err, if◌then◌else◌,
}
use proxygate.Socks5.Reply.{Addr, or_empty}
use proxygate.Socks5.Udp.{UdpError, parse_udp_request, marshal_udp_response}

-- What the loop keeps: the client's datagram address, the queue of requests, oldest first, and what
-- was sent to the client, oldest first.
pub record Association : Type 0 where
  pub client_address : Option Addr
  pub requests : List Bytes
  pub sent : List (Bytes × Addr)

-- A datagram from the client's side or from the network, a request taken by a worker, a failed
-- read, or one of the ways in which the loop returns.
pub data Event : Type 0 where
  local_packet upstream_packet : Addr → Bytes → Event
  taken read_failed context_done control_closed idle_fires : Event

pub data Status : Type 0 where
  running : Association → Status
  returned : Bool → Association → Status

abbrev pub queue_capacity : ℕ
queue_capacity = 64

-- `select { case requests <- packet.data: default: }`
abbrev enqueue : Bytes → List Bytes → List Bytes
enqueue request queue = if ltb (length queue) queue_capacity then queue ++ request ∷ [] else queue

-- `relay.WriteTo(response, clientUDPAddress)`; a write that fails is only logged, and loses the
-- datagram.
deliver : Bytes → Option Addr → Association → Association
deliver response none s = s
deliver response (some address) s = record s { sent = s.sent ++ (response, address) ∷ [] }

deliver_result : Result UdpError Bytes → Association → Association
unfolding deliver
deliver_result (err e) s = s
deliver_result (ok response) s = deliver response s.client_address s

abbrev rest_of : List Bytes → List Bytes
rest_of [] = []
rest_of (q ∷ qs) = qs

step : Event → Association → Status
unfolding deliver_result
step (local_packet from payload) s =
    running (record s { client_address = some from; requests = enqueue payload s.requests })
step (upstream_packet from payload) s =
    running (deliver_result (marshal_udp_response from payload) s)
step taken s = running (record s { requests = rest_of s.requests })
step read_failed s = returned true s
step context_done s = returned false s
step control_closed s = returned false s
step idle_fires s = returned false s

advance : Event → Status → Status
unfolding step
advance e (running s) = step e s
advance e (returned failed s) = returned failed s

pub associate : List Event → Status → Status
unfolding advance
associate [] s = s
associate (e ∷ es) s = associate es (advance e s)

abbrev pub begun : Association
begun = record { client_address = none; requests = []; sent = [] }
