-- ===== src/Socks5/Associate/Delivery.antt =====
-- What the client of a UDP association is sent.
use proxygate.Prelude.{
  ◌≤◌, List, [], ◌∷◌, ◌++◌, Option, none, some, Bytes, length, ltb, Result, ok, err, All, ◌≡◌, refl,
  sym, subst, ap, ◌∙◌, arith, Bool-cases, length-append, append_assoc, append-nil,
}
use proxygate.Socks5.Reply.{Addr}
use proxygate.Socks5.Udp.{UdpError, marshal_udp_response}
use proxygate.Socks5.Associate.{
  Association, Event, local_packet, upstream_packet, taken, read_failed, context_done,
  control_closed, idle_fires, Status, running, returned, queue_capacity, rest_of, enqueue, deliver,
  deliver_result, step, advance, associate, begun,
}

-- Where the client's last datagram came from.
abbrev pub last_local : Option Addr → List Event → Option Addr
last_local a [] = a
last_local a (local_packet from payload ∷ es) = last_local (some from) es
last_local a (e ∷ es) = last_local a es

last_local-++ :
    (a : Option Addr) (es fs : List Event)
    → last_local a (es ++ fs) ≡ last_local (last_local a es) fs
last_local-++ a [] fs = refl
last_local-++ a (local_packet from payload ∷ es) fs = last_local-++ (some from) es fs
last_local-++ a (upstream_packet from payload ∷ es) fs = last_local-++ a es fs
last_local-++ a (taken ∷ es) fs = last_local-++ a es fs
last_local-++ a (read_failed ∷ es) fs = last_local-++ a es fs
last_local-++ a (context_done ∷ es) fs = last_local-++ a es fs
last_local-++ a (control_closed ∷ es) fs = last_local-++ a es fs
last_local-++ a (idle_fires ∷ es) fs = last_local-++ a es fs

-- A datagram of the network that arrived when the client's last datagram had come from `address`.
pub record IsReply (es : List Event) (d : Bytes × Addr) : Type 0 where
  pub before : List Event
  pub from : Addr
  pub payload : Bytes
  pub after : List Event
  pub arrived : es ≡ before ++ upstream_packet from payload ∷ after
  pub encoded : marshal_udp_response from payload ≡ ok d.0
  pub addressed : last_local none before ≡ some d.1

IsReply-later : (es fs : List Event) (d : Bytes × Addr) → IsReply es d → IsReply (es ++ fs) d
IsReply-later es fs d r = record {
  before = r.before;
  from = r.from;
  payload = r.payload;
  after = r.after ++ fs;
  arrived = ap (λ xs. xs ++ fs) r.arrived ∙ append_assoc r.before _ fs;
  encoded = r.encoded;
  addressed = r.addressed;
}

pub record IsServed (es : List Event) (s : Association) : Type 0 where
  pub latest : s.client_address ≡ last_local none es
  pub bounded : length s.requests ≤ 64
  pub replies : All (IsReply es) s.sent

All-later :
    (es fs : List Event) (ds : List (Bytes × Addr))
    → All (IsReply es) ds
    → All (IsReply (es ++ fs)) ds
All-later es fs [] h = tt
All-later es fs (d ∷ ds) h = (IsReply-later es fs d h.0, All-later es fs ds h.1)

All-snoc :
    (es : List Event) (ds : List (Bytes × Addr)) (d : Bytes × Addr)
    → All (IsReply es) ds
    → IsReply es d
    → All (IsReply es) (ds ++ d ∷ [])
All-snoc es [] d h k = (k, tt)
All-snoc es (x ∷ ds) d h k = (h.0, All-snoc es ds d h.1 k)

enqueue-bounded :
    (request : Bytes) (queue : List Bytes) → length queue ≤ 64 → length (enqueue request queue) ≤ 64
enqueue-bounded request queue h =
    ground (arith, length-append queue (request ∷ []), Bool-cases (ltb (length queue) 64))

AllServed : List Event → Status → Type 0
AllServed es (running s) = IsServed es s
AllServed es (returned failed s) = (length s.requests ≤ 64) × All (IsReply es) s.sent

deliver-IsServed :
    (es : List Event) (from : Addr) (payload response : Bytes) (a : Option Addr) (s : Association)
    → marshal_udp_response from payload ≡ ok response
    → s.client_address ≡ a
    → IsServed es s
    → IsServed (es ++ upstream_packet from payload ∷ []) (deliver response a s)
unfolding deliver
deliver-IsServed es from payload response none s m e h = record {
  latest = h.latest ∙ sym (last_local-++ none es (upstream_packet from payload ∷ []));
  bounded = h.bounded;
  replies = All-later es _ s.sent h.replies;
}
deliver-IsServed es from payload response (some address) s m e h = record {
  latest = h.latest ∙ sym (last_local-++ none es (upstream_packet from payload ∷ []));
  bounded = h.bounded;
  replies =
      All-snoc _ s.sent (response, address) (All-later es _ s.sent h.replies)
        record {
          before = es;
          from = from;
          payload = payload;
          after = [];
          arrived = refl;
          encoded = m;
          addressed = sym h.latest ∙ e;
        };
}

deliver_result-IsServed :
    (es : List Event) (from : Addr) (payload : Bytes) (r : Result UdpError Bytes) (s : Association)
    → marshal_udp_response from payload ≡ r
    → IsServed es s
    → IsServed (es ++ upstream_packet from payload ∷ []) (deliver_result r s)
unfolding deliver_result
deliver_result-IsServed es from payload (err e) s m h = record {
  latest = h.latest ∙ sym (last_local-++ none es (upstream_packet from payload ∷ []));
  bounded = h.bounded;
  replies = All-later es _ s.sent h.replies;
}
deliver_result-IsServed es from payload (ok response) s m h =
    deliver-IsServed es from payload response s.client_address s m refl h

rest_of-bounded : (queue : List Bytes) → length queue ≤ 64 → length (rest_of queue) ≤ 64
rest_of-bounded [] h = h
rest_of-bounded (q ∷ qs) h = omega arith

step-AllServed :
    (es : List Event) (e : Event) (s : Association)
    → IsServed es s
    → AllServed (es ++ e ∷ []) (step e s)
unfolding step AllServed
step-AllServed es (local_packet from payload) s h = record {
  latest = sym (last_local-++ none es (local_packet from payload ∷ []));
  bounded = enqueue-bounded payload s.requests h.bounded;
  replies = All-later es _ s.sent h.replies;
}
step-AllServed es (upstream_packet from payload) s h =
    deliver_result-IsServed es from payload (marshal_udp_response from payload) s refl h
step-AllServed es taken s h = record {
  latest = h.latest ∙ sym (last_local-++ none es (taken ∷ []));
  bounded = rest_of-bounded s.requests h.bounded;
  replies = All-later es _ s.sent h.replies;
}
step-AllServed es read_failed s h = (h.bounded, All-later es _ s.sent h.replies)
step-AllServed es context_done s h = (h.bounded, All-later es _ s.sent h.replies)
step-AllServed es control_closed s h = (h.bounded, All-later es _ s.sent h.replies)
step-AllServed es idle_fires s h = (h.bounded, All-later es _ s.sent h.replies)

advance-AllServed :
    (es : List Event) (e : Event) (s : Status)
    → AllServed es s
    → AllServed (es ++ e ∷ []) (advance e s)
unfolding advance AllServed
advance-AllServed es e (running s) h = step-AllServed es e s h
advance-AllServed es e (returned failed s) h = (h.0, All-later es _ s.sent h.1)

associate-AllServed :
    (past es : List Event) (s : Status) → AllServed past s → AllServed (past ++ es) (associate es s)
unfolding associate
associate-AllServed past [] s h = rw (append-nil past) h
associate-AllServed past (e ∷ es) s h =
    subst (λ xs. AllServed xs (associate es (advance e s))) (append_assoc past (e ∷ []) es)
      (associate-AllServed (past ++ e ∷ []) es (advance e s) (advance-AllServed past e s h))

abbrev pub association : Status → Association
association (running s) = s
association (returned failed s) = s

AllServed-association :
    (es : List Event) (s : Status)
    → AllServed es s
    → (length (association s).requests ≤ 64) × All (IsReply es) (association s).sent
unfolding AllServed
AllServed-association es (running s) h = (h.bounded, h.replies)
AllServed-association es (returned failed s) h = h

-- Whatever arrives at a UDP association, its queue never holds more than 64 requests, and everything
-- sent to the client is a datagram of the network in the form of RFC 1928, sent to the address that
-- the client's last datagram had come from when it arrived.
pub associate-IsReply :
    (es : List Event)
    → let s = association (associate es (running begun)) in
      (length s.requests ≤ queue_capacity) × All (IsReply es) s.sent
associate-IsReply es = AllServed-association es (associate es (running begun)) (
    associate-AllServed [] es (running begun)
      (unfold AllServed in record { latest = refl; bounded = omega arith; replies = tt }))
