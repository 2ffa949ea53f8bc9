-- ===== src/Vpn/SpeedTest.antt =====
-- `TestNode` of internal/vpn/manager.go.
pub mod Outcome
use proxygate.Prelude.{
  ℕ, String, Bool, true, false, ◌||◌, not, List, [], ◌∷◌, Option, none, some, Result, ok, err,
  concat, ◌==◌, leb, if◌then◌else◌,
}
use proxygate.Prelude.Int.{ℤ}
use proxygate.Model.{Node}
use proxygate.Store.{Database, StoreError, node, save_measurement, save_measurement_failure}
use proxygate.Vpn.State.{Error, text, World, close_session, database_after}
use proxygate.Vpn.Sections.{error_text}
use proxygate.Vpn.Connect.{Outside, connect_node}

-- How the download goes: no request, no response, another status than 200, or a body of some bytes,
-- whose copy may end with an error, which may be due to the timeout, and the time it took.
pub data Download : Type 0 where
  no_request : Error → Download
  no_response : Error → Download
  bad_status : String → Download
  body : ℕ → Option Error → Bool → ℕ → Download

-- `rate` is the number of bits per second for a number of bytes and a time, in Go's floating point.
pub record Trial : Type 0 where
  pub outside : Outside
  pub priority : List String
  pub download : ℕ → Download
  pub rate : ℕ → ℕ → ℤ
  pub is_cancelled : Bool
  pub store_error : StoreError → Error

-- `io.LimitReader(response.Body, 10_000_001)`
abbrev limited : ℕ → ℕ
limited n = if leb n 10000001 then n else 10000001

timed_body : ℕ → ℕ → Bool → Result Error (ℕ × ℕ)
timed_body bytes elapsed timed_out =
    if elapsed == 0 || bytes == 0
    then err (
        text (
          if timed_out
          then "speed test timed out before receiving data"
          else "speed test returned no data"))
    else ok (bytes, elapsed)

copied : ℕ → ℕ → Option Error → Bool → Result Error (ℕ × ℕ)
unfolding timed_body
copied bytes elapsed none deadline = timed_body bytes elapsed false
copied bytes elapsed (some e) true = timed_body bytes elapsed true
copied bytes elapsed (some e) false = err e

-- The bytes that were read, and the time.
measured : Download → Result Error (ℕ × ℕ)
unfolding copied
measured (no_request e) = err e
measured (no_response e) = err (text (concat ("speed test download: " ∷ error_text e ∷ [])))
measured (bad_status s) = err (text (concat ("speed test download returned " ∷ s ∷ [])))
measured (body bytes copy_error deadline elapsed) =
    copied (limited bytes) elapsed copy_error deadline

saved : Trial → ℤ → Result StoreError Database → World → Result Error ℤ × World
saved t bits (ok db) w = (ok bits, record w { database = db })
saved t bits (err e) w = (err (t.store_error e), w)

record_rate : Trial → String → Result Error (ℕ × ℕ) → World → Result Error ℤ × World
unfolding saved
record_rate t ip (err e) w = (err e, w)
record_rate t ip (ok (bytes, elapsed)) w =
    let bits = t.rate bytes elapsed in
    saved t bits (save_measurement w.database t.outside.now ip bits) w

-- `defer session.Close()`
closing : ℕ → Result Error ℤ × World → Result Error ℤ × World
closing session (r, w) = (r, close_session (some session) w)

with_session : Trial → String → Result Error (ℕ × String) × World → Result Error ℤ × World
unfolding record_rate closing measured
with_session t ip (err e, w) = (err e, w)
with_session t ip (ok (session, protocol), w) =
    closing session (record_rate t ip (measured (t.download session)) w)

with_node : Trial → String → Result StoreError Node → World → Result Error ℤ × World
unfolding with_session
with_node t ip (err e) w = (err (t.store_error e), w)
with_node t ip (ok n) w = with_session t ip (connect_node t.outside t.priority n false "" w)

-- The deferred record of a failure; the error of the record itself joins the result.
failure_saved : Error → Trial → Result StoreError Database → World → Result Error ℤ × World
failure_saved e t (ok db) w = (err e, record w { database = db })
failure_saved e t (err x) w = (
  err (
      text (
        concat
          (error_text e ∷ "\n" ∷ "save speed test failure: " ∷ error_text (t.store_error x) ∷ []))),
  w,
)

record_failure : Trial → String → Result Error ℤ × World → Result Error ℤ × World
unfolding failure_saved
record_failure t ip (ok bits, w) = (ok bits, w)
record_failure t ip (err e, w) =
    if t.is_cancelled
    then (err e, w)
    else failure_saved e t (save_measurement_failure w.database t.outside.now ip) w

pub test_node : Trial → String → World → Result Error ℤ × World
unfolding record_failure with_node
test_node t ip w = record_failure t ip (with_node t ip (node w.database ip) w)
