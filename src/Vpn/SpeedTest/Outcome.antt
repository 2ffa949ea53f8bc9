-- ===== src/Vpn/SpeedTest/Outcome.antt =====
-- What a speed test leaves behind.
use proxygate.Prelude.{
  ℕ, ◌≤◌, ◌<◌, String, Bool, true, false, Option, none, Result, ok, err, ◌≡◌, ◌⊎◌, contains, leb,
  if◌then◌else◌,
}
use proxygate.Prelude.Int.{ℤ}
use proxygate.Model.{Node}
use proxygate.Store.{Database, node, save_measurement, save_measurement_failure}
use proxygate.Vpn.State.{Error, World, database_after}
use proxygate.Vpn.Connect.{connect_node}
use proxygate.Vpn.SpeedTest.{Trial, Download, body}

-- The database after a test with that result.
abbrev pub database_for : Trial → String → Result Error ℤ → Database → Database
database_for t ip (ok bits) db = database_after db (save_measurement db t.outside.now ip bits)
database_for t ip (err e) db =
    if t.is_cancelled then db else database_after db (save_measurement_failure db t.outside.now ip)

-- The rate was measured: a session with the node of that IP was opened, without the health check, and
-- the download through it answered 200 with a body. The copy of the body ended without an error or
-- because of the timeout, some bytes came and some time passed, and the rate is that of the bytes read,
-- 10000001 at most, in that time.
pub record IsMeasured (t : Trial) (ip : String) (w : World) (bits : ℤ) : Type 0 where
  pub n : Node
  pub found : node w.database ip ≡ ok n
  pub session : ℕ
  pub protocol : String
  pub opened : (connect_node t.outside t.priority n false "" w).0 ≡ ok (session, protocol)
  pub bytes : ℕ
  pub copy_error : Option Error
  pub deadline : Bool
  pub elapsed : ℕ
  pub downloaded : t.download session ≡ body bytes copy_error deadline elapsed
  pub copied_well : (copy_error ≡ none) ⊎ (deadline ≡ true)
  pub some_bytes : 1 ≤ bytes
  pub some_time : 1 ≤ elapsed
  pub rate : bits ≡ t.rate (if leb bytes 10000001 then bytes else 10000001) elapsed

-- The manager is left alone, every session of the test is closed, and the result is recorded.
pub record IsRecorded (t : Trial) (ip : String) (w : World) (r : Result Error ℤ) (v : World)
    : Type 0 where
  pub same_manager : v.manager ≡ w.manager
  pub closes : (i : ℕ) → w.next_session ≤ i → i < v.next_session → contains i v.closed ≡ true
  pub recorded : v.database ≡ database_for t ip r w.database
  pub measured_well : (bits : ℤ) → r ≡ ok bits → IsMeasured t ip w bits

-- Before a failure is recorded.
record IsTried (t : Trial) (ip : String) (w : World) (r : Result Error ℤ) (v : World) : Type 0 where
  pub same_manager : v.manager ≡ w.manager
  pub closes : (i : ℕ) → w.next_session ≤ i → i < v.next_session → contains i v.closed ≡ true
  pub success :
      (bits : ℤ)
      → r ≡ ok bits
      → v.database ≡ database_after w.database (save_measurement w.database t.outside.now ip bits)
  pub failure : (e : Error) → r ≡ err e → v.database ≡ w.database
  pub measured_well : (bits : ℤ) → r ≡ ok bits → IsMeasured t ip w bits

-- A download that gives a number of bytes and a time.
record IsBody (d : Download) (read elapsed : ℕ) : Type 0 where
  bytes : ℕ
  copy_error : Option Error
  deadline : Bool
  downloaded : d ≡ body bytes copy_error deadline elapsed
  copied_well : (copy_error ≡ none) ⊎ (deadline ≡ true)
  some_bytes : 1 ≤ bytes
  some_time : 1 ≤ elapsed
  limit : read ≡ (if leb bytes 10000001 then bytes else 10000001)
