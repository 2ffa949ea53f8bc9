-- ===== src/Lib.antt =====
-- ProxyGate: a SOCKS5 proxy whose traffic goes through one VPN session at a time, with the session
-- chosen among public VPN Gate nodes, by hand or by rank.
--
-- The parts and their files. Paths of the program are from the root of the repository.
--
-- - Prelude: Boolean tests, lists, byte strings, results and integers, shared by all. Net: what the
--   SOCKS5 server uses of Go's `net` and `strconv`. Text: what the other parts use of Go's `strings`
--   and `strconv`, on texts as lists of code points.
-- - Config (internal/config): the settings, `Validate` and its error messages; Validity is the
--   independent description of valid settings, Steps, Loops and Acceptance compare the two.
--   Config.Store is `Save` and `load`, on a disk that holds the file and its temporary sibling, with
--   one answer of the operating system for each call.
-- - Socks5 (internal/socks5): the proxy's side towards its clients. Conn is a client connection, a
--   stream of bytes to read and one that was written; a handler is a chain of reads and writes that
--   may stop with an error. Negotiate, Request and Reply are `negotiate`, `authenticate`,
--   `readRequest` and `writeReply`; Server is `handle` and what it calls up to the relaying; Udp is
--   the datagram codec, Associate the event loop of `handleUDPAssociate`, Forward is
--   `forwardUDPRequest`, and Relay the event loop of `relayTCP` in relay.go. The loops take a list
--   of events, in the order in which their `select` meets them.
-- - Model (internal/model/node.go) and Store (internal/store/store.go): the records of a node and
--   the database's two tables, with one function per statement. `available` is false while the
--   database answers with an error.
-- - Vpn (internal/vpn): State is the `Manager` struct, with the database, the sessions opened and
--   closed, and the contexts cancelled; Sections has one function for each critical section under
--   `m.mu`; Schedule runs them in any order, as the goroutines interleave them. Connect is
--   `connectNode` and `activate`, Switch is `switchAutomatic`, `failover` and `Start`, Requests are
--   the calls that start background tasks, and the tasks. Routing has the calls by which the other
--   parts send traffic and ask for the status, SpeedTest is `TestNode`, DnsCache is dns_cache.go, DnsQuery is dns.go.
-- - VpnGate (internal/vpngate): `Fetch` and `ParseCSV` of client.go, with Profile for what an OpenVPN
--   profile tells; Rows, Columns and Fetched are about the nodes that come out. Refresher is
--   refresher.go, with `Refresh` cut in two at `Fetch`, during which the lock is held.
-- - Web (internal/server): the API routes of setup.go with their handlers, behind the check of the
--   session, which is Session (auth.go). Gate, Page and Saving are about the routes, the pages of
--   nodes and the saving of settings.
-- - SpeedQueue (internal/service/speedtest): the queue of speed tests, its jobs and its worker.
-- - Services (internal/service): what a background service reports, and how it is started, stopped and
--   restarted.
-- - Examples: concrete states and runs.
--
-- How they interact. The SOCKS5 server calls the manager to dial and to resolve: a field of
-- `Services` and of `Route` in the server's model. The manager reads ranked nodes from the store and
-- writes failures and the selection back, on the same `Database`. The refresher replaces the nodes in
-- it with those that `Fetch` answers with. The handlers of the web interface call the operations of
-- the manager, the refresher, the queue of speed tests and the store of settings.
--
-- Choices. A session and a context are numbers, for the identity of a pointer. The counters
-- `generation` and `connectAttempt` wrap at 2 ^ 64. What a section calls after it has released the
-- lock, on values that only it holds (closing the old session, cancelling a context), is part of
-- the section's function; the calls of `SetMetadata` that `install` makes after it are a function and
-- turns of their own. In Connect and Switch a function of the world stands for everything that
-- the other goroutines do while a connection is made. Drivers, probes, `net.ParseIP`, sockets and
-- resolvers are fields of `Outside`, `Services` and `Route`. All loops are structural recursions over
-- their lists, so no fuel is used but the twenty digits of `itoa`, the hexadecimal digits of a 16-bit
-- group, and one more than the number itself in `format_int`, which cover every number that is printed.
-- The map of nodes in `ParseCSV` is a list with one node for an IP; the order in which Go walks it is a
-- function that is only known to keep what stands at each IP.
--
-- Not modelled: logging, deadlines other than as failures, the JSON and SQL text of values, the VPN
-- drivers, the HTTP library itself (health check, download of the speed test, requests of the VPN Gate
-- client, framework of the web server), the JavaScript engine of the filter, and the command line.
pub mod Prelude
pub mod Net
pub mod Text
pub mod Config
pub mod Socks5
pub mod Model
pub mod Store
pub mod Vpn
pub mod VpnGate
pub mod SpeedQueue
pub mod Services
pub mod Web
pub mod Examples
