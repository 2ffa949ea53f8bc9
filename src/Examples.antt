-- ===== src/Examples.antt =====
-- Concrete runs of the model: the states that they start from are in `Data`.
mod Data
mod Sockets
mod Datagrams
mod Sessions
mod Connections
mod DnsQueries
mod Lifecycles
mod NodeLists
mod Refreshes
mod Settings
mod SpeedTests
mod WebSessions
