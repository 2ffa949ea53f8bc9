-- ===== src/Vpn.antt =====
-- internal/vpn: the connection manager.
pub mod State
pub mod Sections
pub mod Schedule
pub mod Connect
pub mod Switch
pub mod Requests
pub mod DnsCache
pub mod DnsQuery
pub mod Routing
pub mod SpeedTest
