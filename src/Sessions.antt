-- ===== src/Sessions.antt =====
-- Who is connected and for how long: the MCP clients that the API keeps, the sessions of the HTTP
-- runtime, and the work leases that keep the installer alive.
pub mod Clients
pub mod Idle
pub mod Lease
