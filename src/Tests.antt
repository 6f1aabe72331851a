-- ===== src/Tests.antt =====
-- Runs of the definitions on small inputs, and the theorems applied to them.
mod Fixtures
mod Queue
mod Sessions
mod Clients
mod Components
mod Sasl
mod Addresses
mod Routes
mod Waits
mod Parsing
mod Sockets
