-- ===== src/Examples.antt =====
-- The theorems at concrete inputs, over small instances of what is outside the source.
pub mod Chain
pub mod Server
mod Proofs
mod Clients
mod Services
mod Tasks
mod Outage
mod Endpoints
mod Clock
mod Workers
mod Rounds
mod Whole
mod Starts
mod Backends
mod Events
mod Genesis
