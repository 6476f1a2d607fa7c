-- ===== src/Examples.antt =====
-- The theorems at concrete inputs, and runs of the modelled code.
pub mod Cents
mod Ratios
pub mod Breakers
pub mod Components
pub mod Requests
pub mod Stations
pub mod Traffic
pub mod Gossip
pub mod Consensus
pub mod Probes
pub mod Drills
pub mod Metering
pub mod Balancing
pub mod Fallbacks
pub mod Runaways
pub mod Loads
