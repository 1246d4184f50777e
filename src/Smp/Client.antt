-- ===== src/Smp/Client.antt =====
-- src/smp/client.cpp and smp_client.hpp: requests, their responses, deadlines and callbacks.
pub mod State
pub mod Retired
pub mod Table
pub mod Lifecycle
pub mod Driving
pub mod Cases
pub mod Slots
pub mod Progress
pub mod Steps
pub mod Requests
pub mod Accounts
pub mod Reception
pub mod History
pub mod Allocation
pub mod Matching
pub mod Disconnecting
pub mod Batches
pub mod Expiry
pub mod Settling
mod Tests
