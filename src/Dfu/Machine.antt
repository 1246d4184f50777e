-- ===== src/Dfu/Machine.antt =====
-- src/dfu/update_state_machine.cpp: the decisions of an update.
pub mod State
pub mod Preconditions
pub mod Waiting
pub mod Planning
pub mod Deciding
pub mod Applying
pub mod Phases
pub mod Frame
pub mod Sound
pub mod Safety
pub mod Endings
pub mod Owed
pub mod Deadlines
pub mod Ranges
pub mod Protocol
mod Tests
pub mod Outcome
