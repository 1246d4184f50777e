-- ===== src/Dfu.antt =====
-- src/dfu/ and the group types it decides on: the order of the commands of a firmware update.
pub mod Plan
pub mod SlotTable
pub mod Machine
