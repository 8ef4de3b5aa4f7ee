-- ===== src/Tests.antt =====
-- Tests, and the theorems at concrete inputs.
pub mod Awaiting
pub mod Data
pub mod Dialing
pub mod Scheduling
pub mod Listing
pub mod Locking
pub mod Meeting
pub mod Channels
pub mod Polling
pub mod Printing
pub mod Sleeping
pub mod Wrapping
pub mod Addresses
pub mod Running
pub mod Stacking
