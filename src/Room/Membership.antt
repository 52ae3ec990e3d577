-- ===== src/Room/Membership.antt =====
-- The roster of the room over any history of operations.
mod Frame
mod Changes
mod Joining
mod Invariant
pub use Invariant.*
