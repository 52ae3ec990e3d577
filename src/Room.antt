-- ===== src/Room.antt =====
-- companion/src/room.rs: the room engine.
pub mod State
pub mod Keeps
pub mod Parts
pub mod Rank
pub mod Roster
pub mod Policy
pub mod Presence
pub mod Setlist
pub mod Race
pub mod Score
pub mod Verdict
pub mod Create
pub mod Seats
pub mod Commands
pub mod Membership
pub mod Outcome
pub mod Freeze
pub mod Runs
pub mod Start
pub mod Ranking
pub mod Reports
