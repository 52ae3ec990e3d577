-- ===== src/Host.antt =====
-- companion/src/app_state.rs: the host's side of the orchestration. Messages of peers and the host's own
-- operations act on the room, the renderers and the storage.
pub mod Message
pub mod State
pub mod Chart
pub mod Publish
pub mod Telemetry
pub mod Runs
pub mod Control
pub mod Operations
pub mod Events
pub mod History
pub mod Opening
pub mod Session
pub mod Refines
pub mod Refinement
pub mod Sound
pub mod Promises
pub mod Authority
