-- ===== src/Renderer.antt =====
-- companion/src/renderer.rs: the manager of the renderers that the host shows on stream.
pub mod State
pub mod Buffers
pub mod Slots
pub mod Stop
pub mod Publish
pub mod Epoch
pub mod Align
pub mod Calls
pub mod Bounds
pub mod Frame
pub mod Buffered
pub mod Configured
pub mod Featured
pub mod Delay
pub mod Taps
pub mod Pages
pub mod Scores
