-- ===== src/Room/Seats.antt =====
-- The roster as the operations on it see it: who is there, in which role, admitted or not.
mod Views
mod Limits
pub use Views.*
pub use Limits.*
