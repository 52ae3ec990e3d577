-- ===== src/Network.antt =====
-- companion/src/network.rs: the network hub.
pub mod RateLimit
pub mod Transfer
