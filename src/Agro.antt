-- ===== src/Agro.antt =====
-- systems/agrodron/src/: the drone. Its components know one another only through the security
-- monitor, which stands in `Monitor`.
pub mod Place
pub mod Emergensy
pub mod Sprayer
pub mod Motors
pub mod Missions
pub mod Autopilot
pub mod ProxyReply
pub mod Limiter
pub mod Telemetry
pub mod Gateway
pub mod Emergency
