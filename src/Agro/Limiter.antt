-- ===== src/Agro/Limiter.antt =====
-- systems/agrodron/src/limiter/src/limiter.py: watches the position of the drone and raises the
-- alarm when it is too far off.
pub mod State
pub mod Judge
pub mod Measured
pub mod Table
pub mod Steps
pub mod Alarm
pub mod LastStep
