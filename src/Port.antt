-- ===== src/Port.antt =====
-- systems/drone_port/: the drone port. It keeps the landing places and the drones in Redis, gives
-- places to drones that land, and lets drones take off.
pub mod Redis
pub mod Place
pub mod Store
pub mod Manager
pub mod Registry
pub mod Drones
pub mod Orchestrator
pub mod Charging
pub mod Tables
