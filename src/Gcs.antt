-- ===== src/Gcs.antt =====
-- systems/gcs/: the ground control station: its stores, its orchestrator and its drone manager.
pub mod Redis
pub mod Missions
pub mod Drones
pub mod Station
pub mod Route
pub mod Planner
pub mod Converter
pub mod Orchestrator
pub mod Manager
pub mod Telemetry
