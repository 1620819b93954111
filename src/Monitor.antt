-- ===== src/Monitor.antt =====
-- systems/agrodron/src/security_monitor/src/security_monitor.py: the component that every message
-- between the parts of a drone passes, and that forwards it only where a policy allows it.
pub mod Policy
pub mod Parse
pub mod State
pub mod Proxy
pub mod Handlers
pub mod Table
