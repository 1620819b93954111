-- ===== src/Sdk.antt =====
-- sdk/: the messages, the base class of all components, the gateway and the guarded bus.
pub mod Messages
pub mod Component
pub mod SafeBus
