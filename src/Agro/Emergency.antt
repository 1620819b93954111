-- ===== src/Agro/Emergency.antt =====
-- The emergency protocol, over the components that take part in it.
pub mod Protocol
pub mod Landing
pub mod Obeyed
