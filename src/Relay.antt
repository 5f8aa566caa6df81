-- ===== src/Relay.antt =====
-- The Relay side of the control plane, internal/relay: sessions, leases and admission.
pub mod Flood
pub mod FloodBounds
pub mod Churn
pub mod ChurnBounds
pub mod ChurnContention
pub mod Sessions
pub mod Handshake
pub mod HandshakeLaws
pub mod Adoption
mod Tests
pub mod Payload
pub mod Acknowledge
pub mod AcknowledgeLaws
pub mod Resends
pub mod Delivery
pub mod DeliveryLaws
mod MessageTests
