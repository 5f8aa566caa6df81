-- ===== src/Alerts.antt =====
-- internal/store/postgres/alert_event.go and incident.go: alerts that webhooks deliver, the
-- incidents they are grouped into, and the merging of incidents.
pub mod Tables
pub mod Grouping
pub mod Deliveries
pub mod Merging
pub mod Accepted
pub mod Queue
pub mod Resolutions
pub mod Survivors
mod Tests
