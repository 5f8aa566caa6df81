-- ===== src/Changes.antt =====
-- Changes of inventory objects: the values of internal/changes, and their reduction from the
-- protocol in internal/relay/inventory.go.
pub mod Values
pub mod Inventory
pub mod Recordable
mod Tests
