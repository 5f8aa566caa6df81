-- ===== src/Listing.antt =====
-- Lists that the API serves in pages, internal/api/listing.
pub mod Query
pub mod Accepted
pub mod Pages
pub mod Walk
mod Tests
