-- ===== src/Authz.antt =====
-- Authorization of API requests, internal/auth/authz: roles, principals and the protected router.
pub mod Roles
pub mod Principals
pub mod Router
pub mod Protection
pub mod Mounting
mod Tests
