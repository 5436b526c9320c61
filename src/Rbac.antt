-- ===== src/Rbac.antt =====
-- Access to folders by role: the permission matrix and manual folder locks (api/services/rbac).
pub mod Model
pub mod Roles
pub mod FolderTypes
pub mod PermissionEngine
pub mod Paths
pub mod Inheritance
pub mod Reconciliation
pub mod LockService
