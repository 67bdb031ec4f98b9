-- ===== src/Service.antt =====
-- backend/app: the storage, the credentials and the tenants of the service
pub mod Names
pub mod Storage
pub mod Credentials
pub mod Tenants
