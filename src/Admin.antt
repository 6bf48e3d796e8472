-- ===== src/Admin.antt =====
-- The use cases by which a tenant keeps its businesses, services and professionals:
-- src/application/business, src/application/service and src/application/professional.
pub mod Paging
pub mod Businesses
pub mod Services
pub mod Professionals
mod Kept
pub mod Isolated
