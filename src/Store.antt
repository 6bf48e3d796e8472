-- ===== src/Store.antt =====
-- The database as the repositories see it: a list of rows for each table, and use cases that run in
-- a transaction. The rows are the entities that the mappers of
-- src/infrastructure/persistence/mappers make of them. The tenant of the context that
-- src/application/shared/tenant_context.py keeps is an argument.
pub mod Tables
pub mod Rows
pub mod Ensures
pub mod Appointments
pub mod Services
pub mod Clients
pub mod Professionals
pub mod Hours
pub mod Plans
pub mod Memberships
pub mod Conversations
pub mod Tenants
pub mod Users
pub mod Businesses
pub mod Foreign
