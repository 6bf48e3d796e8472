-- ===== src/Examples.antt =====
-- Tests of the model, and each theorem applied to concrete inputs.
mod Data
mod Booking
mod Entities
mod Memberships
mod Enrollment
mod Onboarding
mod Sessions
mod Campaigns
mod Inbound
mod Dates
mod Hours
