-- ===== src/Enrollment.antt =====
-- src/application/membership: the use cases that sell, change and look up memberships.
mod Grant
mod Manage
mod Offer
pub mod Listing
pub mod Consult
pub mod Single
pub mod OneLive
pub mod LeapDay
unfoldable pub use Grant.*
unfoldable pub use Manage.*
unfoldable pub use Offer.*
