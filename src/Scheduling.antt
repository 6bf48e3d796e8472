-- ===== src/Scheduling.antt =====
-- src/application/appointment: the use cases that book, move and close appointments.
mod Book
mod Move
mod Close
pub mod Consult
pub mod Occupancy
pub mod Admission
pub mod Sound
pub mod SoundBook
pub mod Again
pub mod SoundMove
pub mod NoOverbooking
unfoldable pub use Book.*
unfoldable pub use Move.*
unfoldable pub use Close.*
