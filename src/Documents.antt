-- ===== src/Documents.antt =====
-- The documents that the services store: the interfaces of the files `*.model.ts` under
-- src/modules. Dates are milliseconds, amounts are whole units of the currency.
mod Buses
mod Bookings
mod Payments
mod Users
mod Grievances
mod Verifications
mod Notices
pub use Buses.*
pub use Bookings.*
pub use Payments.*
pub use Users.*
pub use Grievances.*
pub use Verifications.*
pub use Notices.*
