-- ===== src/Booking.antt =====
-- src/modules/booking/booking.service.ts. `Seats` has the seat arithmetic, `Create`, `Confirm` and
-- `Cancel` the methods that write, `Queries` those that read; their proofs are in modules below.
pub mod Seats
pub mod Create
pub mod Confirm
pub mod Cancel
pub mod Queries
pub mod Steps
