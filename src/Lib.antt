-- ===== src/Lib.antt =====
-- The bus booking backend: services for bookings, payments and seats on top of mongoose and Redis,
-- with their errors, events and jobs.
--
-- How the parts interact. A request reaches a service method (src/modules/*/*.service.ts), which
-- reads and writes documents through mongoose models, locks seats in Redis
-- (src/core/redis/redis.service.ts), emits domain events and adds jobs to queues. `createBooking`
-- marks seats as locked and leaves a pending booking; `initiatePayment` creates its payment;
-- `verifyPayment` saves the payment as a success and calls `confirmBooking`, which marks the seats
-- as booked; `cancelBooking` ends a booking, and `initiateRefund` records a refund of a payment.
-- A thrown error ends in the handler of src/core/errors/errorHandler.ts.
--
-- The files:
--   Errors         src/core/errors/AppError.ts and errorHandler.ts (errorHandler is error_handler)
--   Store          what is used of the packages mongoose and ioredis, as records of operations
--                  with their documented behaviour; a parameter of everything else
--   Action         an async method: a state in, a result or an error and a state out
--   Documents      the interfaces of the files *.model.ts under src/modules
--   Events         src/core/events/event.types.ts, and the job data of src/jobs/queues
--   World          the state that the services share, the environment, and the model's calls
--   Locks          lockSeats, unlockSeats, setOtp, getOtp and deleteOtp of redis.service.ts;
--                  Locks/Interleaved has lockSeats as its two commands
--   Booking        src/modules/booking/booking.service.ts: createBooking (Booking/Create),
--                  confirmBooking (Booking/Confirm), cancelBooking (Booking/Cancel), the methods
--                  that read (Booking/Queries) and the loops over seats (Booking/Seats)
--   Payment        src/modules/payment/payment.service.ts: initiatePayment, verifyPayment,
--                  initiateRefund and getPayment
--   Access         the permissions of src/core/types/index.ts and the gates of
--                  src/core/middlewares/auth.middleware.ts
--   Auth           src/modules/auth/auth.service.ts and auth.repository.ts: sendOtp, verifyOtp,
--                  logout, logoutAllDevices and createAdminUser; Auth/Login has adminLogin and
--                  operatorLogin, Auth/Refresh refreshAccessToken, and Auth/Registration
--                  completeRegistration with src/passport/jwt.strategy.ts
--   Accounts       src/modules/user/user.service.ts and src/modules/admin/admin.service.ts
--   Drivers        src/modules/driver/driver.service.ts
--   Review         src/modules/verification/verification.service.ts on drivers, and
--                  assertBookable of src/modules/driver/driver.service.ts
--   Cache          cacheSet, cacheGet, cacheDel and cacheDelPattern of redis.service.ts
--   BusService     src/modules/bus/bus.service.ts; BusService/Search has its search
--   Notices        src/modules/notification/notification.service.ts
--   Plans          src/modules/plan/plan.service.ts
--   Sockets        src/socket/socket.gateway.ts
--   Requests       src/core/middlewares/tenant.middleware.ts and src/core/utils/request.util.ts
--   Lifecycle      the calls of the booking and payment services as steps of the state, in any
--                  order; Booking/Steps and Payment/Steps say what may happen to one document
--   Pages          PaginatedResult of src/core/types/index.ts and the block that builds it
--   Grievance      src/modules/grievance/grievance.service.ts
--   Tests          an in-memory database and Redis that meet the laws of Store, and runs of the
--                  methods on a small world
--
-- Conventions. An identifier is the canonical text of an ObjectId. A date is a number of
-- milliseconds. An amount is a natural number, where the source has a JavaScript number. A method
-- is a function from the state to its result and the next state, so that one call runs without
-- another in between; `createBooking` and the other methods are split where the source first
-- writes. Booking/Create/Race runs two calls of `createBooking` with both checks first, and
-- Locks/Interleaved runs two calls of `lockSeats` one Redis command at a time. What was written
-- before a throw stays written. The cast of a text to an ObjectId, the
-- parsing of a date, the generated booking references, the settings and MongoDB's update of an
-- array element that does not exist are fields of the environment.
--
-- Not modelled: the workers, the routes, the configuration and the generated interface description,
-- which are input and output through packages; the sessions and counters in Redis, which are single
-- calls of a package; and the services that the list of files above does not name. Loops are
-- structural recursion; the one definition on fuel
-- prints a number, which has at most as many digits as its value says.
mod Prelude
pub mod Errors
pub mod Store
pub mod Action
pub mod Documents
pub mod Events
pub mod World
pub mod Locks
pub mod Cache
pub mod BusService
pub mod Access
pub mod Auth
pub mod Booking
pub mod Grievance
pub mod Pages
pub mod Payment
pub mod Lifecycle
pub mod Review
pub mod Drivers
pub mod Notices
pub mod Plans
pub mod Accounts
pub mod Sockets
pub mod Requests
mod Tests
