-- ===== src/Events.antt =====
-- The events of src/core/events/event.types.ts with their payloads, and the jobs of
-- src/jobs/queues. An emitted event or an added job is appended to a list of the state.
use bus_booking_backend.Prelude.{ℕ, String, Option, List}

pub data DomainEvent : Type 0 where
  user_registered user_logged_in : (user_id phone : String) → DomainEvent
  user_logged_out : (user_id : String) → DomainEvent
  otp_requested : (phone otp : String) → DomainEvent
  otp_verified : (phone user_id : String) → DomainEvent
  booking_created :
      (booking_id user_id bus_id : String) (total_fare : ℕ) (tenant_id : Option String)
      → DomainEvent
  booking_confirmed : (booking_id user_id payment_id : String) → DomainEvent
  booking_cancelled : (booking_id user_id : String) (reason : Option String) → DomainEvent
  seat_locked : (bus_id : String) (seats : List String) (user_id : String) → DomainEvent
  seat_unlocked : (bus_id : String) (seats : List String) → DomainEvent
  payment_initiated payment_success : (payment_id booking_id : String) (amount : ℕ) → DomainEvent
  payment_failed : (payment_id booking_id reason : String) → DomainEvent
  refund_initiated : (payment_id booking_id : String) (amount : ℕ) → DomainEvent
  refund_success : (payment_id : String) (amount : ℕ) → DomainEvent
  bus_created : (bus_id : String) (tenant_id : Option String) → DomainEvent
  bus_updated : (bus_id : String) → DomainEvent
  bus_status_changed : (bus_id status : String) → DomainEvent
  notification_created : (notification_id target : String) → DomainEvent
  tenant_created : (tenant_id name : String) → DomainEvent
  tenant_suspended : (tenant_id : String) → DomainEvent
  -- Emitted by the driver and grievance services; the enumeration lacks them.
  driver_created : (driver_id tenant_id : String) → DomainEvent
  verification_assigned : (entity_type entity_id manager_id notify_user_id : String) → DomainEvent
  verification_decided : (entity_type entity_id decision notify_user_id : String) → DomainEvent
  grievance_created : (grievance_id user_id : String) (tenant_id : Option String) → DomainEvent
  grievance_updated : (grievance_id user_id status : String) → DomainEvent

pub data EmailType : Type 0 where
  booking_created booking_confirmed booking_cancelled payment_success payment_failed : EmailType
  otp welcome password_reset : EmailType

-- `EmailJobData`, with the fields that the services set.
pub record EmailJob : Type 0 where
  pub kind : EmailType  -- `type`
  pub user_id : String
  pub booking_id : Option String
  pub booking_ref : Option String
  pub payment_id : Option String
  pub amount : Option ℕ

pub record InvoiceJob : Type 0 where
  pub payment_id : String
  pub booking_id : String
  pub user_id : String

pub data Job : Type 0 where
  email : EmailJob → Job
  invoice : InvoiceJob → Job
