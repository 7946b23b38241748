-- ===== src/Tests/Tickets.antt =====
-- Tickets and pages at concrete inputs.
use bus_booking_backend.Prelude.{String, ◌≡◌, true, none, [], ◌∷◌, ◌≤◌, ◌*◌, ltb, false, arith}
use bus_booking_backend.Store.{Stored}
use bus_booking_backend.Documents.{Grievance, GrievanceStatus, GrievanceCategory}
use bus_booking_backend.World.{State, grievances_of}
use bus_booking_backend.Pages.{page_of}
use bus_booking_backend.Pages.Bounds.{page_of-bounds}
use bus_booking_backend.Grievance.{add_message, add_reply}
use bus_booking_backend.Tests.Memory.{visible}
use bus_booking_backend.Tests.Sample.{env, start, alice, bob}

abbrev ticket : Grievance
ticket = record {
  user_id = alice;
  tenant_id = none;
  booking_id = none;
  category = GrievanceCategory.other;
  description = "Where is it?";
  status = GrievanceStatus.opened;
  assigned_to = none;
  messages = [];
  created_at = 0;
}

abbrev with_tickets : State env
with_tickets = record start {
  grievances =
      record { id = "g"; doc = ticket }
      ∷ record { id = "h"; doc = ticket }
      ∷ record { id = "i"; doc = ticket }
      ∷ [];
}

abbrev operator_role : String
operator_role = "operator"

abbrev after_reply : State env
after_reply = (add_message env "g" bob "operator" "Soon" with_tickets).1

abbrev replied : Stored Grievance
replied = record { id = "g"; doc = add_reply bob "operator" "Soon" 0 ticket }

page_of-bounds_example :
    ((page_of (grievances_of env) with_tickets (λ g. true) 1 2).total
      ≤ (page_of (grievances_of env) with_tickets (λ g. true) 1 2).total_pages * 2)
    × ((page_of (grievances_of env) with_tickets (λ g. true) 1 2).total_pages ≤ 2)
    × ((page_of (grievances_of env) with_tickets (λ g. true) 1 2).has_next
        ≡ ltb 1 (page_of (grievances_of env) with_tickets (λ g. true) 1 2).total_pages)
    × ((page_of (grievances_of env) with_tickets (λ g. true) 1 2).has_prev ≡ false)
unfolding page_of visible
page_of-bounds_example =
    page_of-bounds (grievances_of env) with_tickets (λ g. true) 1 2 2 (omega arith) (omega arith)
