-- ===== src/Grievance/Visible.antt =====
-- Who sees and who answers a ticket (src/modules/grievance/grievance.service.ts).
use bus_booking_backend.Prelude.{ℕ, String, ◌≡◌, ◌≢◌, ◌⊎◌, some, [], ◌∷◌, ◌++◌, arith, eq_iff}
use bus_booking_backend.Errors.{not_found}
use bus_booking_backend.Store.{ObjectId, err}
use bus_booking_backend.Documents.{Grievance, GrievanceStatus}
use bus_booking_backend.World.{Env, State}
use bus_booking_backend.Grievance.{get_grievance}

module _ (env : Env) where
  -- A passenger who asks for another one's ticket gets the same error as for a missing one, and
  -- nothing changes.
  pub get_grievance_hides :
      (id u : String) (i : ObjectId) (g : Grievance) (s : State env)
      → env.cast_id id ≡ some i
      → env.grievances.find_by_id s.grievances i ≡ some g
      → g.user_id ≢ u
      → get_grievance env id u "user" s ≡ (err (not_found "Grievance"), s)
  unfolding get_grievance
  get_grievance_hides id u i g s cast found other = ground (arith, eq_iff g.user_id u)

  -- What a message does to a ticket: it is added at the end, an open ticket is in progress if staff
  -- sent it, and all else stays.
  pub record IsAnswered (by : ObjectId) (role message : String) (now : ℕ) (old new : Grievance)
      : Type 0 where
    pub messages :
        new.messages
        ≡ old.messages
          ++ record { sender_id = by; sender_role = role; message = message; created_at = now } ∷ []
    pub status :
        ((role ≢ "user")
          × (old.status ≡ GrievanceStatus.opened)
          × (new.status ≡ GrievanceStatus.in_progress))
        ⊎ (((role ≡ "user") ⊎ (old.status ≢ GrievanceStatus.opened)) × (new.status ≡ old.status))
    pub others : new ≡ record old { messages = new.messages; status = new.status }
