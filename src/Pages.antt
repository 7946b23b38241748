-- ===== src/Pages.antt =====
-- The pages of a list: `PaginatedResult` of src/core/types/index.ts, and the block that the lists
-- of the booking, grievance and driver services share.
pub mod Bounds
use bus_booking_backend.Prelude.{ℕ, ◌+◌, ◌-◌, ◌*◌, ◌/◌, Bool, true, false, List, ltb}
use bus_booking_backend.Store.{Stored, ok}
use bus_booking_backend.Action.{Action}
use bus_booking_backend.World.{Table}

pub record Page (D : Type 0) : Type 0 where
  pub data_of : List (Stored D)  -- `data`
  pub total : ℕ
  pub page : ℕ
  pub limit : ℕ
  pub total_pages : ℕ
  pub has_next : Bool
  pub has_prev : Bool

-- `Math.ceil(total / limit)`, for a limit above 0
unfoldable pub total_pages : (total limit : ℕ) → ℕ
total_pages total limit = (total + (limit - 1)) / limit

module _ {S D : Type 0} (t : Table S D) where
  -- `countDocuments(filter)`, `find(filter).skip((page - 1) * limit).limit(limit)`
  unfoldable pub page_of : S → (Stored D → Bool) → (page limit : ℕ) → Page D
  page_of s filter page limit =
      let total = t.model.count_documents (t.get s) filter in
      record {
        data_of = t.model.find_page (t.get s) filter ((page - 1) * limit) limit;
        total = total;
        page = page;
        limit = limit;
        total_pages = total_pages total limit;
        has_next = ltb (page * limit) total;
        has_prev = ltb 1 page;
      }

  unfoldable pub paginate : (Stored D → Bool) → (page limit : ℕ) → Action S (Page D)
  paginate filter page limit s = (ok (page_of s filter page limit), s)
