-- ===== src/Errors/Statuses.antt =====
-- What a client sees of each error (src/core/errors/errorHandler.ts).
use bus_booking_backend.Prelude.{
  String, true, false, Bool-cases, Option, [], ◌≡◌, refl, ◌⊎◌, inl, inr, ◌≤◌, ◌<◌, ◌<>◌,
  get_or_default, arith,
}
use bus_booking_backend.Errors.{
  Error, Response, app, zod, mongoose_validation, cast, duplicate_key, unknown, error_handler,
  bad_request, unauthorized, forbidden, not_found, conflict, too_many_requests, internal,
}

-- Errors whose own status is a client error or a server error, as every class of the file has.
abbrev pub IsHttpError : Error → Type 0
IsHttpError (app e) = (400 ≤ e.status_code) × (e.status_code < 600)
IsHttpError _ = Unit

-- A response that shows nothing of the error.
abbrev pub IsHidden : Response → Type 0
IsHidden r =
    (r.status ≡ 500)
    × (r.code ≡ "INTERNAL_ERROR")
    × (r.message ≡ "Something went wrong. Please try again later.")
    × (r.errors ≡ [])

-- What a client may learn from an error: what an operational error of the application says, where
-- its status is one of a failure; what is wrong with the request, with the status 400, or 409 for
-- a value that is taken; and of any other error nothing.
abbrev pub IsAnswer : Error → Response → Type 0
IsAnswer (app e) r =
    ((e.is_operational ≡ true)
      × (r.status ≡ e.status_code)
      × (r.message ≡ e.message)
      × (r.code ≡ get_or_default e.code "ERROR")
      × (r.errors ≡ []))
    ⊎ ((e.is_operational ≡ false) × IsHidden r)
IsAnswer (zod issues) r = (r.status ≡ 400) × (r.code ≡ "VALIDATION_ERROR") × (r.errors ≡ issues)
IsAnswer (mongoose_validation issues) r =
    (r.status ≡ 400) × (r.code ≡ "MONGOOSE_VALIDATION_ERROR") × (r.errors ≡ issues)
IsAnswer (cast path value) r =
    (r.status ≡ 400)
    × (r.code ≡ "INVALID_ID")
    × (r.message ≡ "Invalid " <> path <> ": " <> value)
    × (r.errors ≡ [])
IsAnswer (duplicate_key field) r =
    (r.status ≡ 409)
    × (r.code ≡ "DUPLICATE_KEY")
    × (r.message ≡ get_or_default field "field" <> " already exists")
    × (r.errors ≡ [])
IsAnswer (unknown message) r = IsHidden r

error_handler-IsAnswer : (e : Error) → IsAnswer e (error_handler e)
unfolding error_handler
error_handler-IsAnswer (app e) = elim (Bool-cases e.is_operational) [
  | inl shown ↦ inl (shown, rw shown refl, rw shown refl, rw shown refl, rw shown refl)
  | inr hidden ↦ inr (hidden, (rw hidden refl, rw hidden refl, rw hidden refl, rw hidden refl))
]
error_handler-IsAnswer (zod issues) = (refl, refl, refl)
error_handler-IsAnswer (mongoose_validation issues) = (refl, refl, refl)
error_handler-IsAnswer (cast path value) = (refl, refl, refl, refl)
error_handler-IsAnswer (duplicate_key field) = (refl, refl, refl, refl)
error_handler-IsAnswer (unknown message) = (refl, refl, refl, refl)

error_handler_fails : (e : Error) → (error_handler e).success ≡ false
unfolding error_handler
error_handler_fails (app e) = ground arith
error_handler_fails (zod issues) = refl
error_handler_fails (mongoose_validation issues) = refl
error_handler_fails (cast path value) = refl
error_handler_fails (duplicate_key field) = refl
error_handler_fails (unknown message) = refl

error_handler_bounds :
    (e : Error)
    → IsHttpError e
    → (400 ≤ (error_handler e).status) × ((error_handler e).status < 600)
unfolding error_handler
error_handler_bounds (app e) h = ground arith
error_handler_bounds (zod issues) h = ground arith
error_handler_bounds (mongoose_validation issues) h = ground arith
error_handler_bounds (cast path value) h = ground arith
error_handler_bounds (duplicate_key field) h = ground arith
error_handler_bounds (unknown message) h = ground arith

-- Any error gets a response that says `success: false`, with a status from 400 to 599 where the
-- error's own status is one. An operational error of the application is answered with its own
-- status, message and code; a request that fails a schema or names no identifier with 400 and what
-- is wrong, and a value that is taken with 409 and its field; every other error, also one of the
-- application that is not operational, with 500 and nothing of its message.
pub error_handler-range :
    (e : Error)
    → IsHttpError e
    → ((error_handler e).success ≡ false)
      × (400 ≤ (error_handler e).status)
      × ((error_handler e).status < 600)
      × IsAnswer e (error_handler e)
error_handler-range e h =
    let (low, high) = error_handler_bounds e h in
    (error_handler_fails e, low, high, error_handler-IsAnswer e)

-- The classes raise with the statuses 400, 401, 403, 404, 409, 429 and 500, and the handler
-- answers with these.
pub error_handler-classes :
    (s : String) (code : Option String)
    → ((error_handler (bad_request s code)).status ≡ 400)
      × ((error_handler (unauthorized s)).status ≡ 401)
      × ((error_handler (forbidden s)).status ≡ 403)
      × ((error_handler (not_found s)).status ≡ 404)
      × ((error_handler (conflict s)).status ≡ 409)
      × ((error_handler (too_many_requests s)).status ≡ 429)
      × ((error_handler (internal s)).status ≡ 500)
unfolding error_handler bad_request unauthorized forbidden not_found conflict too_many_requests
    internal
error_handler-classes s code = ground arith
