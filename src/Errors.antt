-- ===== src/Errors.antt =====
-- The error classes of src/core/errors/AppError.ts, with the errors of the libraries that reach
-- the handler, and the handler of src/core/errors/errorHandler.ts.
pub mod Statuses
use bus_booking_backend.Prelude.{
  ℕ, String, Bool, true, false, Option, none, some, List, [], get_or_default, ◌<>◌, if◌then◌else◌,
}

-- `class AppError`
pub record AppError : Type 0 where
  pub message : String
  pub status_code : ℕ
  pub code : Option String
  pub is_operational : Bool

-- What a handler may catch. `unknown` stands for every other `Error`, such as a `TypeError`.
pub data Error : Type 0 where
  app : AppError → Error
  zod : List String → Error
  mongoose_validation : List String → Error
  cast : (path value : String) → Error
  duplicate_key : (field : Option String) → Error
  unknown : (message : String) → Error

unfoldable pub bad_request : String → Option String → Error
bad_request message code =
    app (record { message = message; status_code = 400; code = code; is_operational = true })

unfoldable pub unauthorized : String → Error
unauthorized message = app (record {
  message = message;
  status_code = 401;
  code = some "UNAUTHORIZED";
  is_operational = true;
})

unfoldable pub forbidden : String → Error
forbidden message = app (record {
  message = message;
  status_code = 403;
  code = some "FORBIDDEN";
  is_operational = true;
})

unfoldable pub not_found : String → Error
not_found resource = app (record {
  message = resource <> " not found";
  status_code = 404;
  code = some "NOT_FOUND";
  is_operational = true;
})

unfoldable pub conflict : String → Error
conflict message =
    app (record {
      message = message;
      status_code = 409;
      code = some "CONFLICT";
      is_operational = true;
    })

unfoldable pub too_many_requests : String → Error
too_many_requests message = app (record {
  message = message;
  status_code = 429;
  code = some "TOO_MANY_REQUESTS";
  is_operational = true;
})

unfoldable pub internal : String → Error
internal message = app (record {
  message = message;
  status_code = 500;
  code = some "INTERNAL_ERROR";
  is_operational = false;
})

-- The status and the body of a response.
pub record Response : Type 0 where
  pub status : ℕ
  pub success : Bool
  pub code : String
  pub message : String
  pub errors : List String

abbrev failure : ℕ → String → String → List String → Response
failure status code message errors = record {
  status = status;
  success = false;
  code = code;
  message = message;
  errors = errors;
}

abbrev server_failure : Response
server_failure = failure 500 "INTERNAL_ERROR" "Something went wrong. Please try again later." []

unfoldable pub error_handler : Error → Response
error_handler (app e) =
    if e.is_operational
    then failure e.status_code (get_or_default e.code "ERROR") e.message []
    else server_failure
error_handler (zod issues) = failure 400 "VALIDATION_ERROR" "Validation failed" issues
error_handler (mongoose_validation issues) =
    failure 400 "MONGOOSE_VALIDATION_ERROR" "Data validation failed" issues
error_handler (cast path value) = failure 400 "INVALID_ID" ("Invalid " <> path <> ": " <> value) []
error_handler (duplicate_key field) =
    failure 409 "DUPLICATE_KEY" (get_or_default field "field" <> " already exists") []
error_handler (unknown message) = server_failure
