-- ===== src/Requests.antt =====
-- What is read from a request before a service is called: the tenant, by
-- src/core/middlewares/tenant.middleware.ts, and a parameter of the route, by
-- src/core/utils/request.util.ts.
pub mod Tenants
use bus_booking_backend.Prelude.{
  ℕ, suc, String, Bool, true, false, not, ◌&&◌, Option, none, some, List, [], ◌∷◌, length, leb,
  str_eq, ◌<>◌, if◌then◌else◌,
}
use bus_booking_backend.Errors.{bad_request}
use bus_booking_backend.Store.{Result, ok, err}

-- A text that is given and not empty: what JavaScript takes for true.
abbrev pub given : Option String → Option String
given none = none
given (some t) = if str_eq t "" then none else some t

-- The parts of a request that the middleware reads: `req.user.tenantId`, the header `x-tenant-id`,
-- `req.hostname.split('.')`, `req.query.tenantId`, and whether NODE_ENV is 'production'.
pub record TenantRequest : Type 0 where
  pub user_tenant : Option String
  pub header_tenant : Option String
  pub host_parts : List String
  pub query_tenant : Option String
  pub in_production : Bool

-- `parts.length >= 3`, and the first part
unfoldable pub subdomain : List String → Option String
subdomain (a ∷ b ∷ c ∷ rest) = some a
subdomain _ = none

abbrev pub or_else : Option String → Option String → Option String
or_else none other = other
or_else (some t) other = some t

-- `tenantMiddleware`: the tenant of the request, if it has one.
unfoldable pub resolve_tenant : TenantRequest → Option String
resolve_tenant r = or_else (given r.user_tenant) (
    or_else (given r.header_tenant) (
      or_else (subdomain r.host_parts)
        (if not r.in_production then given r.query_tenant else none)))

-- `req.params[key]`
pub data Param : Type 0 where
  missing : Param
  one : String → Param
  many : List String → Param

abbrev first_of : List String → Option String
first_of [] = none
first_of (s ∷ _) = some s

abbrev required : String → Option String → Result String
required key none = err (bad_request ("Missing required route parameter: " <> key) none)
required key (some t) =
    if str_eq t ""
    then err (bad_request ("Missing required route parameter: " <> key) none)
    else ok t

-- `getParam`
unfoldable pub get_param : Param → String → Result String
get_param missing key = required key none
get_param (one value) key = required key (some value)
get_param (many values) key = required key (first_of values)
