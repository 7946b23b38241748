-- ===== src/Requests/Tenants.antt =====
-- Which tenant a request is for (src/core/middlewares/tenant.middleware.ts).
use bus_booking_backend.Prelude.{String, true, Option, none, some, ◌≡◌, ◌≢◌, refl, ne→str_eq}
use bus_booking_backend.Requests.{TenantRequest, or_else, subdomain, resolve_tenant}

or_else-none : (o : Option String) → or_else o none ≡ o
or_else-none none = refl
or_else-none (some t) = refl

-- The tenant of the user that is logged in goes before everything else in the request, a header
-- before the subdomain, and the subdomain before the query.
pub resolve_tenant_order :
    (r : TenantRequest) (user header : String)
    → user ≢ ""
    → header ≢ ""
    → (resolve_tenant (record r { user_tenant = some user }) ≡ some user)
      × (resolve_tenant (record r { user_tenant = none; header_tenant = some header })
          ≡ some header)
      × (resolve_tenant
            (record r { user_tenant = none; header_tenant = none; in_production = true })
          ≡ subdomain r.host_parts)
unfolding resolve_tenant subdomain
resolve_tenant_order r user header u h = (
  rw (ne→str_eq user "" u) refl,
  rw (ne→str_eq header "" h) refl,
  or_else-none (subdomain r.host_parts),
)
