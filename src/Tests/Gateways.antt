-- ===== src/Tests/Gateways.antt =====
-- Sockets, tokens, drivers, accounts, notifications and plans at concrete inputs.
use bus_booking_backend.Prelude.{
  String, ◌≡◌, ◌≢◌, refl, false, Option, none, some, List, [], ◌∷◌, str_eq, if◌then◌else◌,
}
use bus_booking_backend.Errors.{Error, bad_request}
use bus_booking_backend.Store.{ObjectId, ok, err, Stored}
use bus_booking_backend.Documents.{Driver, Role, User}
use bus_booking_backend.World.{State}
use bus_booking_backend.Events.{DomainEvent}
use bus_booking_backend.Auth.{JwtPayload}
use bus_booking_backend.Auth.Registration.{authenticate}
use bus_booking_backend.Auth.Refresh.{
  RefreshTokenDto, refresh_access_token, refresh_access_token_fails,
}
use bus_booking_backend.Accounts.{deactivate_user, switch_user}
use bus_booking_backend.Accounts.Closed.{deactivate_user_locks_out}
use bus_booking_backend.Drivers.{
  CreateDriverDto, new_driver, create_driver, check_driver, write_driver,
}
use bus_booking_backend.Drivers.Unbookable.{create_driver_unbookable}
use bus_booking_backend.Review.{assert_bookable}
use bus_booking_backend.Sockets.{Socket, Request, admit, receives}
use bus_booking_backend.Sockets.Delivered.{served, payment_success_undelivered}
use bus_booking_backend.Tests.Memory.{lookup, visible, change, create, add, new_id}
use bus_booking_backend.Tests.Sample.{env, start, alice, bob}
use bus_booking_backend.Tests.Accounts.{crypto, with_user}

abbrev payload : String → JwtPayload
payload kind = record { sub = alice; role = "user"; tenant_id = none; kind = kind }

abbrev verify : String → Option JwtPayload
verify token = some (payload "access")

abbrev socket : Socket
socket = record { user_id = some alice; tenant_id = none; rooms = [] }

-- The client asks for the room of a bus that it calls by the name of the booking.
abbrev requests : List Request
requests = Request.join_bus "b" ∷ Request.leave_bus "c" ∷ []

admitted : admit verify (some "t") ≡ ok socket
unfolding admit
admitted = refl

payment_success_undelivered_example :
    receives (DomainEvent.payment_success "p" "b" 100) (served verify (some "t") socket requests)
    ≡ none
payment_success_undelivered_example =
    payment_success_undelivered verify (some "t") socket requests "p" "b" 100 admitted

abbrev refresh : RefreshTokenDto
refresh = record { user_id = alice; refresh_token = "r" }

refresh_access_token_fails_example :
    (e : Error) × (refresh_access_token env crypto
        (λ now t. some (payload "refresh"))
        refresh
        (with_user Role.user)
      ≡ (err e, with_user Role.user))
refresh_access_token_fails_example =
    refresh_access_token_fails env crypto (λ now t. some (payload "refresh")) refresh
      (with_user Role.user)

abbrev after_off : State env
after_off = (deactivate_user env alice bob (with_user Role.user)).1

deactivate_run : deactivate_user env alice bob (with_user Role.user) ≡ (ok tt, after_off)
unfolding deactivate_user switch_user lookup change
deactivate_run = refl

deactivate_user_locks_out_example :
    (key : ObjectId) × (old : User) × (alice ≢ bob)
    × (env.cast_id alice ≡ some key)
    × (env.users.find_by_id (with_user Role.user).users key ≡ some old)
    × ((j : ObjectId)
        → env.users.find_by_id after_off.users j ≡ (
            if str_eq key j
            then some (record old { is_active = false })
            else env.users.find_by_id (with_user Role.user).users j))
    × (authenticate env crypto (payload "access") after_off ≡ (ok none, after_off))
    × (authenticate env crypto (payload "access") (record after_off { now = 5000 })
        ≡ (ok none, record after_off { now = 5000 }))
deactivate_user_locks_out_example =
    deactivate_user_locks_out env crypto (payload "access") alice bob (with_user Role.user)
      after_off (record after_off { now = 5000 }) tt deactivate_run refl (λ j _. refl)

abbrev driver_dto : CreateDriverDto
driver_dto = record {
  full_name = "Ravi";
  phone = "9111111111";
  license_number = "KA01";
  license_expiry = "";
}

abbrev trim : String → String
trim t = t

abbrev new_one : Stored Driver
new_one = record { id = "a"; doc = new_driver env trim driver_dto "t" bob 0 }

abbrev after_driver : State env
after_driver = (create_driver env trim driver_dto bob "t" start).1

create_driver_run : create_driver env trim driver_dto bob "t" start ≡ (ok new_one, after_driver)
unfolding create_driver check_driver write_driver visible lookup create add new_id
create_driver_run = refl

create_driver_unbookable_example :
    (env.drivers.find_by_id after_driver.drivers "a" ≡ some new_one.doc)
    × (assert_bookable env "a" after_driver
        ≡ (err (bad_request "Driver has not completed verification yet" none), after_driver))
create_driver_unbookable_example =
    create_driver_unbookable env trim driver_dto bob "t" start after_driver new_one
      create_driver_run refl
