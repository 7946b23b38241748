-- ===== src/Auth/Otp.antt =====
-- What a one-time password is good for (src/modules/auth/auth.service.ts).
use bus_booking_backend.Prelude.{
  ℕ, ◌+◌, ◌*◌, ◌≤◌, String, ◌≡◌, false, none, some, arith, ltb, str_eq_refl,
}
use bus_booking_backend.Errors.{bad_request}
use bus_booking_backend.Store.{err}
use bus_booking_backend.World.{Env, State}
use bus_booking_backend.Locks.{otp_key, set_otp, get_otp}
use bus_booking_backend.Auth.{
  Crypto, VerifyOtpDto, check_otp, verify_otp, otp_matches, send_otp, generate_otp,
}

module _ (env : Env) (crypto : Crypto) where
  -- Without a stored password, none fits.
  verify_otp_missing :
      (dto : VerifyOtpDto) (s : State env)
      → get_otp env dto.phone s ≡ none
      → verify_otp env crypto dto s
        ≡ (err (bad_request "Invalid or expired OTP" (some "INVALID_OTP")), s)
  unfolding verify_otp check_otp otp_matches
  verify_otp_missing dto s h = ground arith

  ltb_late : (a b : ℕ) → a ≤ b → ltb b a ≡ false
  ltb_late a b h = ground arith

  get_otp_late :
      (phone : String) (s : State env) (t : ℕ)
      → s.now + env.otp_ttl * 1000 ≤ t
      → get_otp env phone (record (send_otp env crypto phone s).1 { now = t }) ≡ none
  unfolding get_otp send_otp set_otp
  get_otp_late phone s t late = rw (
    env.redis.get-setex s.redis s.now t (otp_key phone) (otp_key phone) env.otp_ttl
        (generate_otp env crypto s.now) (omega arith),
    str_eq_refl (otp_key phone),
    ltb_late (s.now + env.otp_ttl * 1000) t late,
  )

  -- Whatever password is given once the time to live has passed since the last one was sent, it is
  -- refused, and nothing changes.
  pub verify_otp_expired :
      (dto : VerifyOtpDto) (s : State env) (t : ℕ)
      → s.now + env.otp_ttl * 1000 ≤ t
      → verify_otp env crypto dto (record (send_otp env crypto dto.phone s).1 { now = t }) ≡ (
        err (bad_request "Invalid or expired OTP" (some "INVALID_OTP")),
        record (send_otp env crypto dto.phone s).1 { now = t },
      )
  verify_otp_expired dto s t late =
      verify_otp_missing dto (record (send_otp env crypto dto.phone s).1 { now = t })
        (get_otp_late dto.phone s t late)
