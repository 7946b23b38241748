-- ===== src/Prelude/Decimals.antt =====
-- The decimal text of a number, as a template literal prints it.
use Prim.Native.Nat.{ℕ, zero, suc, ◌/◌, ◌%◌}
use Prim.Native.String.{String}
use mathlib.Core.Path.{◌≡◌, refl}
use mathlib.Core.List.{List, [], ◌∷◌}
use bus_booking_backend.Prelude.Tests.{if◌then◌else◌, ltb, get_or_default}
use bus_booking_backend.Prelude.Lists.{get_elem?}
use bus_booking_backend.Prelude.Texts.{◌<>◌}

abbrev digit_texts : List String
digit_texts = "0" ∷ "1" ∷ "2" ∷ "3" ∷ "4" ∷ "5" ∷ "6" ∷ "7" ∷ "8" ∷ "9" ∷ []

digit : ℕ → String
digit n = get_or_default (get_elem? digit_texts n) ""

-- A number has at most as many digits as its value says, so that the fuel is enough.
decimal_in : (fuel : ℕ) → ℕ → String
decimal_in zero n = ""
decimal_in (suc fuel) n =
    let rest = decimal_in fuel (n / 10) in if ltb n 10 then digit n else rest <> digit (n % 10)

pub decimal : ℕ → String
unfolding decimal_in
decimal n = decimal_in (suc n) n

decimal_7 : decimal 7 ≡ "7"
unfolding decimal decimal_in digit
decimal_7 = refl

decimal_120 : decimal 120 ≡ "120"
unfolding decimal decimal_in digit
decimal_120 = refl
