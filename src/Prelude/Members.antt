-- ===== src/Prelude/Members.antt =====
-- Membership of a text in a list of texts: `Array.prototype.includes` on strings.
use Prim.Native.String.{String}
use mathlib.Core.Bool.{Bool, true, false, ◌||◌, ◌&&◌, not}
use mathlib.Core.List.{List, [], ◌∷◌}
use bus_booking_backend.Prelude.Tests.{str_eq}

abbrev pub includes : String → List String → Bool
includes s [] = false
includes s (t ∷ ts) = str_eq t s || includes s ts

-- no text occurs twice
abbrev pub all_distinct : List String → Bool
all_distinct [] = true
all_distinct (s ∷ ss) = not (includes s ss) && all_distinct ss
