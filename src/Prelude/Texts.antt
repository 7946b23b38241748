-- ===== src/Prelude/Texts.antt =====
-- Text as code points, the order in which JavaScript sorts an array of strings, and `join`. The
-- source orders by UTF-16 units, which is the order of the code points below 0xD800.
use Prim.Native.Nat.{ℕ, compare, Ordering}
use Prim.Native.Char.{code}
use Prim.Native.String.{String, ◌++◌}
use mathlib.Core.Path.{◌≡◌, refl, ap, ap₂, ◌∙◌}
use mathlib.Core.Bool.{Bool, true, false, ◌||◌}
use mathlib.Core.List.{List, [], ◌∷◌, Perm, Permᴰ}
use mathlib.Core.Logic.{∥∥₁_elim}
use native.Mathlib.Omega.{arith}
use text.Mathlib.TextEquality.{Char-path, IsScalar-prop}
use bus_booking_backend.Prelude.Tests.{if◌then◌else◌, str_eq}
use bus_booking_backend.Prelude.Members.{includes}

-- Concatenation of texts.
infixl 65 ◌<>◌
abbrev pub ◌<>◌ : String → String → String
s <> t = s ++ t

-- The code points of a text.
unfoldable pub codes : String → List ℕ
codes String.[] = []
codes (String.◌∷◌ c s) = code c ∷ codes s

head_eq : {a b : ℕ} {xs ys : List ℕ} → a ∷ xs ≡ b ∷ ys → a ≡ b
head_eq e = cc

tail_eq : {a b : ℕ} {xs ys : List ℕ} → a ∷ xs ≡ b ∷ ys → xs ≡ ys
tail_eq e = cc

-- A text is known by its code points.
pub codes_injective : (s t : String) → codes s ≡ codes t → s ≡ t
unfolding codes
codes_injective String.[] String.[] e = refl
codes_injective String.[] (String.◌∷◌ d t) e = cc
codes_injective (String.◌∷◌ c s) String.[] e = cc
codes_injective (String.◌∷◌ c s) (String.◌∷◌ d t) e =
    ap₂ String.◌∷◌ (Char-path c d (head_eq e)) (codes_injective s t (tail_eq e))

lex_leb : List ℕ → List ℕ → Bool
lex_leb [] ys = true
lex_leb (a ∷ xs) [] = false
lex_leb (a ∷ xs) (b ∷ ys) = elim (compare a b) [
  | Ordering.lt ↦ true
  | Ordering.eq ↦ lex_leb xs ys
  | Ordering.gt ↦ false
]

lex_leb_total : (xs ys : List ℕ) → lex_leb xs ys ≡ false → lex_leb ys xs ≡ true
unfolding lex_leb
lex_leb_total [] ys h = cc
lex_leb_total (a ∷ xs) [] h = refl
lex_leb_total (a ∷ xs) (b ∷ ys) h = ground (arith, lex_leb_total xs ys)

lex_leb_antisymm : (xs ys : List ℕ) → lex_leb xs ys ≡ true → lex_leb ys xs ≡ true → xs ≡ ys
unfolding lex_leb
lex_leb_antisymm [] [] h k = refl
lex_leb_antisymm [] (b ∷ ys) h k = cc
lex_leb_antisymm (a ∷ xs) [] h k = cc
lex_leb_antisymm (a ∷ xs) (b ∷ ys) h k = ground (arith, lex_leb_antisymm xs ys)

lex_leb_trans :
    (xs ys zs : List ℕ) → lex_leb xs ys ≡ true → lex_leb ys zs ≡ true → lex_leb xs zs ≡ true
unfolding lex_leb
lex_leb_trans [] ys zs h k = refl
lex_leb_trans (a ∷ xs) [] zs h k = cc
lex_leb_trans (a ∷ xs) (b ∷ ys) [] h k = cc
lex_leb_trans (a ∷ xs) (b ∷ ys) (c ∷ zs) h k = ground (arith, lex_leb_trans xs ys zs)

-- The order of `Array.prototype.sort` on strings.
unfoldable pub text_leb : String → String → Bool
unfolding codes lex_leb
text_leb s t = lex_leb (codes s) (codes t)

pub text_leb_total : (s t : String) → text_leb s t ≡ false → text_leb t s ≡ true
unfolding text_leb
text_leb_total s t = lex_leb_total (codes s) (codes t)

pub text_leb_antisymm : (s t : String) → text_leb s t ≡ true → text_leb t s ≡ true → s ≡ t
unfolding text_leb
text_leb_antisymm s t h k = codes_injective s t (lex_leb_antisymm (codes s) (codes t) h k)

pub text_leb_trans :
    (s t u : String) → text_leb s t ≡ true → text_leb t u ≡ true → text_leb s u ≡ true
unfolding text_leb
text_leb_trans s t u = lex_leb_trans (codes s) (codes t) (codes u)

insert_sorted : String → List String → List String
insert_sorted s [] = s ∷ []
insert_sorted s (t ∷ ts) = if text_leb s t then s ∷ t ∷ ts else t ∷ insert_sorted s ts

-- `Array.prototype.sort` on strings
unfoldable pub sort_texts : List String → List String
unfolding insert_sorted text_leb
sort_texts [] = []
sort_texts (s ∷ ss) = insert_sorted s (sort_texts ss)

insert_sorted_comm :
    (s t : String) (us : List String)
    → insert_sorted s (insert_sorted t us) ≡ insert_sorted t (insert_sorted s us)
unfolding insert_sorted
insert_sorted_comm s t [] =
    ground (arith, text_leb_total s t, text_leb_antisymm s t, text_leb_antisymm t s)
insert_sorted_comm s t (u ∷ us) = ground (
  arith,
  insert_sorted_comm s t us,
  text_leb_total s t,
  text_leb_total t s,
  text_leb_antisymm s t,
  text_leb_trans s t u,
  text_leb_trans t s u,
)

sort_texts-permᴰ : {ss ts : List String} → Permᴰ ss ts → sort_texts ss ≡ sort_texts ts
unfolding sort_texts
sort_texts-permᴰ Permᴰ.nil = refl
sort_texts-permᴰ (Permᴰ.cons e p) = ap₂ insert_sorted e (sort_texts-permᴰ p)
sort_texts-permᴰ (Permᴰ.swap {a = s} {b = t} {l = us} e f) =
    insert_sorted_comm s t (sort_texts us)
    ∙ ap₂ (λ a b. insert_sorted a (insert_sorted b (sort_texts us))) f e
sort_texts-permᴰ (Permᴰ.trans p q) = sort_texts-permᴰ p ∙ sort_texts-permᴰ q

texts_set : IsSet (List String)
texts_set = hlevel IsScalar-prop

-- The sorted list is the same for two orders of the same texts.
pub sort_texts-perm : {ss ts : List String} → Perm ss ts → sort_texts ss ≡ sort_texts ts
sort_texts-perm p = ∥∥₁_elim p (texts_set _ _) sort_texts-permᴰ

includes-insert_sorted :
    (m s : String) (ts : List String)
    → includes m (insert_sorted s ts) ≡ (str_eq s m || includes m ts)
unfolding insert_sorted
includes-insert_sorted m s [] = refl
includes-insert_sorted m s (t ∷ ts) = ground (arith, includes-insert_sorted m s ts)

-- Sorting keeps the texts.
pub includes-sort_texts :
    (m : String) (ss : List String) → includes m (sort_texts ss) ≡ includes m ss
unfolding sort_texts
includes-sort_texts m [] = refl
includes-sort_texts m (s ∷ ss) =
    includes-insert_sorted m s (sort_texts ss)
    ∙ ap (λ b. str_eq s m || b) (includes-sort_texts m ss)

-- `join(separator)`
unfoldable pub join : String → List String → String
join sep [] = ""
join sep (s ∷ []) = s
join sep (s ∷ t ∷ ss) = s <> (sep <> join sep (t ∷ ss))

sorted_example : join "," (sort_texts ("B2" ∷ "10" ∷ "9" ∷ "A1" ∷ [])) ≡ "10,9,A1,B2"
unfolding join sort_texts
sorted_example = refl
