-- ===== src/Action.antt =====
-- An `async` method: it reads and writes a state and returns or throws. What was written before a
-- throw stays written, so that the state comes back beside the error too.
use bus_booking_backend.Prelude.{
  ◌≡◌, refl, ◌∙◌, ◌⊎◌, inl, inr, arith, Bool, true, false, Option, none, some,
}
use bus_booking_backend.Errors.{Error}
use bus_booking_backend.Store.{Result, ok, err}

abbrev pub Action : Type 0 → Type 0 → Type 0
Action S A = S → Result A × S

abbrev pub pure : {S A : Type 0} → A → Action S A
pure a s = (ok a, s)

abbrev pub throw : {S A : Type 0} → Error → Action S A
throw e s = (err e, s)

infixl 5 ◌>>=◌ ◌>>◌
abbrev pub ◌>>=◌ : {S A B : Type 0} → Action S A → (A → Action S B) → Action S B
◌>>=◌ m f s = let (r, s') = m s in elim r [ ok a ↦ f a s' | err e ↦ (err e, s') ]

abbrev pub ◌>>◌ : {S A B : Type 0} → Action S A → Action S B → Action S B
m >> k = m >>= λ _. k

-- `if (b) throw e`
abbrev pub throw_if : {S : Type 0} → Bool → Error → Action S (Unit {0})
throw_if true e s = (err e, s)
throw_if false e s = (ok tt, s)

-- `if (!x) throw e`, and the value of `x`
abbrev pub or_throw : {S A : Type 0} → Option A → Error → Action S A
or_throw none e s = (err e, s)
or_throw (some a) e s = (ok a, s)

abbrev pub modify : {S : Type 0} → (S → S) → Action S (Unit {0})
modify f s = (ok tt, f s)

abbrev pub gets : {S A : Type 0} → (S → A) → Action S A
gets f s = (ok (f s), s)

abbrev pub lift : {S A : Type 0} → Result A → Action S A
lift r s = (r, s)

-- `try { m } catch (err) { await h; throw err; }`, for an `h` that does not throw
abbrev pub on_error : {S A : Type 0} → Action S A → (S → S) → Action S A
on_error m h s = let (r, s') = m s in elim r [ ok a ↦ (ok a, s') | err e ↦ (err e, h s') ]

-- The two ways in which a sequence of two actions ends.
abbrev continue : {S A B : Type 0} → Result A × S → (A → Action S B) → Result B × S
continue r f = elim r.0 [ ok a ↦ f a r.1 | err e ↦ (err e, r.1) ]

continue-eq-ok :
    {S A B : Type 0} (r : Result A × S) (f : A → Action S B) (b : B) (s' : S)
    → continue r f ≡ (ok b, s')
    → (a : A) × (t : S) × (r ≡ (ok a, t)) × (f a t ≡ (ok b, s'))
continue-eq-ok (ok a, t) f b s' h = (a, t, refl, h)
continue-eq-ok (err e, t) f b s' h = cc

-- If a sequence returns, both parts have returned.
pub >>=-eq-ok :
    {S A B : Type 0} (m : Action S A) (f : A → Action S B) (s s' : S) (b : B)
    → (m >>= f) s ≡ (ok b, s')
    → (a : A) × (t : S) × (m s ≡ (ok a, t)) × (f a t ≡ (ok b, s'))
>>=-eq-ok m f s s' b h = continue-eq-ok (m s) f b s' h

continue-eq-err :
    {S A B : Type 0} (r : Result A × S) (f : A → Action S B) (e : Error) (s' : S)
    → continue r f ≡ (err e, s')
    → (r ≡ (err e, s')) ⊎ ((a : A) × (t : S) × (r ≡ (ok a, t)) × (f a t ≡ (err e, s')))
continue-eq-err (ok a, t) f e s' h = inr (a, t, refl, h)
continue-eq-err (err x, t) f e s' h = inl (ground arith)

-- If a sequence throws, its first part has thrown, or its second.
pub >>=-eq-err :
    {S A B : Type 0} (m : Action S A) (f : A → Action S B) (s s' : S) (e : Error)
    → (m >>= f) s ≡ (err e, s')
    → (m s ≡ (err e, s')) ⊎ ((a : A) × (t : S) × (m s ≡ (ok a, t)) × (f a t ≡ (err e, s')))
>>=-eq-err m f s s' e h = continue-eq-err (m s) f e s' h

continue_keeps :
    {S A B X : Type 0} (g : S → X) (r : Result A × S) (f : A → Action S B)
    → ((a : A) (t : S) → g (f a t).1 ≡ g t)
    → g (continue r f).1 ≡ g r.1
continue_keeps g (ok a, t) f h = h a t
continue_keeps g (err e, t) f h = refl

-- What the second part leaves alone is after the sequence as after its first part.
pub >>=_keeps_first :
    {S A B X : Type 0} (g : S → X) (m : Action S A) (f : A → Action S B)
    → ((a : A) (t : S) → g (f a t).1 ≡ g t)
    → (s : S) → g ((m >>= f) s).1 ≡ g (m s).1
>>=_keeps_first g m f h s = continue_keeps g (m s) f h

-- What both parts of a sequence leave alone, the sequence leaves alone, however it ends.
pub >>=_keeps :
    {S A B X : Type 0} (g : S → X) (m : Action S A) (f : A → Action S B)
    → ((t : S) → g (m t).1 ≡ g t)
    → ((a : A) (t : S) → g (f a t).1 ≡ g t)
    → (s : S) → g ((m >>= f) s).1 ≡ g s
>>=_keeps g m f h k s = continue_keeps g (m s) f k ∙ h s

continue_preserves :
    {S A B : Type 0} (P : S → Type 0) (r : Result A × S) (f : A → Action S B)
    → P r.1
    → ((a : A) (t : S) → r ≡ (ok a, t) → P (f a t).1)
    → P (continue r f).1
continue_preserves P (ok a, t) f h k = k a t refl
continue_preserves P (err e, t) f h k = h

-- A predicate that holds after the first part, and after the second wherever that runs, holds after
-- the sequence, however it ends.
pub >>=_preserves :
    {S A B : Type 0} (P : S → Type 0) (m : Action S A) (f : A → Action S B) (s : S)
    → P (m s).1
    → ((a : A) (t : S) → m s ≡ (ok a, t) → P (f a t).1)
    → P ((m >>= f) s).1
>>=_preserves P m f s h k = continue_preserves P (m s) f h k
