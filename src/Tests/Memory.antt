-- ===== src/Tests/Memory.antt =====
-- In-memory stand-ins for a mongoose model and for Redis, which meet the laws of `Store`.
use mathlib.Core.Option
use bus_booking_backend.Prelude.{
  ℕ, zero, suc, ◌≡◌, refl, Bool, true, false, not, ◌&&◌, Option, none, some, List, [], ◌∷◌, length,
  take, drop, find, filter, str_eq, if◌then◌else◌, arith, eq_iff, ◌<>◌,
}
use bus_booking_backend.Errors.{duplicate_key}
use bus_booking_backend.Store.{ObjectId, Result, ok, err, Stored, Model}

unfoldable pub new_id : ℕ → ObjectId
new_id zero = "a"
new_id (suc n) = "0" <> new_id n

module _ {D : Type 0} where
  unfoldable pub lookup : List (Stored D) → ObjectId → Option D
  lookup [] i = none
  lookup (x ∷ c) i = if str_eq x.id i then some x.doc else lookup c i

  -- The documents that can be found: the first of each identifier.
  unfoldable pub visible : List (Stored D) → List (Stored D)
  visible [] = []
  visible (x ∷ c) = x ∷ filter (λ d. not (str_eq x.id d.id)) (visible c)

  unfoldable pub change : ObjectId → (D → D) → List (Stored D) → List (Stored D)
  change i f [] = []
  change i f (x ∷ c) =
      let rest = change i f c in
      if str_eq x.id i then record x { doc = f x.doc } ∷ rest else x ∷ rest

  unfoldable pub remove : ObjectId → List (Stored D) → List (Stored D)
  remove i [] = []
  remove i (x ∷ c) = let rest = remove i c in if str_eq x.id i then rest else x ∷ rest

  -- A new identifier that is taken is rejected, as a unique index would.
  unfoldable pub add :
      List (Stored D) → D → ObjectId → Option D → Result (ObjectId × List (Stored D))
  add c d i none = ok (i, record { id = i; doc = d } ∷ c)
  add c d i (some _) = err (duplicate_key (some "_id"))

  unfoldable pub create : List (Stored D) → D → Result (ObjectId × List (Stored D))
  create c d = let i = new_id (length c) in add c d i (lookup c i)

  find-filter :
      (p q : Stored D → Bool) (l : List (Stored D)) → find p (filter q l) ≡ find (λ d. q d && p d) l
  find-filter p q [] = refl
  find-filter p q (x ∷ l) = ground (arith, find-filter p q l)

  add_fresh :
      (c c' : List (Stored D)) (d : D) (i j : ObjectId) (o : Option D)
      → add c d i o ≡ ok (j, c')
      → (o ≡ none) × (i ≡ j) × (c' ≡ record { id = i; doc = d } ∷ c)
  unfolding add
  add_fresh c c' d i j o h = ground arith

  pub create_fresh :
      (c c' : List (Stored D)) (d : D) (i : ObjectId) → create c d ≡ ok (i, c') → lookup c i ≡ none
  unfolding create add
  create_fresh c c' d i h =
      let (absent, same, _) = add_fresh c c' d (new_id (length c)) i _ h in rw (← same) absent

  pub lookup-create :
      (c c' : List (Stored D)) (d : D) (i j : ObjectId)
      → create c d ≡ ok (i, c')
      → lookup c' j ≡ (if str_eq i j then some d else lookup c j)
  unfolding create lookup
  lookup-create c c' d i j h =
      let (_, same, shape) = add_fresh c c' d (new_id (length c)) i _ h in rw (shape, ← same) refl

  pub lookup-change :
      (c : List (Stored D)) (i j : ObjectId) (f : D → D)
      → lookup (change i f c) j ≡ (if str_eq i j then Option.map f (lookup c i) else lookup c j)
  unfolding lookup change
  lookup-change [] i j f = ground arith
  lookup-change (x ∷ c) i j f =
      ground (arith, lookup-change c i j f, eq_iff x.id i, eq_iff x.id j, eq_iff i j)

  pub lookup-remove :
      (c : List (Stored D)) (i j : ObjectId)
      → lookup (remove i c) j ≡ (if str_eq i j then none else lookup c j)
  unfolding lookup remove
  lookup-remove [] i j = ground arith
  lookup-remove (x ∷ c) i j =
      ground (arith, lookup-remove c i j, eq_iff x.id i, eq_iff x.id j, eq_iff i j)

  pub find-visible :
      (c : List (Stored D)) (p : Stored D → Bool) (d : Stored D)
      → find p (visible c) ≡ some d
      → (p d ≡ true) × (lookup c d.id ≡ some d.doc)
  unfolding visible lookup
  find-visible [] p d h = cc
  find-visible (x ∷ c) p d h =
      let q : Stored D → Bool = λ e. not (str_eq x.id e.id) in
      let r : Stored D → Bool = λ e. q e && p e in
      ground (arith, find-filter p q (visible c), find-visible c r d, eq_iff x.id d.id)

  pub find-visible-none :
      (c : List (Stored D)) (p : Stored D → Bool) (i : ObjectId) (d : D)
      → find p (visible c) ≡ none
      → lookup c i ≡ some d
      → p (record { id = i; doc = d }) ≡ false
  unfolding visible lookup
  find-visible-none [] p i d h e = cc
  find-visible-none (x ∷ c) p i d h e =
      let q : Stored D → Bool = λ e. not (str_eq x.id e.id) in
      let r : Stored D → Bool = λ e. q e && p e in
      ground (arith, find-filter p q (visible c), find-visible-none c r i d, eq_iff x.id i)

  pub ok_eq : {a b : List (Stored D)} → ok a ≡ ok b → a ≡ b
  ok_eq e = cc

  pub lookup-update :
      (c c' : List (Stored D)) (i j : ObjectId) (f : D → D)
      → ok (change i f c) ≡ ok c'
      → lookup c' j ≡ (if str_eq i j then Option.map f (lookup c i) else lookup c j)
  lookup-update c c' i j f h = rw (← ok_eq h) (lookup-change c i j f)

  abbrev pub memory : Model D
  memory = record {
    Coll = List (Stored D);
    find_by_id = lookup;
    find_all = λ c p. filter p (visible c);
    find_one = λ c p. find p (visible c);
    count_documents = λ c p. length (filter p (visible c));
    find_page = λ c p skip limit. take limit (drop skip (filter p (visible c)));
    create = create;
    update_by_id = λ c i f. ok (change i f c);
    delete_by_id = λ c i. remove i c;
    create_fresh = create_fresh;
    find_by_id-create = lookup-create;
    find_by_id-update_by_id = lookup-update;
    find_by_id-delete_by_id = lookup-remove;
    find_one_sound = find-visible;
    find_one_complete = find-visible-none;
  }
