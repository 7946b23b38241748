-- ===== src/Store.antt =====
-- What the services use of the packages `mongoose` and `ioredis`: the operations as the fields of a
-- record, and what the packages document of them as its laws. Nothing of this is code of the
-- repository, so every definition takes such a record as its parameter.
pub mod Laws
use bus_booking_backend.Prelude.{
  ℕ, ◌+◌, ◌*◌, ◌≤◌, ◌<◌, String, ◌≡◌, refl, ◌⊎◌, inl, inr, Bool, true, false, Option, none, some,
  List, ltb, length, take, drop, str_eq, find, if◌then◌else◌,
}
use bus_booking_backend.Errors.{Error}
use mathlib.Core.Option

-- The canonical hexadecimal form of a `Types.ObjectId`.
abbrev pub ObjectId : Type 0
ObjectId = String

-- An awaited call: its value, or what it threw.
pub data Result {ℓ} (A : Type ℓ) : Type ℓ where
  ok : A → Result A
  err : Error → Result A

-- The two outcomes of a call, with the equation.
pub Result-cases :
    {A : Type 0} (r : Result A) → ((a : A) × (r ≡ ok a)) ⊎ ((e : Error) × (r ≡ err e))
Result-cases (ok a) = inl (a, refl)
Result-cases (err e) = inr (e, refl)

-- A document with its `_id`.
pub record Stored (D : Type 0) : Type 0 where
  pub id : ObjectId
  pub doc : D

-- A mongoose model over documents `D`. A write may be rejected, by the schema, by a unique index or
-- by the connection, and then changes nothing.
pub record Model (D : Type 0) : Type 1 where
  pub Coll : Type 0
  pub find_by_id : Coll → ObjectId → Option D
  -- `find(filter).sort(...)`, `findOne(filter)`, `countDocuments(filter)`
  pub find_all : Coll → (Stored D → Bool) → List (Stored D)
  pub find_one : Coll → (Stored D → Bool) → Option (Stored D)
  pub count_documents : Coll → (Stored D → Bool) → ℕ
  -- `find(filter).sort(...).skip(n).limit(m)`
  pub find_page : Coll → (Stored D → Bool) → (skip limit : ℕ) → List (Stored D)
  pub create : Coll → D → Result (ObjectId × Coll)
  pub update_by_id : Coll → ObjectId → (D → D) → Result Coll
  pub delete_by_id : Coll → ObjectId → Coll
  -- A created document has a new identifier, and is found under it.
  pub create_fresh :
      (c c' : Coll) (d : D) (i : ObjectId) → create c d ≡ ok (i, c') → find_by_id c i ≡ none
  pub find_by_id-create :
      (c c' : Coll) (d : D) (i j : ObjectId)
      → create c d ≡ ok (i, c')
      → find_by_id c' j ≡ (if str_eq i j then some d else find_by_id c j)
  pub find_by_id-update_by_id :
      (c c' : Coll) (i j : ObjectId) (f : D → D)
      → update_by_id c i f ≡ ok c'
      → find_by_id c' j ≡ (if str_eq i j then Option.map f (find_by_id c i) else find_by_id c j)
  pub find_by_id-delete_by_id :
      (c : Coll) (i j : ObjectId)
      → find_by_id (delete_by_id c i) j ≡ (if str_eq i j then none else find_by_id c j)
  -- `findOne` answers with a stored document that fits, if there is one.
  pub find_one_sound :
      (c : Coll) (p : Stored D → Bool) (d : Stored D)
      → find_one c p ≡ some d
      → (p d ≡ true) × (find_by_id c d.id ≡ some d.doc)
  pub find_one_complete :
      (c : Coll) (p : Stored D → Bool) (i : ObjectId) (d : D)
      → find_one c p ≡ none
      → find_by_id c i ≡ some d
      → p (record { id = i; doc = d }) ≡ false

-- A Redis server. A time is in milliseconds and a time to live in seconds.
pub record Redis : Type 1 where
  pub Store : Type 0
  pub get : Store → (now : ℕ) → String → Option String
  pub setex : Store → (now : ℕ) → (key : String) → (ttl : ℕ) → (value : String) → Store
  pub del : Store → String → Store
  -- A key that was set is there until its time to live has passed.
  pub get-setex :
      (s : Store) (t u : ℕ) (k j : String) (ttl : ℕ) (v : String)
      → t ≤ u
      → get (setex s t k ttl v) u j
        ≡ (if str_eq k j then if ltb u (t + ttl * 1000) then some v else none else get s u j)
  pub get-del :
      (s : Store) (u : ℕ) (k j : String)
      → get (del s k) u j ≡ (if str_eq k j then none else get s u j)
