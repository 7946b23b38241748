-- ===== src/Store/Laws.antt =====
-- The laws of a model at equal and at different identifiers.
use mathlib.Core.Option
use bus_booking_backend.Prelude.{
  ◌≡◌, ◌≢◌, some, str_eq, str_eq_refl, ne→str_eq, arith, eq_iff, if◌then◌else◌,
}
use bus_booking_backend.Store.{ObjectId, Model, ok}

module _ {D : Type 0} (m : Model D) (c c' : m.Coll) where
  pub update_self :
      (i : ObjectId) (f : D → D) (d : D)
      → m.update_by_id c i f ≡ ok c'
      → m.find_by_id c i ≡ some d
      → m.find_by_id c' i ≡ some (f d)
  update_self i f d w e = rw (m.find_by_id-update_by_id c c' i i f w, str_eq_refl i, e)

  -- The whole collection after an update of a document that was there.
  pub update_all :
      (i : ObjectId) (f : D → D) (d : D)
      → m.update_by_id c i f ≡ ok c'
      → m.find_by_id c i ≡ some d
      → (j : ObjectId) → m.find_by_id c' j ≡ (if str_eq i j then some (f d) else m.find_by_id c j)
  update_all i f d w e j = rw (m.find_by_id-update_by_id c c' i j f w, e)

  pub update_mapped :
      (i : ObjectId) (f : D → D)
      → m.update_by_id c i f ≡ ok c'
      → (j : ObjectId)
      → m.find_by_id c' j
        ≡ (if str_eq i j then Option.map f (m.find_by_id c j) else m.find_by_id c j)
  update_mapped i f w j = ground (arith, m.find_by_id-update_by_id c c' i j f w, eq_iff i j)

  pub update_ne :
      (i j : ObjectId) (f : D → D)
      → m.update_by_id c i f ≡ ok c'
      → i ≢ j
      → m.find_by_id c' j ≡ m.find_by_id c j
  update_ne i j f w ne = rw (m.find_by_id-update_by_id c c' i j f w, ne→str_eq i j ne)

  pub create_self : (i : ObjectId) (d : D) → m.create c d ≡ ok (i, c') → m.find_by_id c' i ≡ some d
  create_self i d w = rw (m.find_by_id-create c c' d i i w, str_eq_refl i)

  pub create_ne :
      (i j : ObjectId) (d : D)
      → m.create c d ≡ ok (i, c')
      → i ≢ j
      → m.find_by_id c' j ≡ m.find_by_id c j
  create_ne i j d w ne = rw (m.find_by_id-create c c' d i j w, ne→str_eq i j ne)
