-- ===== src/Store/Leases/Order.antt =====
-- ORDER BY created_at, id of apps/api/app/store.py, over a total order of the texts.
use ai_jsunpack.Prelude.{String, ◌≡◌, true, false, inl, inr, arith, Bool-cases}
use ai_jsunpack.Store.Jobs.{Job}
use ai_jsunpack.Store.Leases.{Collation, comes_before}

-- What a database documents of a collation: texts are totally ordered by it.
pub record IsTotal (le : Collation) : Type 0 where
  pub total : (a b : String) → le a b ≡ false → le b a ≡ true
  pub trans : (a b c : String) → le a b ≡ true → le b c ≡ true → le a c ≡ true

module _ (le : Collation) (t : IsTotal le) where
  pub comes_before-total : (a b : Job) → comes_before le a b ≡ false → comes_before le b a ≡ true
  comes_before-total a b h = ground (
    arith,
    t.total a.created_at b.created_at,
    t.total b.created_at a.created_at,
    t.total a.id b.id,
  )

  pub comes_before_trans :
      (a b c : Job)
      → comes_before le a b ≡ true
      → comes_before le b c ≡ true
      → comes_before le a c ≡ true
  comes_before_trans a b c h k = ground (
    arith,
    t.trans a.created_at b.created_at c.created_at,
    t.trans c.created_at a.created_at b.created_at,
    t.trans b.created_at c.created_at a.created_at,
    t.trans c.created_at b.created_at a.created_at,
    t.trans a.id b.id c.id,
  )

  pub comes_before_refl : (j : Job) → comes_before le j j ≡ true
  comes_before_refl j = elim (Bool-cases (comes_before le j j)) [
    | inl y ↦ y
    | inr z ↦ ground (arith, t.total j.created_at j.created_at, t.total j.id j.id)
  ]
