-- ===== src/Prelude/Table.antt =====
-- A database table as the list of its rows, each with a text key: SELECT, UPDATE and INSERT.
pub mod Rows
pub mod Moves
use Prim.Native.Nat.{ℕ, suc}
use Prim.Native.String.{String}
use mathlib.Core.Path.{◌≡◌, refl}
use mathlib.Core.Bool.{Bool, false, ◌&&◌}
use mathlib.Core.Option.{Option, none, some}
use mathlib.Core.List.{List, [], ◌∷◌, ◌++◌}
use native.Mathlib.Omega.{arith}
use text.Mathlib.TextEquality.{eq_iff}
use ai_jsunpack.Prelude.Tests.{if◌then◌else◌, str_eq, is_some}

module _ {R : Type 0} (key : R → String) where
  -- SELECT ... WHERE key = k, its first row
  unfoldable pub find : String → List R → Option R
  find k [] = none
  find k (r ∷ rs) = if str_eq k (key r) then some r else find k rs

  -- UPDATE ... WHERE key = k AND p, setting the columns by `f`
  unfoldable pub update : String → (R → Bool) → (R → R) → List R → List R
  update k p f [] = []
  update k p f (r ∷ rs) = (if str_eq k (key r) && p r then f r else r) ∷ update k p f rs

  -- the `rowcount` of that UPDATE
  unfoldable pub rowcount : String → (R → Bool) → List R → ℕ
  rowcount k p [] = 0
  rowcount k p (r ∷ rs) =
      let rest = rowcount k p rs in if str_eq k (key r) && p r then suc rest else rest

  -- A key stands in no row.
  abbrev pub IsFresh : String → List R → Type 0
  IsFresh k [] = Unit
  IsFresh k (r ∷ rs) = (str_eq k (key r) ≡ false) × IsFresh k rs

  -- The key is a primary key.
  abbrev pub IsKeyed : List R → Type 0
  IsKeyed [] = Unit
  IsKeyed (r ∷ rs) = IsFresh (key r) rs × IsKeyed rs

-- What an UPDATE makes of one row.
abbrev pub touched : {R : Type 0} → (R → Bool) → (R → R) → Option R → Option R
touched p f none = none
touched p f (some r) = some (if p r then f r else r)

module _ {R : Type 0} (key : R → String) where
  -- SELECT after UPDATE: only the rows of the key change, and they change as the clause says.
  pub find-update_self :
      (k : String) (p : R → Bool) (f : R → R) (rs : List R)
      → ((r : R) → key (f r) ≡ key r)
      → find key k (update key k p f rs) ≡ touched p f (find key k rs)
  unfolding find update
  find-update_self k p f [] hf = refl
  find-update_self k p f (r ∷ rs) hf = ground (arith, hf r, find-update_self k p f rs hf)

  pub find-update_ne :
      (k j : String) (p : R → Bool) (f : R → R) (rs : List R)
      → ((r : R) → key (f r) ≡ key r)
      → str_eq k j ≡ false
      → find key j (update key k p f rs) ≡ find key j rs
  unfolding find update
  find-update_ne k j p f [] hf ne = refl
  find-update_ne k j p f (r ∷ rs) hf ne =
      ground (
        arith,
        hf r,
        eq_iff k (key r),
        eq_iff j (key r),
        eq_iff k j,
        find-update_ne k j p f rs hf ne,
      )

  pub find-append :
      (k : String) (xs : List R) (r : R)
      → find key k (xs ++ r ∷ [])
        ≡ (if is_some (find key k xs) then find key k xs else find key k (r ∷ []))
  unfolding find
  find-append k [] r = refl
  find-append k (x ∷ xs) r = ground (arith, find-append k xs r)

  -- A row that is found has the key.
  pub find_key : (k : String) (rs : List R) (r : R) → find key k rs ≡ some r → k ≡ key r
  unfolding find
  find_key k [] r h = cc
  find_key k (x ∷ xs) r h = ground (arith, eq_iff k (key x), find_key k xs r)

  -- `rowcount` is 0 exactly when the row of the key does not pass, under a primary key.
  pub find-IsFresh : (k : String) (rs : List R) → IsFresh key k rs → find key k rs ≡ none
  unfolding find
  find-IsFresh k [] h = refl
  find-IsFresh k (x ∷ xs) h = ground (arith, find-IsFresh k xs h.1)

  pub IsFresh-find : (k : String) (rs : List R) → find key k rs ≡ none → IsFresh key k rs
  unfolding find
  IsFresh-find k [] h = tt
  IsFresh-find k (x ∷ xs) h = ground (arith, IsFresh-find k xs)

  pub rowcount-IsFresh :
      (k : String) (p : R → Bool) (rs : List R) → IsFresh key k rs → rowcount key k p rs ≡ 0
  unfolding rowcount
  rowcount-IsFresh k p [] h = refl
  rowcount-IsFresh k p (x ∷ xs) h = ground (arith, rowcount-IsFresh k p xs h.1)

  pub rowcount-find :
      (k : String) (p : R → Bool) (rs : List R)
      → IsKeyed key rs
      → rowcount key k p rs ≡ elim (find key k rs) [ none ↦ 0 | some r ↦ if p r then 1 else 0 ]
  unfolding rowcount find
  rowcount-find k p [] h = refl
  rowcount-find k p (x ∷ xs) h =
      ground (arith, eq_iff k (key x), rowcount-find k p xs h.1, rowcount-IsFresh k p xs)

  update-IsFresh :
      (j k : String) (p : R → Bool) (f : R → R) (rs : List R)
      → ((r : R) → key (f r) ≡ key r)
      → IsFresh key j rs
      → IsFresh key j (update key k p f rs)
  unfolding update
  update-IsFresh j k p f [] hf h = tt
  update-IsFresh j k p f (x ∷ xs) hf h = ground (arith, hf x, update-IsFresh j k p f xs hf h.1)

  pub update-IsKeyed :
      (k : String) (p : R → Bool) (f : R → R) (rs : List R)
      → ((r : R) → key (f r) ≡ key r)
      → IsKeyed key rs
      → IsKeyed key (update key k p f rs)
  unfolding update
  update-IsKeyed k p f [] hf h = tt
  update-IsKeyed k p f (x ∷ xs) hf h =
      ground (arith, hf x, update-IsFresh (key x) k p f xs hf h.0, update-IsKeyed k p f xs hf h.1)

  append-IsFresh :
      (j : String) (rs : List R) (r : R)
      → IsFresh key j rs
      → str_eq j (key r) ≡ false
      → IsFresh key j (rs ++ r ∷ [])
  append-IsFresh j [] r h ne = (ne, tt)
  append-IsFresh j (x ∷ xs) r h ne = (h.0, append-IsFresh j xs r h.1 ne)

  pub append-IsKeyed :
      (rs : List R) (r : R) → IsKeyed key rs → IsFresh key (key r) rs → IsKeyed key (rs ++ r ∷ [])
  append-IsKeyed [] r h fresh = (tt, tt)
  append-IsKeyed (x ∷ xs) r h fresh = (
    append-IsFresh (key x) xs r h.0
        (ground (arith, eq_iff (key r) (key x), eq_iff (key x) (key r), fresh.0)),
    append-IsKeyed xs r h.1 fresh.1,
  )
