-- ===== src/Prelude/Table.antt =====
-- A database table: its rows with their primary keys, the newest first.
use food_tech_crm_backend.Prelude.{
  ℕ, ◌≡◌, refl, Bool, Option, none, some, List, [], ◌∷◌, arith, ◌==◌, if◌then◌else◌,
}

abbrev pub Table : Type 0 → Type 0
Table R = List (ℕ × R)

module _ {R : Type 0} where
  -- `objects.get(pk=k)`, or `none` where that raises DoesNotExist
  abbrev pub lookup : ℕ → Table R → Option R
  lookup k [] = none
  lookup k ((j, r) ∷ t) = if j == k then some r else lookup k t

  -- an INSERT; the key is fresh
  abbrev pub insert : ℕ → R → Table R → Table R
  insert k r t = (k, r) ∷ t

  -- an UPDATE of the row with this key
  abbrev pub update : ℕ → (R → R) → Table R → Table R
  update k f [] = []
  update k f ((j, r) ∷ t) = (j, if j == k then f r else r) ∷ update k f t

  -- `filter(p).update(f)`
  abbrev pub update_all : (R → Bool) → (R → R) → Table R → Table R
  update_all p f [] = []
  update_all p f ((j, r) ∷ t) = (j, if p r then f r else r) ∷ update_all p f t

  abbrev pub map_row : (R → R) → Option R → Option R
  map_row f none = none
  map_row f (some r) = some (f r)

  pub lookup-update :
      (k j : ℕ) (f : R → R) (t : Table R)
      → lookup j (update k f t) ≡ (if k == j then map_row f (lookup j t) else lookup j t)
  lookup-update k j f [] = ground arith
  lookup-update k j f ((i, r) ∷ t) = ground (arith, lookup-update k j f t)

  pub lookup-update_all :
      (j : ℕ) (p : R → Bool) (f : R → R) (t : Table R)
      → lookup j (update_all p f t) ≡ map_row (λ r. if p r then f r else r) (lookup j t)
  lookup-update_all j p f [] = refl
  lookup-update_all j p f ((i, r) ∷ t) = ground (arith, lookup-update_all j p f t)
