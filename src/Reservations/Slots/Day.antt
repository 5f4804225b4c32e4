-- ===== src/Reservations/Slots/Day.antt =====
-- The query for the whole day against the queries that a booking makes, and the loop over the slots.
use food_tech_crm_backend.Prelude.{
  ℕ, ◌≤◌, Option, none, some, List, [], ◌∷◌, ◌≡◌, arith, refl, sym, ap, ◌∙◌, subst, ==_iff, Bool,
  true, ◌&&◌, ◌==◌, Bool-cases, inl, inr, any_where, first_where, rows_where, is_some,
}
use food_tech_crm_backend.Prelude.Table.{Table}
use food_tech_crm_backend.Reservations.Db.{RestaurantTable, Reservation}
use food_tech_crm_backend.Reservations.Booking.{occupies, is_free}
use food_tech_crm_backend.Reservations.Slots.{is_among, is_of_day, conflicts, has_room}

module _ {A : Type 0} (p q : A → Bool) where
  -- Filtering by one test and searching by another is searching by both.
  pub any_where-rows_where :
      (xs : List A) → any_where p (rows_where q xs) ≡ any_where (λ x. q x && p x) xs
  any_where-rows_where [] = refl
  any_where-rows_where (x ∷ xs) = elim (Bool-cases (q x)) [
    | inl e ↦ ground (arith, any_where-rows_where xs)
    | inr e ↦ ground (arith, any_where-rows_where xs)
  ]

  pub any_where-same : (xs : List A) → ((x : A) → p x ≡ q x) → any_where p xs ≡ any_where q xs
  any_where-same [] h = refl
  any_where-same (x ∷ xs) h = elim (Bool-cases (q x)) [
    | inl e ↦ ground (arith, h x, any_where-same xs h)
    | inr e ↦ ground (arith, h x, any_where-same xs h)
  ]

pub first_where-is_some :
    {A : Type 0} (p : A → Bool) (xs : List A) → is_some (first_where p xs) ≡ any_where p xs
first_where-is_some p [] = refl
first_where-is_some p (x ∷ xs) = elim (Bool-cases (p x)) [
  | inl e ↦ ground arith
  | inr e ↦ ground (arith, first_where-is_some p xs)
]

module _ (tables : Table RestaurantTable) (day_start day_close buffer : ℕ) where
  -- Of a slot within the day, a reservation of the day that conflicts is one that occupies the table.
  of_day_conflict :
      (k start end : ℕ) (x : ℕ × Reservation)
      → is_among tables (some k) ≡ true
      → day_start ≤ start
      → end ≤ day_close
      → (is_of_day tables day_start day_close buffer x && conflicts k start end buffer x)
        ≡ occupies k start end buffer x
  of_day_conflict k start end (i, r) among h l = row r.table refl
    where
      day :
          r.table ≡ some k
          → (is_of_day tables day_start day_close buffer (i, r)
              && conflicts k start end buffer (i, r))
            ≡ occupies k start end buffer (i, r)
      day e =
          let listed : is_among tables r.table ≡ true =
            subst (λ o. is_among tables o ≡ true) (sym e) among in
          ground arith

      row :
          (o : Option ℕ)
          → r.table ≡ o
          → (is_of_day tables day_start day_close buffer (i, r)
              && conflicts k start end buffer (i, r))
            ≡ occupies k start end buffer (i, r)
      row none e = ground arith
      row (some j) e = elim (Bool-cases (j == k)) [
        | inr f ↦ ground arith
        | inl f ↦ day (e ∙ ap some ((==_iff j k).0 f))
      ]

  -- What the one query shows of a table of the day is what the booking's own query of it shows.
  day_query :
      (k start end : ℕ) (rs : Table Reservation)
      → is_among tables (some k) ≡ true
      → day_start ≤ start
      → end ≤ day_close
      → any_where
          (conflicts k start end buffer)
          (rows_where (is_of_day tables day_start day_close buffer) rs)
        ≡ any_where (occupies k start end buffer) rs
  day_query k start end rs among h l =
      any_where-rows_where (conflicts k start end buffer)
        (is_of_day tables day_start day_close buffer) rs
      ∙ any_where-same _ (occupies k start end buffer) rs
          (λ x. of_day_conflict k start end x among h l)

  day_room :
      (start end : ℕ) (rs : Table Reservation)
      → day_start ≤ start
      → end ≤ day_close
      → (some_tables : Table RestaurantTable)
      → ((k : ℕ) → is_among some_tables (some k) ≡ true → is_among tables (some k) ≡ true)
      → any_where
          (has_room start end buffer (rows_where (is_of_day tables day_start day_close buffer) rs))
          some_tables
        ≡ any_where (is_free start end buffer rs) some_tables
  day_room start end rs h l [] listed = refl
  day_room start end rs h l ((k, t) ∷ ts) listed =
      let rest = day_room start end rs h l ts (λ j e. listed j (ground arith)) in
      let first = day_query k start end rs (listed k (ground arith)) h l in
      elim (Bool-cases (any_where (occupies k start end buffer) rs)) [
        | inl e ↦ ground (arith, rest, first)
        | inr e ↦ ground (arith, rest, first)
      ]

  -- Of a slot within the day, the search over the day's reservations finds a table where there is a
  -- table that is free for a booking.
  pub day_available :
      (start end : ℕ) (rs : Table Reservation)
      → day_start ≤ start
      → end ≤ day_close
      → any_where
          (has_room start end buffer (rows_where (is_of_day tables day_start day_close buffer) rs))
          tables
        ≡ any_where (is_free start end buffer rs) tables
  day_available start end rs h l = day_room start end rs h l tables (λ _ e. e)
