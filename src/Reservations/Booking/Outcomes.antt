-- ===== src/Reservations/Booking/Outcomes.antt =====
-- What a booking does on every branch, which table it takes, and what the retries of the
-- confirmation code come to.
use food_tech_crm_backend.Prelude.{
  ℕ, ◌+◌, ◌*◌, Option, none, some, List, [], ◌∷◌, ◌≡◌, arith, refl, ltb, leb, Bool, true, false,
  not, ◌&&◌, Bool-cases, inl, inr, any_where, first_where, rows_where, if◌then◌else◌,
}
use food_tech_crm_backend.Prelude.Table.{Table, lookup, insert}
use food_tech_crm_backend.Prelude.Exec.{ok, err, atomic}
use food_tech_crm_backend.Reservations.Db.{
  RestaurantTable, Reservation, Waitlist, Db, blackout_date, outside_booking_window,
  party_size_too_large, no_table_available, waitlist_error, integrity_error,
}
use food_tech_crm_backend.Reservations.Booking.{
  Outside, Guest, occupies, is_blackout, is_candidate, is_free, has_code, find_table,
  save_reservation, new_reservation, assign_table_and_book, get_settings,
  validate_guest_booking_request, book_reservation, duration_or, is_waiting, convert_waitlist_entry,
}

abbrev pub is_untaken : Table Reservation → ℕ → Bool
is_untaken reservations code = not (any_where (has_code code) reservations)

-- The attempts at a confirmation code come to this: a reservation that ends after it starts is stored
-- under the first code drawn that is not taken, and where every code drawn is taken the call fails
-- and nothing changes.
pub save_reservation_lem :
    (codes : List ℕ) (id : ℕ) (r : Reservation) (db : Db)
    → leb r.end_time r.start_time ≡ false
    → save_reservation codes id r db ≡ elim (first_where (is_untaken db.reservations) codes) [
      | none ↦ (err integrity_error, db)
      | some code ↦ (
        ok (record r { confirmation_code = code }),
        record db {
          reservations = insert id (record r { confirmation_code = code }) db.reservations;
        },
      )
    ]
unfolding save_reservation
save_reservation_lem [] id r db ends = refl
save_reservation_lem (code ∷ codes) id r db ends =
    elim (Bool-cases (any_where (has_code code) db.reservations)) [
      | inl taken ↦ rw (ends, taken) (save_reservation_lem codes id r db ends)
      | inr free ↦ rw (ends, free) refl
    ]

-- A guest's booking, on every branch: it is refused, and nothing changes, for a party above the
-- maximum, a start outside the booking window, a blackout date, or where no table is found, tested
-- in this order; otherwise the reservation of the table found is stored, or nothing at all.
pub book_reservation_lem :
    (outside : Outside) (now : ℕ) (date_of : ℕ → ℕ) (location : ℕ) (guest : Guest) (start : ℕ)
    (minutes : Option ℕ) (db : Db)
    → let s = get_settings location db in
      let duration = duration_or minutes s.default_duration_minutes in
      let found =
        find_table outside.by_capacity location guest.party_size start
          (start + duration)
          s.buffer_minutes
          db in
      book_reservation outside now date_of location guest start minutes db ≡ (
        if ltb s.max_party_size guest.party_size
        then (err party_size_too_large, db)
        else if ltb start (now + s.min_advance_minutes)
        then (err outside_booking_window, db)
        else if ltb (now + s.max_advance_days * 1440) start
        then (err outside_booking_window, db)
        else if any_where (is_blackout location (date_of start)) db.blackout_dates
        then (err blackout_date, db)
        else elim found [
          | none ↦ (err no_table_available, db)
          | some (table, _) ↦
              atomic
                (save_reservation outside.codes outside.id
                  (new_reservation location table guest start duration))
                db
        ])
unfolding book_reservation validate_guest_booking_request assign_table_and_book
book_reservation_lem outside now date_of location guest start minutes db = ground arith

-- What is said of the table that is found among `tables`, or of all of them where none is.
abbrev pub IsFit :
    Table RestaurantTable
    → ℕ
    → ℕ
    → ℕ
    → ℕ
    → ℕ
    → Table Reservation
    → Option (ℕ × RestaurantTable)
    → Type 0
IsFit tables location party_size start end buffer reservations none =
    any_where (λ t. is_candidate location party_size t && is_free start end buffer reservations t)
      tables
    ≡ false
IsFit tables location party_size start end buffer reservations (some (k, t)) =
    (is_candidate location party_size (k, t) ≡ true)
    × (any_where (occupies k start end buffer) reservations ≡ false)

first_where-rows_where :
    {A : Type 0} (p q : A → Bool) (x : A) (xs : List A)
    → first_where p (rows_where q (x ∷ xs))
      ≡ (if q x && p x then some x else first_where p (rows_where q xs))
first_where-rows_where p q x xs = cases (q x) (p x) refl refl
  where
    cases :
        (b c : Bool)
        → q x ≡ b
        → p x ≡ c
        → first_where p (rows_where q (x ∷ xs))
          ≡ (if b && c then some x else first_where p (rows_where q xs))
    cases b c e f = ground arith

first_free-IsFit :
    (location party_size start end buffer : ℕ) (reservations : Table Reservation)
    (tables : Table RestaurantTable)
    → IsFit tables location party_size start end buffer reservations (
        first_where
          (is_free start end buffer reservations)
          (rows_where (is_candidate location party_size) tables))
first_free-IsFit location party_size start end buffer reservations [] = refl
first_free-IsFit location party_size start end buffer reservations ((k, t) ∷ tables) =
    rw
      (first_where-rows_where (is_free start end buffer reservations)
        (is_candidate location party_size) (k, t) tables)
      (elim (Bool-cases (is_candidate location party_size (k, t))) [
        | inr e ↦
            rw e
              (skip _ e (first_free-IsFit location party_size start end buffer reservations tables))
        | inl e ↦ elim (Bool-cases (any_where (occupies k start end buffer) reservations)) [
          | inr f ↦ rw (e, f) (e, f)
          | inl f ↦
              rw (e, f)
                (skip_taken _ f
                  (first_free-IsFit location party_size start end buffer reservations tables))
        ]
      ])
  where
    skip :
        (o : Option (ℕ × RestaurantTable))
        → is_candidate location party_size (k, t) ≡ false
        → IsFit tables location party_size start end buffer reservations o
        → IsFit ((k, t) ∷ tables) location party_size start end buffer reservations o
    skip none e h = ground arith
    skip (some _) e h = h

    skip_taken :
        (o : Option (ℕ × RestaurantTable))
        → any_where (occupies k start end buffer) reservations ≡ true
        → IsFit tables location party_size start end buffer reservations o
        → IsFit ((k, t) ∷ tables) location party_size start end buffer reservations o
    skip_taken none e h = ground arith
    skip_taken (some _) e h = h

-- A table that is found is an active one of the location, has room for the party, and is free with
-- the buffer on both sides; and none is found only where every such table is taken.
pub find_table-IsFit :
    (by_capacity : Table RestaurantTable → Table RestaurantTable)
    (location party_size start end buffer : ℕ) (db : Db)
    → IsFit
        (by_capacity db.tables)
        location
        party_size
        start
        end
        buffer
        db.reservations
        (find_table by_capacity location party_size start end buffer db)
unfolding find_table
find_table-IsFit by_capacity location party_size start end buffer db =
    first_free-IsFit location party_size start end buffer db.reservations (by_capacity db.tables)

-- An entry that is not waiting is not seated: the call is refused and nothing changes.
pub convert_waitlist_entry-seated :
    (outside : Outside) (pk : ℕ) (start minutes : Option ℕ) (w : Waitlist) (db : Db)
    → lookup pk db.waitlist ≡ some w
    → is_waiting w.status ≡ false
    → convert_waitlist_entry outside pk start minutes db ≡ (err waitlist_error, db)
unfolding convert_waitlist_entry
convert_waitlist_entry-seated outside pk start minutes w db row done = ground arith
