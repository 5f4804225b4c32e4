-- ===== src/Reservations/Booking/Overlap.antt =====
-- No table is booked twice: two active reservations of a table never overlap in time.
use food_tech_crm_backend.Prelude.{
  ℕ, ◌+◌, Option, none, some, Option-cases, List, [], ◌∷◌, ◌≡◌, arith, refl, leb, Bool, false, ◌&&◌,
  ◌||◌, inl, inr, any_where, first_where, rows_where, if◌then◌else◌,
}
use food_tech_crm_backend.Prelude.Table.{Table, lookup, insert}
use food_tech_crm_backend.Prelude.Exec.{
  ok, err, pure, modify, atomic, ◌>>=◌, ◌>>◌, atomic_keeps, bind_keeps, if_keeps,
}
use food_tech_crm_backend.Reservations.Db.{
  RestaurantTable, ReservationSetting, Reservation, Waitlist, Db, no_table_available,
  waitlist_error, Service,
}
use food_tech_crm_backend.Reservations.Booking.{
  Outside, Guest, is_active_status, occupies, is_free, find_table, save_reservation,
  new_reservation, assign_table_and_book, get_settings, validate_guest_booking_request,
  book_reservation, join_waitlist, is_waiting, notify, duration_or, given_time, guest_of, has_code,
  convert_waitlist_entry,
}

-- Two active reservations of one table, in overlapping times.
abbrev pub clashes : Reservation → ℕ × Reservation → Bool
clashes r x = elim r.table [
  | none ↦ false
  | some table ↦ is_active_status r.status && occupies table r.start_time r.end_time 0 x
]

-- No reservation clashes with an earlier one.
abbrev pub NoDoubleBooking : Table Reservation → Type 0
NoDoubleBooking [] = Unit
NoDoubleBooking ((_, r) ∷ t) = (any_where (clashes r) t ≡ false) × NoDoubleBooking t

abbrev pub IsSingleBooked : Db → Type 0
IsSingleBooked db = NoDoubleBooking db.reservations

-- A time that is free with a buffer is free.
free_without_buffer :
    (table start end buffer : ℕ) (t : Table Reservation)
    → any_where (occupies table start end buffer) t ≡ false
    → any_where (occupies table start end 0) t ≡ false
free_without_buffer table start end buffer [] h = refl
free_without_buffer table start end buffer ((k, r) ∷ t) h =
    ground (arith, free_without_buffer table start end buffer t)

-- The table that is found is free.
find_table-free :
    (by_capacity : Table RestaurantTable → Table RestaurantTable)
    (location party_size start end buffer : ℕ) (db : Db) (k : ℕ) (table : RestaurantTable)
    → find_table by_capacity location party_size start end buffer db ≡ some (k, table)
    → any_where (occupies k start end buffer) db.reservations ≡ false
unfolding find_table
find_table-free by_capacity location party_size start end buffer db k table h =
    first_free (rows_where _ (by_capacity db.tables)) h
  where
    first_free :
        (ts : Table RestaurantTable)
        → first_where (is_free start end buffer db.reservations) ts ≡ some (k, table)
        → any_where (occupies k start end buffer) db.reservations ≡ false
    first_free [] h = ground arith
    first_free ((j, t) ∷ ts) h = ground (arith, first_free ts)

save_reservation-IsSingleBooked :
    (codes : List ℕ) (id : ℕ) (r : Reservation) (db : Db)
    → any_where (clashes r) db.reservations ≡ false
    → IsSingleBooked db
    → IsSingleBooked (save_reservation codes id r db).1
unfolding save_reservation
save_reservation-IsSingleBooked [] id r db free h = h
save_reservation-IsSingleBooked (code ∷ codes) id r db free h =
    if_keeps IsSingleBooked
      (any_where (has_code code) db.reservations || leb r.end_time r.start_time)
      (save_reservation codes id r db)
      (
        ok (record r { confirmation_code = code }),
        record db {
          reservations = insert id (record r { confirmation_code = code }) db.reservations;
        },
      )
      (λ _. save_reservation-IsSingleBooked codes id r db free h) (λ _. (free, h))

assign_lem :
    (outside : Outside) (location : ℕ) (guest : Guest) (start duration : ℕ)
    (settings : ReservationSetting) (db : Db)
    → let found =
        find_table outside.by_capacity location guest.party_size start
          (start + duration)
          settings.buffer_minutes
          db in
      assign_table_and_book outside location guest start duration settings db ≡ elim found [
        | none ↦ (err no_table_available, db)
        | some (table, _) ↦
            atomic
              (save_reservation outside.codes outside.id
                (new_reservation location table guest start duration))
              db
      ]
unfolding assign_table_and_book
assign_lem outside location guest start duration settings db = ground arith

assign_table_and_book-IsSingleBooked :
    (outside : Outside) (location : ℕ) (guest : Guest) (start duration : ℕ)
    (settings : ReservationSetting) (db : Db)
    → IsSingleBooked db
    → IsSingleBooked (assign_table_and_book outside location guest start duration settings db).1
assign_table_and_book-IsSingleBooked outside location guest start duration settings db h =
    rw (assign_lem outside location guest start duration settings db)
      (elim (Option-cases (
        find_table outside.by_capacity location guest.party_size start (start + duration)
          settings.buffer_minutes db)) [
            | inl e ↦ rw e h
            | inr ((table, t), e) ↦ rw e (
                atomic_keeps IsSingleBooked
                  (save_reservation outside.codes outside.id
                    (new_reservation location table guest start duration))
                  db h
                  (save_reservation-IsSingleBooked outside.codes outside.id
                    (new_reservation location table guest start duration) db
                    (free_without_buffer table start (start + duration) settings.buffer_minutes
                      db.reservations
                      (find_table-free outside.by_capacity location guest.party_size start
                        (start + duration) settings.buffer_minutes db table t e))
                    h))
          ])

validate-same :
    (now : ℕ) (date_of : ℕ → ℕ) (location start party_size : ℕ) (db : Db)
    → (validate_guest_booking_request now date_of location start party_size db).1 ≡ db
unfolding validate_guest_booking_request
validate-same now date_of location start party_size db = ground arith

pub book_reservation-IsSingleBooked :
    (outside : Outside) (now : ℕ) (date_of : ℕ → ℕ) (location : ℕ) (guest : Guest) (start : ℕ)
    (duration : Option ℕ) (db : Db)
    → IsSingleBooked db
    → IsSingleBooked (book_reservation outside now date_of location guest start duration db).1
unfolding book_reservation
book_reservation-IsSingleBooked outside now date_of location guest start duration db h =
    bind_keeps IsSingleBooked
      (validate_guest_booking_request now date_of location start guest.party_size) book db
      (rw (validate-same now date_of location start guest.party_size db) h)
      (λ settings db' h'.
        assign_table_and_book-IsSingleBooked outside location guest start _ settings db' h')
  where
    book : ReservationSetting → Service Reservation
    book settings =
        assign_table_and_book outside location guest start
          (duration_or duration settings.default_duration_minutes) settings

pub join_waitlist-IsSingleBooked :
    (id location : ℕ) (guest : Guest) (time : ℕ) (db : Db)
    → IsSingleBooked db
    → IsSingleBooked (join_waitlist id location guest time db).1
unfolding join_waitlist
join_waitlist-IsSingleBooked id location guest time db h = h

-- what stands after the guards of `convert_waitlist_entry`
abbrev book_entry :
    Outside → Option ℕ → Option ℕ → Waitlist → ReservationSetting → Service Reservation
book_entry outside start duration w settings =
    assign_table_and_book outside w.location (guest_of w) (given_time start w.requested_time)
      (duration_or duration settings.default_duration_minutes) settings

abbrev seat_entry :
    Outside → ℕ → Option ℕ → Option ℕ → Waitlist → ReservationSetting → Service Reservation
seat_entry outside pk start duration w settings = do
  reservation ← book_entry outside start duration w settings
  modify (notify pk outside.id)
  pure reservation

convert_waitlist_entry_lem :
    (outside : Outside) (pk : ℕ) (start duration : Option ℕ) (w : Waitlist) (db : Db)
    → lookup pk db.waitlist ≡ some w
    → let settings = get_settings w.location db in
      convert_waitlist_entry outside pk start duration db ≡ (
        if is_waiting w.status
        then atomic (seat_entry outside pk start duration w settings) db
        else (err waitlist_error, db))
unfolding convert_waitlist_entry
convert_waitlist_entry_lem outside pk start duration w db row = ground arith

convert_waitlist_entry_missing :
    (outside : Outside) (pk : ℕ) (start duration : Option ℕ) (db : Db)
    → lookup pk db.waitlist ≡ none
    → (convert_waitlist_entry outside pk start duration db).1 ≡ db
unfolding convert_waitlist_entry
convert_waitlist_entry_missing outside pk start duration db e = ground arith

pub convert_waitlist_entry-IsSingleBooked :
    (outside : Outside) (pk : ℕ) (start duration : Option ℕ) (db : Db)
    → IsSingleBooked db
    → IsSingleBooked (convert_waitlist_entry outside pk start duration db).1
convert_waitlist_entry-IsSingleBooked outside pk start duration db h =
    elim (Option-cases (lookup pk db.waitlist)) [
      | inl e ↦ rw (convert_waitlist_entry_missing outside pk start duration db e) h
      | inr (w, row) ↦
          let settings = get_settings w.location db in
          let book = book_entry outside start duration w settings in
          rw (convert_waitlist_entry_lem outside pk start duration w db row) (
            if_keeps IsSingleBooked (is_waiting w.status)
              (atomic (seat_entry outside pk start duration w settings) db) (err waitlist_error, db)
              (λ _.
                atomic_keeps IsSingleBooked (seat_entry outside pk start duration w settings) db h (
                  bind_keeps IsSingleBooked book (λ r. modify (notify pk outside.id) >> pure r) db
                    (assign_table_and_book-IsSingleBooked outside w.location (guest_of w) _ _
                      settings db h)
                    (λ _ _ h'. h')))
              (λ _. h))
    ]
