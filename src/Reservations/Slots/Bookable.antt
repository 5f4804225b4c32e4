-- ===== src/Reservations/Slots/Bookable.antt =====
-- The slots that are offered against the bookings that are accepted.
use food_tech_crm_backend.Prelude.{
  ℕ, suc, ◌+◌, ◌*◌, ◌≤◌, ◌<◌, Option, none, some, Option-cases, List, [], ◌∷◌, ◌≡◌, arith, refl,
  sym, ◌∙◌, Bool, true, false, ◌&&◌, leb, Bool-cases, inl, inr, any_where, first_where, rows_where,
  if◌then◌else◌, is_some,
}
use food_tech_crm_backend.Prelude.Table.{Table}
use food_tech_crm_backend.Prelude.Exec.{atomic}
use food_tech_crm_backend.Core.Recurrence.{weekday}
use food_tech_crm_backend.Reservations.Db.{RestaurantTable, ReservationSetting, Db}
use food_tech_crm_backend.Reservations.Booking.{
  Outside, Guest, get_settings, is_blackout, is_candidate, is_free, find_table, duration_or,
  save_reservation, new_reservation, book_reservation,
}
use food_tech_crm_backend.Reservations.Booking.Outcomes.{book_reservation_lem}
use food_tech_crm_backend.Reservations.Slots.{
  is_day, hours_of, is_available, is_of_day, is_empty, day_slots, get_available_slots,
}
use food_tech_crm_backend.Reservations.Slots.Day.{
  any_where-rows_where, first_where-is_some, day_available,
}
use food_tech_crm_backend.Reservations.Slots.Loop.{
  offers, slots_from-IsFound, slots_from-all, slots_from-some,
}

-- A table is found where a table of the location, in any order, is free.
find_table-is_some :
    (by_capacity : Table RestaurantTable → Table RestaurantTable)
    (location party_size start end buffer : ℕ) (db : Db)
    → ((p : ℕ × RestaurantTable → Bool)
        → any_where p (by_capacity db.tables) ≡ any_where p db.tables)
    → is_some (find_table by_capacity location party_size start end buffer db)
      ≡ any_where
          (is_free start end buffer db.reservations)
          (rows_where (is_candidate location party_size) db.tables)
unfolding find_table
find_table-is_some by_capacity location party_size start end buffer db reorders =
    let free = is_free start end buffer db.reservations in
    let candidate = is_candidate location party_size in
    first_where-is_some free (rows_where candidate (by_capacity db.tables))
    ∙ any_where-rows_where free candidate (by_capacity db.tables)
    ∙ reorders (λ t. candidate t && free t)
    ∙ sym (any_where-rows_where free candidate db.tables)

-- What a booking tests of a start time, besides the party and the blackout dates.
abbrev pub is_bookable : ℕ → ℕ → ℕ → ℕ → Db → ℕ → Bool
is_bookable now duration location party_size db start =
    let settings = get_settings location db in
    leb (now + settings.min_advance_minutes) start
    && leb start (now + settings.max_advance_days * 1440)
    && any_where (is_free start (start + duration) settings.buffer_minutes db.reservations)
        (rows_where (is_candidate location party_size) db.tables)

module _ (now duration location party_size : ℕ) (db : Db) (day_start day_close : ℕ) where
  abbrev settings : ReservationSetting
  settings = get_settings location db

  abbrev tables : Table RestaurantTable
  tables = rows_where (is_candidate location party_size) db.tables

  abbrev available : ℕ → Bool
  available =
      is_available (now + settings.min_advance_minutes) (now + settings.max_advance_days * 1440)
        duration settings.buffer_minutes tables
        (rows_where (is_of_day tables day_start day_close settings.buffer_minutes) db.reservations)

  available_lem :
      (s : ℕ)
      → day_start ≤ s
      → s + duration ≤ day_close
      → available s ≡ is_bookable now duration location party_size db s
  available_lem s h l =
      rw
        (day_available tables day_start day_close settings.buffer_minutes s (s + duration)
          db.reservations h l)
        refl

  day_slots-bookable :
      (fuel : ℕ) (slots : List ℕ) (s : ℕ)
      → day_slots fuel now duration settings tables db (day_start, day_close) ≡ some slots
      → offers s slots ≡ true
      → is_bookable now duration location party_size db s ≡ true
  unfolding day_slots
  day_slots-bookable fuel slots s e o =
      let (a, h, l) =
        slots_from-IsFound available duration day_close settings.slot_interval_minutes fuel
          day_start slots s e o in
      sym (available_lem s h l) ∙ a

  -- With an interval above 0 the loop ends, and a bookable time of the grid is offered.
  day_slots_complete :
      (fuel n : ℕ)
      → 0 < settings.slot_interval_minutes
      → day_close < day_start + fuel
      → day_start + n * settings.slot_interval_minutes + duration ≤ day_close
      → is_bookable now duration location party_size db
          (day_start + n * settings.slot_interval_minutes)
        ≡ true
      → (slots : List ℕ) × (day_slots
            (suc fuel)
            now
            duration
            settings
            tables
            db
            (day_start, day_close)
          ≡ some slots)
        × (offers (day_start + n * settings.slot_interval_minutes) slots ≡ true)
  unfolding day_slots
  day_slots_complete fuel n i e l b =
      let (slots, r) =
        slots_from-some available duration day_close settings.slot_interval_minutes fuel day_start i
          e in
      (
        slots,
        r,
        slots_from-all available duration day_close settings.slot_interval_minutes n (suc fuel)
            day_start slots r l (available_lem _ (omega arith) l ∙ b),
      )

-- The hours of a location on a date, from the times it opens to the time it closes.
abbrev pub opening : (ℕ → ℕ → ℕ) → ℕ → ℕ → Db → Option (ℕ × ℕ)
opening at location date db =
    elim (hours_of (first_where (is_day location (weekday date)) db.business_hours)) [
      | none ↦ none
      | some (opens, closes) ↦ some (at date opens, at date closes)
    ]

get_available_slots_lem :
    (fuel : ℕ) (at : ℕ → ℕ → ℕ) (now location date party_size : ℕ) (minutes : Option ℕ) (db : Db)
    → let settings = get_settings location db in
      let tables = rows_where (is_candidate location party_size) db.tables in
      get_available_slots fuel at now location date party_size minutes db ≡ (
        if any_where (is_blackout location date) db.blackout_dates
        then some []
        else elim (opening at location date db) [
          | none ↦ some []
          | some day ↦
              if is_empty tables
              then some []
              else day_slots fuel now
                  (duration_or minutes settings.default_duration_minutes)
                  settings
                  tables
                  db
                  day
        ])
unfolding get_available_slots
get_available_slots_lem fuel at now location date party_size minutes db = ground arith

none_offered :
    {A : Type 0} (slots : List ℕ) (s : ℕ) → some [] ≡ some slots → offers s slots ≡ true → A
none_offered [] s e o = ground arith
none_offered (_ ∷ _) s e o = ground arith

get_available_slots-bookable :
    (fuel : ℕ) (at : ℕ → ℕ → ℕ) (now location date party_size : ℕ) (minutes : Option ℕ) (db : Db)
    (slots : List ℕ) (s : ℕ)
    → get_available_slots fuel at now location date party_size minutes db ≡ some slots
    → offers s slots ≡ true
    → let duration = duration_or minutes (get_settings location db).default_duration_minutes in
      (any_where (is_blackout location date) db.blackout_dates ≡ false)
      × (is_bookable now duration location party_size db s ≡ true)
get_available_slots-bookable fuel at now location date party_size minutes db slots s e o =
    let lem = get_available_slots_lem fuel at now location date party_size minutes db in
    elim (Bool-cases (any_where (is_blackout location date) db.blackout_dates)) [
      | inl b ↦ none_offered slots s (rw (sym e, lem, b) refl) o
      | inr b ↦ elim (Option-cases (opening at location date db)) [
        | inl c ↦ none_offered slots s (rw (sym e, lem, b, c) refl) o
        | inr ((day_start, day_close), c) ↦
            elim (Bool-cases (is_empty (rows_where (is_candidate location party_size) db.tables))) [
              | inl d ↦ none_offered slots s (rw (sym e, lem, b, c, d) refl) o
              | inr d ↦ (
                b,
                day_slots-bookable now _ location party_size db day_start day_close fuel slots s
                    (rw (sym e, lem, b, c, d) refl) o,
              )
            ]
      ]
    ]

-- A start time that is offered can be booked: in the same state and at the same time, a booking of
-- it by a guest whose party has the size asked for, which is not above the maximum, with the same
-- duration, is not refused: it comes to saving a reservation of some table for that time. This is
-- where the time falls on the date asked for, and the database's order of the tables has every table.
pub get_available_slots-book_reservation :
    (outside : Outside) (fuel : ℕ) (at : ℕ → ℕ → ℕ) (now : ℕ) (date_of : ℕ → ℕ) (location date : ℕ)
    (guest : Guest) (minutes : Option ℕ) (db : Db) (slots : List ℕ) (s : ℕ)
    → ((p : ℕ × RestaurantTable → Bool)
        → any_where p (outside.by_capacity db.tables) ≡ any_where p db.tables)
    → leb guest.party_size (get_settings location db).max_party_size ≡ true
    → date_of s ≡ date
    → get_available_slots fuel at now location date guest.party_size minutes db ≡ some slots
    → offers s slots ≡ true
    → let duration = duration_or minutes (get_settings location db).default_duration_minutes in
      (table : ℕ) × (book_reservation outside now date_of location guest s minutes db
        ≡ atomic
            (save_reservation outside.codes outside.id
              (new_reservation location table guest s duration))
            db)
get_available_slots-book_reservation outside fuel at now date_of location date guest minutes db
      slots s reorders small on e o =
    let (open_day, bookable) =
      get_available_slots-bookable fuel at now location date guest.party_size minutes db slots s e
        o in
    let settings = get_settings location db in
    let duration = duration_or minutes settings.default_duration_minutes in
    let found =
      find_table-is_some outside.by_capacity location guest.party_size s (s + duration)
        settings.buffer_minutes db reorders in
    elim (Option-cases (
      find_table outside.by_capacity location guest.party_size s (s + duration)
        settings.buffer_minutes db)) [
          | inl none_found ↦ ground arith
          | inr ((table, t), some_found) ↦ (
            table,
            book_reservation_lem outside now date_of location guest s minutes db ∙ ground arith,
          )
        ]

has_tables :
    (p : ℕ × RestaurantTable → Bool) (ts : Table RestaurantTable)
    → any_where p ts ≡ true
    → is_empty ts ≡ false
has_tables p [] h = ground arith
has_tables p (_ ∷ _) h = refl

-- On a day that is open and no blackout date, with an interval above 0 and fuel for the minutes it is
-- open, the search ends, and it offers each time of its grid that is inside the booking window, is over
-- before the day closes, and for which a booking finds a table, the database's order having every table.
pub get_available_slots_complete :
    (by_capacity : Table RestaurantTable → Table RestaurantTable) (fuel : ℕ) (at : ℕ → ℕ → ℕ)
    (now location date party_size : ℕ) (minutes : Option ℕ) (db : Db) (day_start day_close n : ℕ)
    (table : ℕ × RestaurantTable)
    → let settings = get_settings location db in
      let duration = duration_or minutes settings.default_duration_minutes in
      let s = day_start + n * settings.slot_interval_minutes in
      ((p : ℕ × RestaurantTable → Bool)
        → any_where p (by_capacity db.tables) ≡ any_where p db.tables)
      → any_where (is_blackout location date) db.blackout_dates ≡ false
      → opening at location date db ≡ some (day_start, day_close)
      → 0 < settings.slot_interval_minutes
      → day_close < day_start + fuel
      → s + duration ≤ day_close
      → leb (now + settings.min_advance_minutes) s ≡ true
      → leb s (now + settings.max_advance_days * 1440) ≡ true
      → find_table by_capacity location party_size s (s + duration) settings.buffer_minutes db
        ≡ some table
      → (slots : List ℕ) × (get_available_slots
            (suc fuel)
            at
            now
            location
            date
            party_size
            minutes
            db
          ≡ some slots)
        × (offers s slots ≡ true)
get_available_slots_complete by_capacity fuel at now location date party_size minutes db day_start
      day_close n table reorders b c i e l early late t =
    let settings = get_settings location db in
    let duration = duration_or minutes settings.default_duration_minutes in
    let s = day_start + n * settings.slot_interval_minutes in
    let found =
      find_table-is_some by_capacity location party_size s (s + duration) settings.buffer_minutes db
        reorders in
    let free : any_where (is_free s (s + duration) settings.buffer_minutes db.reservations)
          (rows_where (is_candidate location party_size) db.tables)
        ≡ true =
      ground arith in
    let d = has_tables _ (rows_where (is_candidate location party_size) db.tables) free in
    let (slots, r, o) =
      day_slots_complete now duration location party_size db day_start day_close fuel n i e l
        (rw (early, late, free) refl) in
    (
      slots,
      rw (get_available_slots_lem (suc fuel) at now location date party_size minutes db, b, c, d, r)
          refl,
      o,
    )
