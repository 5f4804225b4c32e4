-- ===== src/Reservations/Booking.antt =====
-- reservations/services.py: booking a table, and seating a guest from the waitlist.
pub mod Overlap
pub mod Outcomes
pub mod History
use food_tech_crm_backend.Prelude.{
  ℕ, zero, suc, ◌+◌, ◌*◌, String, Option, none, some, List, [], ◌∷◌, Bool, true, false, not, ◌&&◌,
  ◌||◌, ◌==◌, ◌==?◌, ltb, leb, any_where, first_where, rows_where, if◌then◌else◌,
}
use food_tech_crm_backend.Prelude.Table.{Table, lookup, insert, update}
use food_tech_crm_backend.Prelude.Exec.{
  Exec, Result, ok, err, pure, raise, gets, or_raise, atomic, raise_if, modify, ◌>>=◌, ◌>>◌,
}
use food_tech_crm_backend.Reservations.Db.{
  RestaurantTable, BlackoutDate, ReservationSetting, Status, pending, confirmed, seated,
  Reservation, WaitlistStatus, waiting, notified, Waitlist, Db, Error, blackout_date,
  outside_booking_window, party_size_too_large, no_table_available, waitlist_error, does_not_exist,
  integrity_error, Service,
}

-- `_DefaultReservationSettings`
abbrev pub default_settings : ReservationSetting
default_settings = record {
  default_duration_minutes = 90;
  slot_interval_minutes = 30;
  buffer_minutes = 0;
  min_advance_minutes = 0;
  max_advance_days = 60;
  max_party_size = 20;
}

unfoldable pub get_settings : ℕ → Db → ReservationSetting
get_settings location db = elim (lookup (db.businesses location) db.settings) [
  | none ↦ default_settings
  | some s ↦ s
]

-- The guest and the party, as both entry points hand them on.
pub record Guest : Type 0 where
  pub guest_name : String
  pub guest_email : String
  pub guest_phone : String
  pub party_size : ℕ

abbrev pub is_blackout : ℕ → ℕ → ℕ × BlackoutDate → Bool
is_blackout location date (_, b) = b.location == location && b.date == date

-- `now` is the clock, `date_of` the date of a time where its zone has it.
unfoldable pub validate_guest_booking_request : ℕ → (ℕ → ℕ) → ℕ → ℕ → ℕ → Service ReservationSetting
validate_guest_booking_request now date_of location start_time party_size = do
  settings ← gets (get_settings location)
  raise_if (ltb settings.max_party_size party_size) party_size_too_large
  raise_if (ltb start_time (now + settings.min_advance_minutes)) outside_booking_window
  raise_if (ltb (now + settings.max_advance_days * 1440) start_time) outside_booking_window
  raise_if (← gets (λ db. any_where (is_blackout location (date_of start_time)) db.blackout_dates))
      blackout_date
  pure settings

abbrev pub is_active_status : Status → Bool
is_active_status pending = true
is_active_status confirmed = true
is_active_status seated = true
is_active_status _ = false

-- An active reservation of the table that comes within the buffer of the time from `start` to `end`;
-- the last test is `end_time > start - buffer`.
abbrev pub occupies : ℕ → ℕ → ℕ → ℕ → ℕ × Reservation → Bool
occupies table start end buffer (_, r) =
    r.table ==? table
    && is_active_status r.status
    && ltb r.start_time (end + buffer)
    && ltb start (r.end_time + buffer)

abbrev pub is_candidate : ℕ → ℕ → ℕ × RestaurantTable → Bool
is_candidate location party_size (_, t) =
    t.location == location && t.is_active && leb party_size t.capacity

abbrev pub is_free : ℕ → ℕ → ℕ → Table Reservation → ℕ × RestaurantTable → Bool
is_free start end buffer reservations (k, _) =
    not (any_where (occupies k start end buffer) reservations)

-- `by_capacity` is the database's ordering of the tables, by capacity and name.
unfoldable pub find_table :
    (Table RestaurantTable → Table RestaurantTable)
    → ℕ
    → ℕ
    → ℕ
    → ℕ
    → ℕ
    → Db
    → Option (ℕ × RestaurantTable)
find_table by_capacity location party_size start end buffer db =
    first_where (is_free start end buffer db.reservations)
      (rows_where (is_candidate location party_size) (by_capacity db.tables))

abbrev pub has_code : ℕ → ℕ × Reservation → Bool
has_code code (_, r) = r.confirmation_code == code

-- `_save_with_generated_confirmation_code`: each attempt draws a code, and fails where the code is
-- taken or the reservation does not end after it starts.
unfoldable pub save_reservation : List ℕ → ℕ → Reservation → Service Reservation
save_reservation [] id r db = (err integrity_error, db)
save_reservation (code ∷ codes) id r db =
    let rest = save_reservation codes id r db in
    if any_where (has_code code) db.reservations || leb r.end_time r.start_time then rest else (
      ok (record r { confirmation_code = code }),
      record db {
        reservations = insert id (record r { confirmation_code = code }) db.reservations;
      },
    )

abbrev pub new_reservation : ℕ → ℕ → Guest → ℕ → ℕ → Reservation
new_reservation location table guest start duration = record {
  location = location;
  table = some table;
  guest_name = guest.guest_name;
  guest_email = guest.guest_email;
  guest_phone = guest.guest_phone;
  party_size = guest.party_size;
  start_time = start;
  end_time = start + duration;
  duration_minutes = duration;
  status = confirmed;
  confirmation_code = 0;
}

-- What a booking is given from outside: the order of the tables, the new row's key, and the codes
-- that the (at most CONFIRMATION_CODE_MAX_ATTEMPTS = 8) attempts draw.
pub record Outside : Type 0 where
  pub by_capacity : Table RestaurantTable → Table RestaurantTable
  pub id : ℕ
  pub codes : List ℕ

unfoldable pub assign_table_and_book :
    Outside → ℕ → Guest → ℕ → ℕ → ReservationSetting → Service Reservation
assign_table_and_book outside location guest start duration settings = atomic (do
  let end = start + duration
  found ←
      gets
        (find_table outside.by_capacity location guest.party_size start end settings.buffer_minutes)
  (table, _) ← or_raise found no_table_available
  save_reservation outside.codes outside.id (new_reservation location table guest start duration))

-- `duration_minutes or settings.default_duration_minutes`
abbrev pub duration_or : Option ℕ → ℕ → ℕ
duration_or none d = d
duration_or (some zero) d = d
duration_or (some (suc n)) d = suc n

unfoldable pub book_reservation :
    Outside → ℕ → (ℕ → ℕ) → ℕ → Guest → ℕ → Option ℕ → Service Reservation
book_reservation outside now date_of location guest start duration_minutes = do
  settings ← validate_guest_booking_request now date_of location start guest.party_size
  assign_table_and_book outside location guest start
      (duration_or duration_minutes settings.default_duration_minutes) settings

unfoldable pub join_waitlist : ℕ → ℕ → Guest → ℕ → Service Waitlist
join_waitlist id location guest requested_time db =
    let entry : Waitlist = record {
      location = location;
      guest_name = guest.guest_name;
      guest_email = guest.guest_email;
      guest_phone = guest.guest_phone;
      party_size = guest.party_size;
      requested_time = requested_time;
      status = waiting;
      reservation = none;
    } in
    (ok entry, record db { waitlist = insert id entry db.waitlist })

abbrev pub is_waiting : WaitlistStatus → Bool
is_waiting waiting = true
is_waiting _ = false

abbrev pub guest_of : Waitlist → Guest
guest_of w = record {
  guest_name = w.guest_name;
  guest_email = w.guest_email;
  guest_phone = w.guest_phone;
  party_size = w.party_size;
}

abbrev pub given_time : Option ℕ → ℕ → ℕ
given_time none t = t
given_time (some s) t = s

abbrev pub notify : ℕ → ℕ → Db → Db
notify pk id db = record db {
  waitlist = update pk (λ w. record w { status = notified; reservation = some id }) db.waitlist;
}

unfoldable pub convert_waitlist_entry : Outside → ℕ → Option ℕ → Option ℕ → Service Reservation
convert_waitlist_entry outside pk start_time duration_minutes = atomic (do
  locked ← or_raise (← gets (λ db. lookup pk db.waitlist)) does_not_exist
  raise_if (not (is_waiting locked.status)) waitlist_error
  settings ← gets (get_settings locked.location)
  reservation ←
      assign_table_and_book outside locked.location (guest_of locked)
        (given_time start_time locked.requested_time)
        (duration_or duration_minutes settings.default_duration_minutes) settings
  modify (notify pk outside.id)
  pure reservation)
