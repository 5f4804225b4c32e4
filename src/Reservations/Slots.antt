-- ===== src/Reservations/Slots.antt =====
-- reservations/services.py: `get_available_slots`, the start times that are offered for a day.
mod Day
mod Loop
mod Tests
pub mod Bookable
use food_tech_crm_backend.Prelude.{
  ℕ, zero, suc, ◌+◌, ◌*◌, Option, none, some, List, [], ◌∷◌, Bool, true, false, not, ◌&&◌, ◌==◌,
  ◌==?◌, ltb, leb, any_where, first_where, rows_where, if◌then◌else◌,
}
use food_tech_crm_backend.Prelude.Table.{Table}
use food_tech_crm_backend.Core.Recurrence.{weekday}
use food_tech_crm_backend.Reservations.Db.{
  RestaurantTable, BusinessHours, ReservationSetting, Reservation, Db,
}
use food_tech_crm_backend.Reservations.Booking.{
  get_settings, is_blackout, is_active_status, is_candidate, duration_or,
}

abbrev pub is_day : ℕ → ℕ → ℕ × BusinessHours → Bool
is_day location day (_, h) = h.location == location && h.day_of_week == day

-- A time is true in Python, midnight as well: a missing time alone closes the day.
abbrev pub open_close : Option ℕ → Option ℕ → Option (ℕ × ℕ)
open_close (some opens) (some closes) = some (opens, closes)
open_close _ _ = none

abbrev pub hours_of : Option (ℕ × BusinessHours) → Option (ℕ × ℕ)
hours_of none = none
hours_of (some (_, h)) = if h.is_closed then none else open_close h.open_time h.close_time

-- `table__in=tables`
abbrev pub is_among : Table RestaurantTable → Option ℕ → Bool
is_among tables table = any_where (λ (k, _). table ==? k) tables

-- The query for the whole day: its last test is `end_time > day_start - buffer`.
abbrev pub is_of_day : Table RestaurantTable → ℕ → ℕ → ℕ → ℕ × Reservation → Bool
is_of_day tables day_start day_close buffer (_, r) =
    is_among tables r.table
    && is_active_status r.status
    && ltb r.start_time (day_close + buffer)
    && ltb day_start (r.end_time + buffer)

-- The test of one reservation of the day against a slot: `r["end_time"] > slot_start - buffer` last.
abbrev pub conflicts : ℕ → ℕ → ℕ → ℕ → ℕ × Reservation → Bool
conflicts table start end buffer (_, r) =
    r.table ==? table && ltb r.start_time (end + buffer) && ltb start (r.end_time + buffer)

abbrev pub has_room : ℕ → ℕ → ℕ → Table Reservation → ℕ × RestaurantTable → Bool
has_room start end buffer reservations (k, _) =
    not (any_where (conflicts k start end buffer) reservations)

-- What the loop tests of one slot.
abbrev pub is_available : ℕ → ℕ → ℕ → ℕ → Table RestaurantTable → Table Reservation → ℕ → Bool
is_available min_start max_start duration buffer tables reservations start =
    leb min_start start
    && leb start max_start
    && any_where (has_room start (start + duration) buffer reservations) tables

abbrev pub append_if : Bool → ℕ → Option (List ℕ) → Option (List ℕ)
append_if b start none = none
append_if b start (some slots) = some (if b then start ∷ slots else slots)

-- The while loop, on fuel: `none` where the fuel runs out.
unfoldable pub slots_from : (ℕ → Bool) → ℕ → ℕ → ℕ → ℕ → ℕ → Option (List ℕ)
slots_from available duration day_close interval zero start = none
slots_from available duration day_close interval (suc fuel) start =
    let rest = slots_from available duration day_close interval fuel (start + interval) in
    if leb (start + duration) day_close then append_if (available start) start rest else some []

abbrev pub is_empty : Table RestaurantTable → Bool
is_empty [] = true
is_empty (_ ∷ _) = false

-- The part below the guards, for a day that is open between two times.
unfoldable pub day_slots :
    ℕ → ℕ → ℕ → ReservationSetting → Table RestaurantTable → Db → ℕ × ℕ → Option (List ℕ)
day_slots fuel now duration settings tables db (day_start, day_close) =
    let reservations =
      rows_where (is_of_day tables day_start day_close settings.buffer_minutes) db.reservations in
    slots_from
      (is_available (now + settings.min_advance_minutes) (now + settings.max_advance_days * 1440)
        duration settings.buffer_minutes tables reservations)
      duration day_close settings.slot_interval_minutes fuel day_start

-- `at` is the time of a date and a time of day in the current zone (`make_aware`).
unfoldable pub get_available_slots :
    ℕ → (ℕ → ℕ → ℕ) → ℕ → ℕ → ℕ → ℕ → Option ℕ → Db → Option (List ℕ)
get_available_slots fuel at now location date party_size minutes db =
    let settings = get_settings location db in
    let tables = rows_where (is_candidate location party_size) db.tables in
    if any_where (is_blackout location date) db.blackout_dates
    then some []
    else elim (hours_of (first_where (is_day location (weekday date)) db.business_hours)) [
      | none ↦ some []
      | some (opens, closes) ↦
          if is_empty tables
          then some []
          else day_slots fuel now (duration_or minutes settings.default_duration_minutes) settings
              tables db (at date opens, at date closes)
    ]
