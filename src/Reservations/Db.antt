-- ===== src/Reservations/Db.antt =====
-- reservations/models.py: the rows that booking reads and writes. A time is a number of minutes, a date
-- a day number, a confirmation code a number. Columns that no service reads (positions on the floor,
-- notes, reasons and the audit columns) are left out.
use food_tech_crm_backend.Prelude.{ℕ, String, Option, Bool}
use food_tech_crm_backend.Prelude.Table.{Table}
use food_tech_crm_backend.Prelude.Exec.{Exec}

pub record RestaurantTable : Type 0 where
  pub location : ℕ
  pub name : String
  pub capacity : ℕ
  pub is_active : Bool

pub record BlackoutDate : Type 0 where
  pub location : ℕ
  pub date : ℕ

-- A time of day is a number of minutes after midnight; Monday is 0.
pub record BusinessHours : Type 0 where
  pub location : ℕ
  pub day_of_week : ℕ
  pub open_time : Option ℕ
  pub close_time : Option ℕ
  pub is_closed : Bool

-- Without its business, which keys the table: the row is one to a business.
pub record ReservationSetting : Type 0 where
  pub default_duration_minutes : ℕ
  pub slot_interval_minutes : ℕ
  pub buffer_minutes : ℕ
  pub min_advance_minutes : ℕ
  pub max_advance_days : ℕ
  pub max_party_size : ℕ

pub data Status : Type 0 where
  pending confirmed seated completed cancelled no_show : Status

pub record Reservation : Type 0 where
  pub location : ℕ
  pub table : Option ℕ
  pub guest_name : String
  pub guest_email : String
  pub guest_phone : String
  pub party_size : ℕ
  pub start_time : ℕ
  pub end_time : ℕ
  pub duration_minutes : ℕ
  pub status : Status
  pub confirmation_code : ℕ

pub data WaitlistStatus : Type 0 where
  waiting notified seated expired cancelled : WaitlistStatus

pub record Waitlist : Type 0 where
  pub location : ℕ
  pub guest_name : String
  pub guest_email : String
  pub guest_phone : String
  pub party_size : ℕ
  pub requested_time : ℕ
  pub status : WaitlistStatus
  pub reservation : Option ℕ

-- `businesses` has the business of a location, `settings` the settings of a business.
pub record Db : Type 0 where
  pub businesses : ℕ → ℕ
  pub settings : Table ReservationSetting
  pub blackout_dates : Table BlackoutDate
  pub business_hours : Table BusinessHours
  pub tables : Table RestaurantTable
  pub reservations : Table Reservation
  pub waitlist : Table Waitlist

-- BookingError's subclasses, and the database's own exceptions.
pub data Error : Type 0 where
  blackout_date outside_booking_window party_size_too_large no_table_available waitlist_error :
      Error
  does_not_exist integrity_error : Error

abbrev pub Service : Type 0 → Type 0
Service = Exec Db Error
