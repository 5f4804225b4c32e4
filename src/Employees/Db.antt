-- ===== src/Employees/Db.antt =====
-- employees/models.py: the rows that the employee services read and write. A time is a number of
-- seconds, a date a day number, a coordinate is in millionths of a degree, a distance in hundredths of
-- a metre. The audit columns and texts that no service reads are left out.
use food_tech_crm_backend.Prelude.{ℕ, Option, Bool, List}
use food_tech_crm_backend.Prelude.Int.{ℤ}
use food_tech_crm_backend.Prelude.Table.{Table}
use food_tech_crm_backend.Prelude.Exec.{Exec}
use food_tech_crm_backend.Core.Db.{Business, BusinessMembership}
use food_tech_crm_backend.Core.Recurrence.{Rule}

pub record GeofenceSetting : Type 0 where
  pub business : ℕ
  pub location : Option ℕ
  pub center_latitude : ℤ
  pub center_longitude : ℤ
  pub radius_meters : ℕ
  pub enabled : Bool

pub data EntryStatus : Type 0 where
  clocked_in clocked_out : EntryStatus

pub record TimeEntry : Type 0 where
  pub membership : ℕ
  pub clock_in_at : ℕ
  pub clock_out_at : Option ℕ
  pub status : EntryStatus
  pub clock_in_lat : Option ℤ
  pub clock_in_lng : Option ℤ
  pub clock_out_lat : Option ℤ
  pub clock_out_lng : Option ℤ
  pub clock_in_distance_meters : Option ℕ
  pub clock_out_distance_meters : Option ℕ
  pub clock_in_within_geofence : Option Bool
  pub clock_out_within_geofence : Option Bool
  pub auto_closed_on_deactivation : Bool

pub record TimeEntryBreak : Type 0 where
  pub time_entry : ℕ
  pub break_start_at : ℕ
  pub break_end_at : Option ℕ
  pub auto_closed_on_deactivation : Bool

pub data CheckType : Type 0 where
  clock_in clock_out : CheckType

pub record LocationVerificationLog : Type 0 where
  pub membership : ℕ
  pub time_entry : Option ℕ
  pub geofence_setting : Option ℕ
  pub check_type : CheckType
  pub reported_latitude : Option ℤ
  pub reported_longitude : Option ℤ
  pub distance_meters : Option ℕ
  pub within_geofence : Option Bool
  pub passed : Bool

pub record Position : Type 0 where
  pub business : ℕ
  pub hourly_rate : ℤ  -- cents
  pub is_active : Bool

-- Times of day are in seconds.
pub record ShiftTemplate : Type 0 where
  pub position : ℕ
  pub day_of_week : ℕ
  pub start_time : ℕ
  pub end_time : ℕ

pub record RecurringSchedule : Type 0 where
  pub membership : ℕ
  pub shift_template : ℕ
  pub recurrence_rule : Rule
  pub start_date : ℕ
  pub end_date : Option ℕ
  pub is_active : Bool

pub data ShiftStatus : Type 0 where
  scheduled completed cancelled no_show : ShiftStatus

pub record EmployeeShift : Type 0 where
  pub membership : ℕ
  pub position : ℕ
  pub recurring_schedule : Option ℕ
  pub start_at : ℕ
  pub end_at : ℕ
  pub status : ShiftStatus

-- The states of a shift swap request, and those of a time off request.
pub data RequestStatus : Type 0 where
  pending approved rejected cancelled : RequestStatus

pub record ShiftSwapRequest : Type 0 where
  pub shift : ℕ
  pub requesting_membership : ℕ
  pub target_membership : Option ℕ
  pub status : RequestStatus
  pub approved_by : Option ℕ

pub record TimeOffRequest : Type 0 where
  pub membership : ℕ
  pub start_date : ℕ
  pub end_date : ℕ
  pub status : RequestStatus
  pub approved_by : Option ℕ

-- One entry of `weekly_breakdown`; the hours are in hundredths.
pub record WeekBreakdown : Type 0 where
  pub iso_week : ℕ
  pub worked_hours : ℤ
  pub regular_hours : ℤ
  pub overtime_hours : ℤ

-- Hours are in hundredths, amounts in cents; of `breakdown`, the values that are calculated.
pub record PayStub : Type 0 where
  pub membership : ℕ
  pub position : ℕ
  pub pay_period_start : ℕ
  pub pay_period_end : ℕ
  pub regular_hours : ℤ
  pub overtime_hours : ℤ
  pub gross_pay : ℤ
  pub net_pay : ℤ
  pub overtime_rate : ℤ
  pub tax_amount : ℤ
  pub weekly_breakdown : List WeekBreakdown

pub record Db : Type 0 where
  pub businesses : Table Business
  pub memberships : Table BusinessMembership
  pub geofence_settings : Table GeofenceSetting
  pub time_entries : Table TimeEntry
  pub breaks : Table TimeEntryBreak
  pub verification_logs : Table LocationVerificationLog
  pub shift_templates : Table ShiftTemplate
  pub recurring_schedules : Table RecurringSchedule
  pub shifts : Table EmployeeShift
  pub shift_swap_requests : Table ShiftSwapRequest
  pub time_off_requests : Table TimeOffRequest
  pub pay_stubs : Table PayStub

-- TimeTrackingError's subclasses, the other domain errors, and the exceptions of the framework.
-- A geofence violation carries the distance and the radius.
pub data Error : Type 0 where
  already_clocked_in no_open_time_entry break_state_error : Error
  geofence_violation : ℕ → ℕ → Error
  shift_swap_error time_off_error : Error
  pay_stub_already_exists : Error
  does_not_exist integrity_error attribute_error type_error : Error

abbrev pub Service : Type 0 → Type 0
Service = Exec Db Error
