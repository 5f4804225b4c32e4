-- ===== src/Reservations/Transitions/Tests.antt =====
-- A guest who is seated and leaves; and two staff requests that interleave.
use food_tech_crm_backend.Prelude.{none, true, some, [], ◌∷◌, ◌≡◌, refl}
use food_tech_crm_backend.Prelude.Table.{lookup}
use food_tech_crm_backend.Reservations.Booking.{
  Outside, Guest, find_table, save_reservation, new_reservation, get_settings,
  assign_table_and_book, validate_guest_booking_request, book_reservation,
}
use food_tech_crm_backend.Reservations.Db.{RestaurantTable, Reservation, Status, Db}
use food_tech_crm_backend.Reservations.Transitions.{
  save_status, transition, seat, cancel, mark_no_show, complete,
}
use food_tech_crm_backend.Reservations.Transitions.Final.{
  Became, Reach, here, next, seats, marks, completes, cancels, Reach-Became,
}

abbrev expected : Reservation
expected = record {
  location = 1;
  table = some 5;
  guest_name = "Cy";
  guest_email = "";
  guest_phone = "";
  party_size = 2;
  start_time = 1060;
  end_time = 1150;
  duration_minutes = 90;
  status = Status.confirmed;
  confirmation_code = 300;
}

abbrev lunch : Db
lunch = record {
  businesses = λ _. 1;
  settings = [];
  blackout_dates = [];
  business_hours = [];
  tables = [];
  reservations = (8, expected) ∷ [];
  waitlist = [];
}

abbrev after_lunch : Db
after_lunch = (cancel 8 (complete 8 (mark_no_show 8 (seat 8 lunch).1).1).1).1

abbrev lunch_history : Reach lunch after_lunch
lunch_history = next (next (next (next here (seats 8)) (marks 8)) (completes 8)) (cancels 8)

Reach-Became_example : Became 8 expected after_lunch
Reach-Became_example = Reach-Became 8 expected refl lunch_history

ends_completed :
    lookup 8 after_lunch.reservations ≡ some (record expected { status = Status.completed })
unfolding transition seat cancel mark_no_show complete
ends_completed = refl

abbrev table_five : RestaurantTable
table_five = record { location = 1; name = "T5"; capacity = 4; is_active = true }

abbrev other_guest : Guest
other_guest = record { guest_name = "Di"; guest_email = ""; guest_phone = ""; party_size = 2 }

abbrev outside : Outside
outside = record { by_capacity = λ t. t; id = 9; codes = 400 ∷ [] }

-- A seat that read the reservation before it was cancelled saves after the table was booked again:
-- both reservations of the table and the time are active.
abbrev raced : Db
raced =
    save_status 8 Status.seated
      (book_reservation outside 1000 (λ _. 1) 1 other_guest 1060 none
        (cancel 8 (record lunch { tables = (5, table_five) ∷ [] })).1).1

raced_other :
    lookup 9 raced.reservations
    ≡ some (record (new_reservation 1 5 other_guest 1060 90) { confirmation_code = 400 })
unfolding transition cancel book_reservation validate_guest_booking_request assign_table_and_book
    find_table save_reservation get_settings
raced_other = refl

raced_active : lookup 8 raced.reservations ≡ some (record expected { status = Status.seated })
unfolding transition cancel book_reservation validate_guest_booking_request assign_table_and_book
    find_table save_reservation get_settings
raced_active = refl
