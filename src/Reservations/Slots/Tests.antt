-- ===== src/Reservations/Slots/Tests.antt =====
-- A Monday with one reservation, on which the last slot is left.
use food_tech_crm_backend.Prelude.{ℕ, none, some, List, [], ◌∷◌, ◌≡◌, refl, true, false, arith}
use food_tech_crm_backend.Prelude.Exec.{atomic}
use food_tech_crm_backend.Reservations.Db.{RestaurantTable, BusinessHours, Db}
use food_tech_crm_backend.Reservations.Booking.{
  Outside, Guest, get_settings, find_table, save_reservation, new_reservation, book_reservation,
}
use food_tech_crm_backend.Reservations.Slots.{slots_from, day_slots, get_available_slots}
use food_tech_crm_backend.Reservations.Slots.Loop.{offers}
use food_tech_crm_backend.Reservations.Slots.Bookable.{
  get_available_slots-book_reservation, get_available_slots_complete,
}

abbrev table_five : RestaurantTable
table_five = record { location = 1; name = "T5"; capacity = 4; is_active = true }

abbrev monday : BusinessHours
monday = record {
  location = 1;
  day_of_week = 0;
  open_time = some 1060;
  close_time = some 1240;
  is_closed = false;
}

abbrev party : Guest
party = record { guest_name = "Bo"; guest_email = ""; guest_phone = ""; party_size = 3 }

abbrev evening : Db
evening = record {
  businesses = λ _. 1;
  settings = [];
  blackout_dates = [];
  business_hours = (4, monday) ∷ [];
  tables = (5, table_five) ∷ [];
  reservations = (8, record (new_reservation 1 5 party 1060 90) { confirmation_code = 100 }) ∷ [];
  waitlist = [];
}

abbrev at_next : Outside
at_next = record { by_capacity = λ t. t; id = 9; codes = 200 ∷ [] }

slots_example : get_available_slots 6 (λ _ m. m) 1000 1 1 3 none evening ≡ some (1150 ∷ [])
unfolding get_available_slots day_slots slots_from get_settings
slots_example = refl

get_available_slots-book_reservation_example :
    (table : ℕ) × (book_reservation at_next 1000 (λ _. 1) 1 party 1150 none evening
      ≡ atomic (save_reservation (200 ∷ []) 9 (new_reservation 1 table party 1150 90)) evening)
unfolding get_settings
get_available_slots-book_reservation_example =
    get_available_slots-book_reservation at_next 6 (λ _ m. m) 1000 (λ _. 1) 1 1 party none evening
      (1150 ∷ []) 1150 (λ _. refl) refl refl slots_example refl

get_available_slots_complete_example :
    (slots : List ℕ) × (get_available_slots 182 (λ _ m. m) 1000 1 1 3 none evening ≡ some slots)
    × (offers 1150 slots ≡ true)
unfolding get_settings find_table
get_available_slots_complete_example =
    get_available_slots_complete (λ t. t) 181 (λ _ m. m) 1000 1 1 3 none evening 1060 1240 3
      (5, table_five) (λ _. refl) refl refl (omega arith) (omega arith) (omega arith) refl refl refl
