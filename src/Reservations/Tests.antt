-- ===== src/Reservations/Tests.antt =====
-- Bookings of one table, on a small state.
use food_tech_crm_backend.Prelude.{ℕ, none, List, [], ◌∷◌, true}
use food_tech_crm_backend.Reservations.Db.{RestaurantTable, Db}
use food_tech_crm_backend.Reservations.Booking.{Outside, Guest, book_reservation}
use food_tech_crm_backend.Reservations.Booking.Overlap.{IsSingleBooked}
use food_tech_crm_backend.Reservations.Booking.History.{
  Reach, here, next, books, Reach-IsSingleBooked,
}

abbrev table_one : RestaurantTable
table_one = record { location = 1; name = "T1"; capacity = 4; is_active = true }

abbrev open_house : Db
open_house = record {
  businesses = λ _. 1;
  settings = [];
  blackout_dates = [];
  business_hours = [];
  tables = (5, table_one) ∷ [];
  reservations = [];
  waitlist = [];
}

abbrev guest : Guest
guest = record { guest_name = "Ada"; guest_email = ""; guest_phone = ""; party_size = 3 }

abbrev outside : ℕ → List ℕ → Outside
outside id codes = record { by_capacity = λ t. t; id = id; codes = codes }

abbrev booked : Db
booked =
    (book_reservation (outside 8 (100 ∷ 200 ∷ [])) 1000 (λ t. t) 1 guest 1060 none open_house).1

abbrev history :
    Reach open_house
      (book_reservation (outside 9 (100 ∷ 200 ∷ [])) 1001 (λ t. t) 1 guest 1090 none booked).1
history =
    next (next here (books (outside 8 (100 ∷ 200 ∷ [])) 1000 (λ t. t) 1 guest 1060 none))
      (books (outside 9 (100 ∷ 200 ∷ [])) 1001 (λ t. t) 1 guest 1090 none)

Reach-IsSingleBooked_example :
    IsSingleBooked
      (book_reservation (outside 9 (100 ∷ 200 ∷ [])) 1001 (λ t. t) 1 guest 1090 none booked).1
Reach-IsSingleBooked_example = Reach-IsSingleBooked tt history
