-- ===== src/Loyalty/GiftCards/History.antt =====
-- Sequences of service calls on gift cards, in any order, and what holds after them.
use food_tech_crm_backend.Prelude.{ℕ, String, Option, none, ◌≡◌}
use food_tech_crm_backend.Prelude.Int.{ℤ, pos, ◌≤ℤ◌}
use food_tech_crm_backend.Prelude.Table.{lookup}
use food_tech_crm_backend.Loyalty.Db.{Db}
use food_tech_crm_backend.Loyalty.GiftCards.{
  CardInput, create_gift_card, reload_gift_card, redeem_gift_card,
}
use food_tech_crm_backend.Loyalty.GiftCards.Balance.{
  IsCardLedger, create_gift_card-IsCardLedger, reload_gift_card-IsCardLedger,
  redeem_gift_card-IsCardLedger,
}

-- One call. A new card's key is fresh and its first balance is not negative (the serializer asks for
-- a cent at least).
pub data Step (db : Db) : Db → Type 0 where
  creates :
      (pk id : ℕ) (input : CardInput)
      → lookup pk db.gift_cards ≡ none
      → pos 0 ≤ℤ input.initial_balance
      → Step db (create_gift_card pk id input db).1
  reloads :
      (id pk : ℕ) (amount : ℤ) (membership : Option ℕ) (notes : String)
      → Step db (reload_gift_card id pk amount membership notes db).1
  redeems :
      (id now pk : ℕ) (amount : ℤ) (membership : Option ℕ) (notes : String)
      → Step db (redeem_gift_card id now pk amount membership notes db).1

pub data Reach (s : Db) : Db → Type 0 where
  here : Reach s s
  next : {t u : Db} → Reach s t → Step t u → Reach s u

Step-IsCardLedger : {s t : Db} → Step s t → IsCardLedger s → IsCardLedger t
Step-IsCardLedger (creates pk id input fresh nonneg) h =
    create_gift_card-IsCardLedger pk id input _ fresh nonneg h
Step-IsCardLedger (reloads id pk amount membership notes) h =
    reload_gift_card-IsCardLedger id pk amount membership notes _ h
Step-IsCardLedger (redeems id now pk amount membership notes) h =
    redeem_gift_card-IsCardLedger id now pk amount membership notes _ h

-- After any sequence of the calls of `Step`, from tables where this holds of every card (empty tables,
-- say): a card's balance is what its transactions come to and is not negative, and no transaction is
-- of a card that is not there.
pub Reach-IsCardLedger : {s t : Db} → IsCardLedger s → Reach s t → IsCardLedger t
Reach-IsCardLedger h here = h
Reach-IsCardLedger h (next r st) = Step-IsCardLedger st (Reach-IsCardLedger h r)
