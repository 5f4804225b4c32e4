-- ===== src/Loyalty/GiftCards/Balance.antt =====
-- Gift cards: the balance is what the card's ledger comes to, and never negative.
use food_tech_crm_backend.Prelude.{
  ℕ, String, Option, none, some, Option-cases, refl, ◌≡◌, arith, not, false, Bool-cases, inl, inr,
  any_where, if◌then◌else◌,
}
use food_tech_crm_backend.Prelude.Int.{
  ℤ, pos, neg, ◌+ℤ◌, ◌-ℤ◌, ◌≤ℤ◌, ltb_ℤ, leb_ℤ, +ℤ_parts, -ℤ_parts, +ℤ_comm, neg-+ℤ, +ℤ-zero,
}
use food_tech_crm_backend.Prelude.Table.{lookup, insert, lookup-update}
use food_tech_crm_backend.Prelude.Exec.{ok, err, if_keeps}
use food_tech_crm_backend.Loyalty.Db.{
  GiftCard, CardReason, GiftCardTransaction, Db, loyalty_error, inactive_gift_card,
  expired_gift_card, insufficient_gift_card_balance, integrity_error, card_total,
}
use food_tech_crm_backend.Loyalty.GiftCards.{
  is_expired, card_row, CardInput, new_card, has_code, create_gift_card, post_card,
  reload_gift_card, redeem_gift_card,
}

-- A redemption of a card that is there: refused, without a change, where the amount is not positive,
-- the card is inactive or expired, or the amount is above the balance, tested in this order; otherwise the
-- balance falls by the amount, and one row of minus the amount goes on the ledger.
pub redeem_gift_card_lem :
    (id now pk : ℕ) (amount : ℤ) (membership : Option ℕ) (notes : String) (c : GiftCard) (db : Db)
    → lookup pk db.gift_cards ≡ some c
    → let t = card_row pk (neg amount) CardReason.redemption notes membership in
      redeem_gift_card id now pk amount membership notes db ≡ (
        if leb_ℤ amount (pos 0)
        then (err loyalty_error, db)
        else if not c.is_active
        then (err inactive_gift_card, db)
        else if is_expired now c
        then (err expired_gift_card, db)
        else if ltb_ℤ c.current_balance amount
        then (err (insufficient_gift_card_balance amount c.current_balance), db)
        else (ok t, post_card id pk (c.current_balance -ℤ amount) t db))
unfolding redeem_gift_card
redeem_gift_card_lem id now pk amount membership notes c db row = ground arith

abbrev pub CardRow : Option GiftCard → ℤ → Type 0
CardRow none t = t ≡ pos 0
CardRow (some c) t = (pos 0 ≤ℤ c.current_balance) × (c.current_balance ≡ t)

-- Every card is such a row, and no transaction is of a card that is not there.
abbrev pub IsCardLedger : Db → Type 0
IsCardLedger db = (k : ℕ) → CardRow (lookup k db.gift_cards) (card_total k db)

post_card-IsCardLedger :
    (id pk : ℕ) (balance : ℤ) (c : GiftCard) (t : GiftCardTransaction) (db : Db)
    → lookup pk db.gift_cards ≡ some c
    → t.gift_card ≡ pk
    → pos 0 ≤ℤ balance
    → t.amount_change +ℤ c.current_balance ≡ balance
    → IsCardLedger db
    → IsCardLedger (post_card id pk balance t db)
unfolding card_total
post_card-IsCardLedger id pk balance c t db row of_it nonneg sum h k = ground (
  arith,
  h k,
  h pk,
  lookup-update pk k (λ r. record r { current_balance = balance }) db.gift_cards,
)

-- the tables with a new card and its first transaction
abbrev with_new_card : ℕ → ℕ → CardInput → Db → Db
with_new_card pk id input db = record db {
  gift_cards = insert pk (new_card input) db.gift_cards;
  gift_card_transactions =
      insert id (card_row pk input.initial_balance CardReason.initial "" none)
        db.gift_card_transactions;
}

create_gift_card_lem :
    (pk id : ℕ) (input : CardInput) (db : Db)
    → create_gift_card pk id input db ≡ (
        if any_where (has_code input.code) db.gift_cards
        then (err integrity_error, db)
        else (ok (new_card input), with_new_card pk id input db))
unfolding create_gift_card
create_gift_card_lem pk id input db = ground arith

with_new_card-IsCardLedger :
    (pk id : ℕ) (input : CardInput) (db : Db)
    → lookup pk db.gift_cards ≡ none
    → pos 0 ≤ℤ input.initial_balance
    → IsCardLedger db
    → IsCardLedger (with_new_card pk id input db)
unfolding card_total
with_new_card-IsCardLedger pk id input db fresh nonneg h k =
    ground (arith, h k, h pk, +ℤ-zero input.initial_balance)

pub create_gift_card-IsCardLedger :
    (pk id : ℕ) (input : CardInput) (db : Db)
    → lookup pk db.gift_cards ≡ none
    → pos 0 ≤ℤ input.initial_balance
    → IsCardLedger db
    → IsCardLedger (create_gift_card pk id input db).1
create_gift_card-IsCardLedger pk id input db fresh nonneg h =
    rw (create_gift_card_lem pk id input db) (
      if_keeps IsCardLedger (any_where (has_code input.code) db.gift_cards)
        (err integrity_error, db) (ok (new_card input), with_new_card pk id input db) (λ _. h)
        (λ _. with_new_card-IsCardLedger pk id input db fresh nonneg h))

reload_gift_card_lem :
    (id pk : ℕ) (amount : ℤ) (membership : Option ℕ) (notes : String) (c : GiftCard) (db : Db)
    → lookup pk db.gift_cards ≡ some c
    → let t = card_row pk amount CardReason.reload notes membership in
      reload_gift_card id pk amount membership notes db ≡ (
        if leb_ℤ amount (pos 0)
        then (err loyalty_error, db)
        else (ok t, post_card id pk (c.current_balance +ℤ amount) t db))
unfolding reload_gift_card
reload_gift_card_lem id pk amount membership notes c db row = ground arith

reload_gift_card_missing :
    (id pk : ℕ) (amount : ℤ) (membership : Option ℕ) (notes : String) (db : Db)
    → lookup pk db.gift_cards ≡ none
    → (reload_gift_card id pk amount membership notes db).1 ≡ db
unfolding reload_gift_card
reload_gift_card_missing id pk amount membership notes db e = ground arith

redeem_gift_card_missing :
    (id now pk : ℕ) (amount : ℤ) (membership : Option ℕ) (notes : String) (db : Db)
    → lookup pk db.gift_cards ≡ none
    → (redeem_gift_card id now pk amount membership notes db).1 ≡ db
unfolding redeem_gift_card
redeem_gift_card_missing id now pk amount membership notes db e = ground arith

pub reload_gift_card-IsCardLedger :
    (id pk : ℕ) (amount : ℤ) (membership : Option ℕ) (notes : String) (db : Db)
    → IsCardLedger db
    → IsCardLedger (reload_gift_card id pk amount membership notes db).1
reload_gift_card-IsCardLedger id pk amount membership notes db h =
    elim (Option-cases (lookup pk db.gift_cards)) [
      | inl e ↦ rw (reload_gift_card_missing id pk amount membership notes db e) h
      | inr (c, row) ↦
          rw (reload_gift_card_lem id pk amount membership notes c db row)
            (elim (Bool-cases (leb_ℤ amount (pos 0))) [
              | inl refused ↦ rw refused h
              | inr positive ↦ rw positive (
                  post_card-IsCardLedger id pk _ c _ db row refl
                    (ground (arith, h pk, +ℤ_parts c.current_balance amount))
                    (+ℤ_comm amount c.current_balance) h)
            ])
    ]

redeem_row-IsCardLedger :
    (id pk : ℕ) (amount : ℤ) (t : GiftCardTransaction) (c : GiftCard) (db : Db)
    → lookup pk db.gift_cards ≡ some c
    → t.gift_card ≡ pk
    → t.amount_change ≡ neg amount
    → ltb_ℤ c.current_balance amount ≡ false
    → IsCardLedger db
    → IsCardLedger (post_card id pk (c.current_balance -ℤ amount) t db)
redeem_row-IsCardLedger id pk amount t c db row of_it is enough h =
    post_card-IsCardLedger id pk _ c t db row of_it
      (ground (arith, h pk, -ℤ_parts c.current_balance amount))
      (rw is (neg-+ℤ amount c.current_balance)) h

pub redeem_gift_card-IsCardLedger :
    (id now pk : ℕ) (amount : ℤ) (membership : Option ℕ) (notes : String) (db : Db)
    → IsCardLedger db
    → IsCardLedger (redeem_gift_card id now pk amount membership notes db).1
redeem_gift_card-IsCardLedger id now pk amount membership notes db h =
    elim (Option-cases (lookup pk db.gift_cards)) [
      | inl e ↦ rw (redeem_gift_card_missing id now pk amount membership notes db e) h
      | inr (c, row) ↦ rw (redeem_gift_card_lem id now pk amount membership notes c db row) (
          if_keeps IsCardLedger (leb_ℤ amount (pos 0)) _ _ (λ _. h)
            (λ _.
              if_keeps IsCardLedger (not c.is_active) _ _ (λ _. h)
                (λ _.
                  if_keeps IsCardLedger (is_expired now c) _ _ (λ _. h)
                    (λ _.
                      if_keeps IsCardLedger (ltb_ℤ c.current_balance amount) _ _ (λ _. h)
                        (λ enough.
                          redeem_row-IsCardLedger id pk amount _ c db row refl refl enough h)))))
    ]
