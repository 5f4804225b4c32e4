-- ===== src/Loyalty/GiftCards.antt =====
-- loyalty/services.py: gift cards. Sending a card by e-mail is left out.
pub mod Balance
pub mod History
use Prim.Native.Nat.{Ordering}
use Prim.Native.String.{compare}
use food_tech_crm_backend.Prelude.{
  ℕ, String, Option, none, some, List, [], ◌∷◌, Bool, true, false, not, ◌==◌, leb, any_where,
  if◌then◌else◌,
}
use food_tech_crm_backend.Prelude.Int.{ℤ, pos, neg, ◌+ℤ◌, ◌-ℤ◌, ltb_ℤ, leb_ℤ}
use food_tech_crm_backend.Prelude.Table.{Table, lookup, insert, update}
use food_tech_crm_backend.Prelude.Exec.{
  Exec, Result, ok, err, pure, gets, or_raise, atomic, raise_if, modify, ◌>>=◌, ◌>>◌,
}
use food_tech_crm_backend.Loyalty.Db.{
  GiftCard, CardReason, GiftCardTransaction, Db, Error, loyalty_error, inactive_gift_card,
  expired_gift_card, insufficient_gift_card_balance, does_not_exist, integrity_error, Service,
}

-- `GiftCard.is_expired`
abbrev pub is_expired : ℕ → GiftCard → Bool
is_expired now card = elim card.expires_at [ none ↦ false | some t ↦ leb t now ]

abbrev pub card_row : ℕ → ℤ → CardReason → String → Option ℕ → GiftCardTransaction
card_row card amount reason notes membership = record {
  gift_card = card;
  amount_change = amount;
  reason = reason;
  notes = notes;
  created_by = membership;
}

-- The arguments of `create_gift_card`, with the code that `secrets.token_urlsafe` gives.
pub record CardInput : Type 0 where
  pub business : ℕ
  pub code : String
  pub initial_balance : ℤ
  pub recipient_name : String
  pub recipient_email : String
  pub expires_at : Option ℕ
  pub purchaser_customer : Option ℕ

abbrev pub new_card : CardInput → GiftCard
new_card input = record {
  business = input.business;
  code = input.code;
  initial_balance = input.initial_balance;
  current_balance = input.initial_balance;
  is_active = true;
  expires_at = input.expires_at;
  recipient_name = input.recipient_name;
  recipient_email = input.recipient_email;
  purchaser_customer = input.purchaser_customer;
  sent_at = none;
}

-- `code` is unique among the cards.
abbrev pub has_code : String → ℕ × GiftCard → Bool
has_code code (_, c) = elim (compare c.code code) [ Ordering.eq ↦ true | _ ↦ false ]

-- `pk` and `id` are the keys of the card and of its first transaction.
unfoldable pub create_gift_card : ℕ → ℕ → CardInput → Service GiftCard
create_gift_card pk id input = atomic (do
  let card = new_card input
  raise_if (← gets (λ db. any_where (has_code input.code) db.gift_cards)) integrity_error
  modify (λ db. record db {
    gift_cards = insert pk card db.gift_cards;
    gift_card_transactions =
        insert id (card_row pk input.initial_balance CardReason.initial "" none)
          db.gift_card_transactions;
  })
  pure card)

-- A save of the balance, with one new row on the card's ledger.
abbrev pub post_card : ℕ → ℕ → ℤ → GiftCardTransaction → Db → Db
post_card id pk balance transaction db = record db {
  gift_cards = update pk (λ c. record c { current_balance = balance }) db.gift_cards;
  gift_card_transactions = insert id transaction db.gift_card_transactions;
}

unfoldable pub reload_gift_card : ℕ → ℕ → ℤ → Option ℕ → String → Service GiftCardTransaction
reload_gift_card id pk amount membership notes = do
  raise_if (leb_ℤ amount (pos 0)) loyalty_error
  atomic (do
    locked ← or_raise (← gets (λ db. lookup pk db.gift_cards)) does_not_exist
    let transaction = card_row pk amount CardReason.reload notes membership
    modify (post_card id pk (locked.current_balance +ℤ amount) transaction)
    pure transaction)

unfoldable pub redeem_gift_card : ℕ → ℕ → ℕ → ℤ → Option ℕ → String → Service GiftCardTransaction
redeem_gift_card id now pk amount membership notes = do
  raise_if (leb_ℤ amount (pos 0)) loyalty_error
  atomic (do
    locked ← or_raise (← gets (λ db. lookup pk db.gift_cards)) does_not_exist
    raise_if (not locked.is_active) inactive_gift_card
    raise_if (is_expired now locked) expired_gift_card
    raise_if (ltb_ℤ locked.current_balance amount)
        (insufficient_gift_card_balance amount locked.current_balance)
    let transaction = card_row pk (neg amount) CardReason.redemption notes membership
    modify (post_card id pk (locked.current_balance -ℤ amount) transaction)
    pure transaction)
