-- ===== src/Loyalty/Points.antt =====
-- loyalty/services.py: awarding, redeeming and expiring points, and the tier they give.
pub mod Tiers
pub mod Outcomes
pub mod Ledger
pub mod Expiry
use food_tech_crm_backend.Prelude.{
  ℕ, ◌+◌, ◌*◌, zero, suc, String, Option, none, some, List, [], ◌∷◌, Bool, true, false, not, ◌&&◌,
  ◌==◌, ◌==?◌, ltb, any_where, rows_where, if◌then◌else◌,
}
use food_tech_crm_backend.Prelude.Int.{ℤ, pos, neg, ◌+ℤ◌, ◌-ℤ◌, ltb_ℤ, leb_ℤ, min_ℤ}
use food_tech_crm_backend.Prelude.Table.{Table, lookup, insert, update}
use food_tech_crm_backend.Prelude.Exec.{
  Exec, Result, ok, err, pure, gets, or_raise, atomic, raise_if, modify, when, ◌>>=◌, ◌>>◌,
}
use food_tech_crm_backend.Loyalty.Db.{
  LoyaltyProgram, Tier, bronze, silver, gold, platinum, CustomerLoyaltyAccount, Reason,
  PointsTransaction, Db, Error, loyalty_error, insufficient_points, does_not_exist, integrity_error,
  Service,
}

unfoldable pub tier_for_lifetime_points : ℤ → LoyaltyProgram → Tier
tier_for_lifetime_points lifetime_points program =
    if leb_ℤ program.platinum_threshold lifetime_points
    then platinum
    else if leb_ℤ program.gold_threshold lifetime_points
    then gold
    else if leb_ℤ program.silver_threshold lifetime_points
    then silver
    else bronze

-- `account.loyalty_program`, the related row
abbrev pub program_of : CustomerLoyaltyAccount → Service LoyaltyProgram
program_of account = do
  or_raise (← gets (λ db. lookup account.loyalty_program db.programs)) does_not_exist

-- An account with other balances, and the tier recalculated from them.
abbrev pub with_points : ℤ → ℤ → LoyaltyProgram → CustomerLoyaltyAccount → CustomerLoyaltyAccount
with_points available lifetime program account = record account {
  available_points = available;
  lifetime_points = lifetime;
  current_tier = tier_for_lifetime_points lifetime program;
}

-- `now() + timedelta(days=…)` where the program has a window, which 0 is not
abbrev pub expiry : ℕ → Option ℕ → Option ℕ
expiry now none = none
expiry now (some zero) = none
expiry now (some (suc days)) = some (now + suc days * 86400)

-- A save of the account's balances and tier, with one new row on its ledger.
abbrev pub post :
    ℕ → ℕ → (CustomerLoyaltyAccount → CustomerLoyaltyAccount) → PointsTransaction → Db → Db
post id pk f transaction db = record db {
  accounts = update pk f db.accounts;
  points_transactions = insert id transaction db.points_transactions;
}

abbrev pub award_row : ℕ → ℤ → Reason → Option ℕ → String → Option ℕ → PointsTransaction
award_row account amount reason order notes expires_at = record {
  account = account;
  points_change = amount;
  reason = reason;
  order = order;
  notes = notes;
  expires_at = expires_at;
  expired_transaction = none;
}

-- `id` is the new row's primary key, `now` the reading of the clock, `pk` the account's key.
unfoldable pub award_points : ℕ → ℕ → ℕ → ℤ → Reason → Option ℕ → String → Service PointsTransaction
award_points id now pk amount reason order notes = do
  raise_if (leb_ℤ amount (pos 0)) loyalty_error
  atomic (do
    locked ← or_raise (← gets (λ db. lookup pk db.accounts)) does_not_exist
    program ← program_of locked
    let transaction =
        award_row pk amount reason order notes (expiry now program.points_expire_after_days)
    let available = locked.available_points +ℤ amount
    let lifetime = locked.lifetime_points +ℤ amount
    modify (post id pk (with_points available lifetime program) transaction)
    pure transaction)

unfoldable pub redeem_points : ℕ → ℕ → ℤ → String → Service PointsTransaction
redeem_points id pk amount notes = do
  raise_if (leb_ℤ amount (pos 0)) loyalty_error
  atomic (do
    locked ← or_raise (← gets (λ db. lookup pk db.accounts)) does_not_exist
    raise_if (ltb_ℤ locked.available_points amount)
        (insufficient_points amount locked.available_points)
    program ← program_of locked
    let transaction = award_row pk (neg amount) Reason.redemption none notes none
    let available = locked.available_points -ℤ amount
    modify (post id pk (with_points available locked.lifetime_points program) transaction)
    pure transaction)

abbrev pub expires : ℕ → ℕ × PointsTransaction → Bool
expires earned (_, t) = t.expired_transaction ==? earned

abbrev pub is_past : ℕ → Option ℕ → Bool
is_past now none = false
is_past now (some t) = ltb t now

-- the filter of `expire_due_points`
abbrev pub is_due : ℕ → Table PointsTransaction → ℕ × PointsTransaction → Bool
is_due now all (k, t) =
    is_past now t.expires_at && ltb_ℤ (pos 0) t.points_change && not (any_where (expires k) all)

abbrev pub expiration_row : ℕ → ℤ → ℕ → PointsTransaction
expiration_row account amount earned = record {
  account = account;
  points_change = neg amount;
  reason = Reason.expiration;
  order = none;
  notes = "";
  expires_at = none;
  expired_transaction = some earned;
}

-- The body of the loop: the row of the constraint `unique_expiration_per_transaction` is tested
-- where the database tests it, at the insert.
unfoldable pub expire_one : ℕ → ℕ → PointsTransaction → Service (Unit {0})
expire_one id earned_pk earned = atomic (do
  account ← or_raise (← gets (λ db. lookup earned.account db.accounts)) does_not_exist
  let amount_to_expire = min_ℤ earned.points_change account.available_points
  when (ltb_ℤ (pos 0) amount_to_expire) (do
    program ← program_of account
    let available = account.available_points -ℤ amount_to_expire
    modify (λ db. record db {
      accounts =
          update earned.account (with_points available account.lifetime_points program) db.accounts;
    }))
  raise_if (← gets (λ db. any_where (expires earned_pk) db.points_transactions)) integrity_error
  modify (λ db. record db {
    points_transactions =
        insert id (expiration_row earned.account amount_to_expire earned_pk) db.points_transactions;
  }))

-- `except IntegrityError: continue`; another exception ends the run with what is done so far.
abbrev pub next_count : Result Error (Unit {0}) → ℕ → Result Error ℕ
next_count (ok _) n = ok (suc n)
next_count (err integrity_error) n = ok n
next_count (err e) n = err e

unfoldable pub expire_each : (ℕ → ℕ) → List (ℕ × PointsTransaction) → ℕ → Service ℕ
expire_each fresh [] n db = (ok n, db)
expire_each fresh ((k, earned) ∷ due) n db =
    let (r, db') = expire_one (fresh k) k earned db in
    ((λ s. (next_count r n, s)) >>= (λ m. expire_each fresh due m)) db'

-- `fresh` gives the keys of the new rows. The query runs once, before the loop.
unfoldable pub expire_due_points : ℕ → (ℕ → ℕ) → Service ℕ
expire_due_points now fresh db =
    expire_each fresh (rows_where (is_due now db.points_transactions) db.points_transactions) 0 db
