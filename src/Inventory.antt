-- ===== src/Inventory.antt =====
-- inventory/: the stock of an item and the append-only ledger of its changes. A quantity is in
-- thousandths of the item's unit.
mod Tests
use food_tech_crm_backend.Prelude.{
  ℕ, String, Option, none, some, ◌≡◌, ◌≢◌, Bool, true, false, ◌==◌, arith, if◌then◌else◌,
  Option-cases, inl, inr,
}
use food_tech_crm_backend.Prelude.Int.{
  ℤ, pos, ◌+ℤ◌, ◌≤ℤ◌, ltb_ℤ, sum_where, int_laws, +ℤ_parts, eq_of_parts, +ℤ_assoc, +ℤ_comm,
}
use food_tech_crm_backend.Prelude.Table.{Table, lookup, insert, update, lookup-update}
use food_tech_crm_backend.Prelude.Exec.{
  Exec, Result, ok, err, pure, gets, or_raise, atomic, raise_if, modify, ◌>>=◌, ◌>>◌,
}

pub record InventoryItem : Type 0 where
  pub business : ℕ
  pub location : Option ℕ
  pub vendor : Option ℕ
  pub name : String
  pub unit : String
  pub current_quantity : ℤ
  pub low_stock_threshold : ℤ
  pub is_active : Bool

pub data TransactionType : Type 0 where
  restock usage waste correction : TransactionType

pub record InventoryTransaction : Type 0 where
  pub item : ℕ
  pub quantity_change : ℤ
  pub transaction_type : TransactionType
  pub reason : String
  pub created_by : Option ℕ

pub record Db : Type 0 where
  pub items : Table InventoryItem
  pub transactions : Table InventoryTransaction

pub data Error : Type 0 where
  insufficient_stock : ℤ → ℤ → ℤ → Error
  does_not_exist : Error

abbrev pub new_transaction : ℕ → ℤ → TransactionType → Option ℕ → String → InventoryTransaction
new_transaction item delta transaction_type membership reason = record {
  item = item;
  quantity_change = delta;
  transaction_type = transaction_type;
  reason = reason;
  created_by = membership;
}

-- `id` is the new ledger row's primary key. The row of the item is locked, so the `save` finds it.
unfoldable pub adjust_stock :
    ℕ → ℕ → ℤ → TransactionType → Option ℕ → String → Exec Db Error InventoryTransaction
adjust_stock id pk delta transaction_type membership reason = atomic (do
  locked_item ← or_raise (← gets (λ db. lookup pk db.items)) does_not_exist
  let new_quantity = locked_item.current_quantity +ℤ delta
  raise_if (ltb_ℤ new_quantity (pos 0))
      (insufficient_stock delta new_quantity locked_item.current_quantity)
  let entry = new_transaction pk delta transaction_type membership reason
  modify (λ db. record db {
    items = update pk (λ v. record v { current_quantity = new_quantity }) db.items;
    transactions = insert id entry db.transactions;
  })
  pure entry)

abbrev pub of_item : ℕ → ℕ × InventoryTransaction → Bool
of_item item (_, t) = t.item == item

abbrev pub quantity_of : ℕ × InventoryTransaction → ℤ
quantity_of (_, t) = t.quantity_change

-- What the ledger says an item has gained since it was created.
unfoldable pub ledger_total : ℕ → Db → ℤ
ledger_total item db = sum_where (of_item item) quantity_of db.transactions

-- An item that was created with `start` units and has `t` on its ledger.
abbrev pub StockRow : ℤ → Option InventoryItem → ℤ → Type 0
StockRow start none t = t ≡ pos 0
StockRow start (some v) t = (pos 0 ≤ℤ v.current_quantity) × (v.current_quantity ≡ t +ℤ start)

-- No stock is negative, and every quantity is its starting balance plus its ledger.
abbrev pub IsStock : (ℕ → ℤ) → Db → Type 0
IsStock start db = (item : ℕ) → StockRow (start item) (lookup item db.items) (ledger_total item db)

-- An adjustment, accepted or refused, of any sign and of any item, leaves no stock negative and every
-- quantity equal to its starting balance plus its ledger.
pub adjust_stock-IsStock :
    (id pk : ℕ) (delta : ℤ) (transaction_type : TransactionType) (membership : Option ℕ)
    (reason : String) (start : ℕ → ℤ) (db : Db)
    → IsStock start db
    → IsStock start (adjust_stock id pk delta transaction_type membership reason db).1
unfolding adjust_stock ledger_total
adjust_stock-IsStock id pk delta transaction_type membership reason start db h item =
    elim (Option-cases (lookup pk db.items)) [
      | inl e ↦ ground (arith, h item)
      | inr (v, e) ↦ ground (
        arith,
        h item,
        h pk,
        lookup-update pk item (λ v. record v { current_quantity = v.current_quantity +ℤ delta })
            db.items,
        +ℤ_assoc delta (ledger_total pk db) (start pk),
        +ℤ_comm v.current_quantity delta,
        lookup-update pk item (λ w. record w { current_quantity = v.current_quantity +ℤ delta })
            db.items,
      )
    ]

-- On every branch: an adjustment is refused exactly where it would take the stock below zero, and
-- then nothing changes; otherwise the quantity moves by it and one entry goes on the ledger.
pub adjust_stock_lem :
    (id pk : ℕ) (delta : ℤ) (transaction_type : TransactionType) (membership : Option ℕ)
    (reason : String) (v : InventoryItem) (db : Db)
    → lookup pk db.items ≡ some v
    → let n = v.current_quantity +ℤ delta in
      let entry = new_transaction pk delta transaction_type membership reason in
      adjust_stock id pk delta transaction_type membership reason db ≡ (
        if ltb_ℤ n (pos 0) then (err (insufficient_stock delta n v.current_quantity), db) else (
          ok entry,
          record db {
            items = update pk (λ w. record w { current_quantity = n }) db.items;
            transactions = insert id entry db.transactions;
          },
        ))
unfolding adjust_stock
adjust_stock_lem id pk delta transaction_type membership reason v db e = ground arith
