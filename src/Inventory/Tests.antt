-- ===== src/Inventory/Tests.antt =====
-- Stock adjustments of one item, on a small state.
use food_tech_crm_backend.Prelude.{none, true, [], ◌∷◌, arith}
use food_tech_crm_backend.Prelude.Int.{pos, negsuc, ◌+ℤ◌}
use food_tech_crm_backend.Inventory.{
  InventoryItem, TransactionType, Db, ledger_total, adjust_stock, IsStock, adjust_stock-IsStock,
}

abbrev flour : InventoryItem
flour = record {
  business = 1;
  location = none;
  vendor = none;
  name = "Flour";
  unit = "kg";
  current_quantity = pos 2500;
  low_stock_threshold = pos 1000;
  is_active = true;
}

abbrev store : Db
store = record { items = (1, flour) ∷ []; transactions = [] }

store-IsStock : IsStock (λ _. pos 2500) store
unfolding ledger_total ◌+ℤ◌
store-IsStock item = ground arith

adjust_stock-IsStock_example :
    IsStock (λ _. pos 2500) (adjust_stock 7 1 (negsuc 1499) TransactionType.usage none "" store).1
adjust_stock-IsStock_example =
    adjust_stock-IsStock 7 1 (negsuc 1499) TransactionType.usage none "" (λ _. pos 2500) store
      store-IsStock
