-- ===== src/Order/Pricing.antt =====
-- `resolveOrderItems` of order/order-pricing.ts, and the order that order.service.ts creates of it.
-- Prices are columns of the database and may be negative, so they are integers; a quantity comes
-- from the client and may be no integer. A sum beyond the safe integers is not modelled.
use newbie_modules.Common.{
  ℕ, zero, suc, String, Option, none, some, List, [], ◌∷◌, ◌++◌, ltb, if◌then◌else◌, Dict, get, set,
}
use newbie_modules.Common.Int.{ℤ, pos, negsuc, ◌+ℤ◌}

pub record PricedProduct : Type 0 where
  pub sku_id : String
  pub name : String
  pub price_in_cents : ℤ
  pub price_in_cents_discounted : Option ℤ

pub data Quantity : Type 0 where
  whole : ℤ → Quantity
  fractional : Quantity

pub record RequestedOrderItem : Type 0 where
  pub sku_id : String
  pub quantity : Option Quantity

pub record ResolvedOrderItem : Type 0 where
  pub sku_id : String
  pub name : String
  pub price_in_cents : ℤ
  pub quantity : ℕ
  pub sub_total_in_cents : ℤ

pub record ResolvedOrder : Type 0 where
  pub items : List ResolvedOrderItem
  pub total_in_cents : ℤ

pub data OrderError : Type 0 where
  no_items : OrderError
  unknown_sku invalid_quantity : (sku_id : String) → OrderError

pub data Reply (A : Type 0) : Type 0 where
  resolved : A → Reply A
  thrown : OrderError → Reply A

abbrev pub effective_unit_price_in_cents : PricedProduct → ℤ
effective_unit_price_in_cents p = elim p.price_in_cents_discounted [
  | none ↦ p.price_in_cents
  | some discounted ↦ discounted
]

-- `new Map(products.map((product) => [product.skuId, product]))`
unfoldable pub catalog_from : Dict PricedProduct → List PricedProduct → Dict PricedProduct
catalog_from catalog [] = catalog
catalog_from catalog (p ∷ ps) = catalog_from (set p.sku_id p catalog) ps

-- `item.quantity ?? 1`, if it is an integer and not below one.
abbrev pub ordered_quantity : Option Quantity → Option ℕ
ordered_quantity none = some 1
ordered_quantity (some fractional) = none
ordered_quantity (some (whole (negsuc n))) = none
ordered_quantity (some (whole (pos n))) = if ltb n 1 then none else some n

-- `price * quantity`
unfoldable pub times : ℕ → ℤ → ℤ
times zero price = pos 0
times (suc n) price = price +ℤ times n price

abbrev pub order_line : PricedProduct → ℕ → ResolvedOrderItem
order_line p quantity = record {
  sku_id = p.sku_id;
  name = p.name;
  price_in_cents = effective_unit_price_in_cents p;
  quantity = quantity;
  sub_total_in_cents = times quantity (effective_unit_price_in_cents p);
}

-- The loop over the items, with what it has so far.
unfoldable pub resolve_items :
    Dict PricedProduct → List RequestedOrderItem → List ResolvedOrderItem → ℤ → Reply ResolvedOrder
resolve_items catalog [] lines total = resolved (record { items = lines; total_in_cents = total })
resolve_items catalog (item ∷ items) lines total = elim (get item.sku_id catalog) [
  | none ↦ thrown (unknown_sku item.sku_id)
  | some p ↦ elim (ordered_quantity item.quantity) [
    | none ↦ thrown (invalid_quantity item.sku_id)
    | some quantity ↦
        let line = order_line p quantity in
        resolve_items catalog items (lines ++ line ∷ []) (total +ℤ line.sub_total_in_cents)
  ]
]

unfoldable pub resolve_order_items :
    List PricedProduct → List RequestedOrderItem → Reply ResolvedOrder
resolve_order_items products [] = thrown no_items
resolve_order_items products (item ∷ items) =
    resolve_items (catalog_from [] products) (item ∷ items) [] (pos 0)
