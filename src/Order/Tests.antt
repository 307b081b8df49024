-- ===== src/Order/Tests.antt =====
-- Orders at concrete inputs.
use newbie_modules.Common.{◌≡◌, refl, none, some, [], ◌∷◌, get, set}
use newbie_modules.Common.Int.{pos}
use newbie_modules.Order.Pricing.{
  PricedProduct, RequestedOrderItem, thrown, unknown_sku, whole, catalog_from, resolve_items,
  resolve_order_items,
}
use newbie_modules.Order.Totals.{priced_lines, summed, resolve_order_items-priced_lines}

abbrev pen : PricedProduct
pen = record {
  sku_id = "pen";
  name = "Pen";
  price_in_cents = pos 200;
  price_in_cents_discounted = some (pos 150);
}

abbrev three_pens : RequestedOrderItem
three_pens = record { sku_id = "pen"; quantity = some (whole (pos 3)) }

abbrev one_lamp : RequestedOrderItem
one_lamp = record { sku_id = "lamp"; quantity = none }

no_lamps : resolve_order_items (pen ∷ []) (three_pens ∷ one_lamp ∷ []) ≡ thrown (unknown_sku "lamp")
unfolding resolve_order_items resolve_items catalog_from get set
no_lamps = refl

resolve_order_items-priced_lines_example :
    resolve_order_items (pen ∷ []) (three_pens ∷ [])
    ≡ summed [] (pos 0) (priced_lines (pen ∷ []) (three_pens ∷ []))
resolve_order_items-priced_lines_example = resolve_order_items-priced_lines (pen ∷ []) three_pens []
