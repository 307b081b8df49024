-- ===== src/Order/Totals.antt =====
-- The order that order/order-pricing.ts resolves, against its description item by item.
use mathlib.Core.List.{append_assoc, append-nil}
use newbie_modules.Common.{
  ℕ, zero, suc, ◌*◌, ◌≡◌, refl, ap, ◌∙◌, String, Option, none, some, List, [], ◌∷◌, ◌++◌,
  if◌then◌else◌, str_eq, Dict, get, set, get-set, Bool-cases, Option-cases, inl, inr, arith,
}
use newbie_modules.Common.Int.{ℤ, pos, negsuc, sub_ℕ, ◌+ℤ◌, +ℤ_assoc, +ℤ-zero}
use newbie_modules.Order.Pricing.{
  PricedProduct, Quantity, whole, fractional, RequestedOrderItem, ResolvedOrderItem, ResolvedOrder,
  Reply, resolved, thrown, unknown_sku, invalid_quantity, catalog_from, ordered_quantity,
  order_line, times, resolve_items, resolve_order_items,
}

-- The product of a SKU; of several, the last.
abbrev pub product_of : String → List PricedProduct → Option PricedProduct
product_of sku [] = none
product_of sku (p ∷ ps) = elim (product_of sku ps) [
  | some q ↦ some q
  | none ↦ if str_eq p.sku_id sku then some p else none
]

abbrev pub prepend :
    ResolvedOrderItem → Reply (List ResolvedOrderItem) → Reply (List ResolvedOrderItem)
prepend line (resolved lines) = resolved (line ∷ lines)
prepend line (thrown e) = thrown e

abbrev pub or_regular : Option ℤ → ℤ → ℤ
or_regular none regular = regular
or_regular (some discounted) regular = discounted

-- The price that holds: the discounted one where there is one.
abbrev pub unit_price : PricedProduct → ℤ
unit_price p = or_regular p.price_in_cents_discounted p.price_in_cents

-- One if the item names no quantity, and else a whole number from one on.
abbrev pub valid_quantity : Option Quantity → Option ℕ
valid_quantity none = some 1
valid_quantity (some (whole (pos (suc n)))) = some (suc n)
valid_quantity (some _) = none

-- The product of a quantity and a price, by the sign of the price.
abbrev pub product : ℕ → ℤ → ℤ
product quantity (pos cents) = pos (quantity * cents)
product quantity (negsuc cents) = sub_ℕ 0 (quantity * suc cents)

abbrev pub priced_line : PricedProduct → ℕ → ResolvedOrderItem
priced_line p quantity = record {
  sku_id = p.sku_id;
  name = p.name;
  price_in_cents = unit_price p;
  quantity = quantity;
  sub_total_in_cents = product quantity (unit_price p);
}

-- Each item by itself, up to the first that cannot be ordered.
abbrev pub priced_lines :
    List PricedProduct → List RequestedOrderItem → Reply (List ResolvedOrderItem)
priced_lines products [] = resolved []
priced_lines products (item ∷ items) = elim (product_of item.sku_id products) [
  | none ↦ thrown (unknown_sku item.sku_id)
  | some p ↦ elim (valid_quantity item.quantity) [
    | none ↦ thrown (invalid_quantity item.sku_id)
    | some quantity ↦ prepend (priced_line p quantity) (priced_lines products items)
  ]
]

abbrev pub sum_of_sub_totals : List ResolvedOrderItem → ℤ
sum_of_sub_totals [] = pos 0
sum_of_sub_totals (line ∷ lines) = line.sub_total_in_cents +ℤ sum_of_sub_totals lines

abbrev pub summed :
    List ResolvedOrderItem → ℤ → Reply (List ResolvedOrderItem) → Reply ResolvedOrder
summed before total (resolved lines) =
    resolved (record { items = before ++ lines; total_in_cents = total +ℤ sum_of_sub_totals lines })
summed before total (thrown e) = thrown e

or_known : Option PricedProduct → Option PricedProduct → Option PricedProduct
or_known none old = old
or_known (some q) old = some q

catalog-product_of :
    (sku : String) (catalog : Dict PricedProduct) (ps : List PricedProduct)
    → get sku (catalog_from catalog ps) ≡ or_known (product_of sku ps) (get sku catalog)
unfolding catalog_from or_known
catalog-product_of sku catalog [] = refl
catalog-product_of sku catalog (p ∷ ps) =
    catalog-product_of sku (set p.sku_id p catalog) ps ∙ elim (Option-cases (product_of sku ps)) [
      | inr (q, later) ↦ rw later refl
      | inl absent ↦ elim (Bool-cases (str_eq p.sku_id sku)) [
        | inl same ↦ rw (absent, get-set p.sku_id sku p catalog, same) refl
        | inr other ↦ rw (absent, get-set p.sku_id sku p catalog, other) refl
      ]
    ]

in_catalog :
    (sku : String) (ps : List PricedProduct) → get sku (catalog_from [] ps) ≡ product_of sku ps
unfolding get or_known
in_catalog sku ps = catalog-product_of sku [] ps ∙ elim (Option-cases (product_of sku ps)) [
  | inl absent ↦ rw absent refl
  | inr (q, known) ↦ rw known refl
]

summed-prepend :
    (before : List ResolvedOrderItem) (total : ℤ) (line : ResolvedOrderItem)
    (r : Reply (List ResolvedOrderItem))
    → summed (before ++ line ∷ []) (total +ℤ line.sub_total_in_cents) r
      ≡ summed before total (prepend line r)
summed-prepend before total line (thrown e) = refl
summed-prepend before total line (resolved lines) =
    rw
      (
        append_assoc before (line ∷ []) lines,
        +ℤ_assoc total line.sub_total_in_cents (sum_of_sub_totals lines),
      )
      refl

times-product : (quantity : ℕ) (price : ℤ) → times quantity price ≡ product quantity price
unfolding times ◌+ℤ◌
times-product zero (pos cents) = ground arith
times-product zero (negsuc cents) = ground arith
times-product (suc n) (pos cents) = ground (arith, times-product n (pos cents))
times-product (suc n) (negsuc cents) = ground (arith, times-product n (negsuc cents))

order_line-priced_line :
    (p : PricedProduct) (quantity : ℕ) → order_line p quantity ≡ priced_line p quantity
order_line-priced_line p quantity = elim (Option-cases p.price_in_cents_discounted) [
  | inl none_given ↦ rw (none_given, times-product quantity p.price_in_cents) refl
  | inr (discounted, given) ↦ rw (given, times-product quantity discounted) refl
]

ordered_quantity-valid_quantity : (q : Option Quantity) → ordered_quantity q ≡ valid_quantity q
ordered_quantity-valid_quantity none = refl
ordered_quantity-valid_quantity (some fractional) = refl
ordered_quantity-valid_quantity (some (whole (negsuc n))) = refl
ordered_quantity-valid_quantity (some (whole (pos zero))) = refl
ordered_quantity-valid_quantity (some (whole (pos (suc n)))) = ground arith

resolve_items-summed :
    (products : List PricedProduct) (items : List RequestedOrderItem)
    (before : List ResolvedOrderItem) (total : ℤ)
    → resolve_items (catalog_from [] products) items before total
      ≡ summed before total (priced_lines products items)
unfolding resolve_items
resolve_items-summed products [] before total = rw (append-nil before, +ℤ-zero total) refl
resolve_items-summed products (item ∷ items) before total =
    let found = in_catalog item.sku_id products in
    let asked = ordered_quantity-valid_quantity item.quantity in
    elim (Option-cases (product_of item.sku_id products)) [
      | inl absent ↦ rw (resolve_items, found, priced_lines, absent) refl
      | inr (p, known) ↦ elim (Option-cases (valid_quantity item.quantity)) [
        | inl bad ↦ rw (resolve_items, found, priced_lines, known, asked, bad) refl
        | inr (quantity, good) ↦
            let line = order_line p quantity in
            let rest = priced_lines products items in
            rw (resolve_items, found, priced_lines, known, asked, good)
              (resolve_items-summed products items (before ++ line ∷ [])
                  (total +ℤ line.sub_total_in_cents)
                ∙ summed-prepend before total line rest
                ∙ ap (λ l. summed before total (prepend l rest))
                    (order_line-priced_line p quantity))
      ]
    ]

-- An order with items has for each item a line with the name and the price of its product in the
-- catalog, the last of a SKU, where a discounted price goes before the regular one; the quantity is
-- the one asked for, or one; the subtotal is the product of price and quantity, and the total is the
-- sum of the subtotals. The first item of an unknown SKU, or of a quantity that is no whole number
-- from one on, is the error of the whole order.
pub resolve_order_items-priced_lines :
    (products : List PricedProduct) (item : RequestedOrderItem) (items : List RequestedOrderItem)
    → resolve_order_items products (item ∷ items)
      ≡ summed [] (pos 0) (priced_lines products (item ∷ items))
unfolding resolve_order_items
resolve_order_items-priced_lines products item items =
    resolve_items-summed products (item ∷ items) [] (pos 0)
