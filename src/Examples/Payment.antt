-- ===== src/Examples/Payment.antt =====
-- The theorems on payment, and on the headroom of refunds, at the example's shop.
use kintsugi.Prelude.{◌+◌, ◌≤◌, ◌≡◌, refl, true, [], ◌∷◌, arith}
use kintsugi.Prelude.Table.{find_unique}
use kintsugi.Schema.{Db}
use kintsugi.Orders.Sweeps.{pay, Confirmation}
use kintsugi.Orders.Payment.{race, race-le-one}
use kintsugi.Orders.Charging.{pay-charges}
use kintsugi.Refunds.Headroom.{grants, grants-le-subtotal}
use kintsugi.Examples.Shop.{shop, open_order, paid_order}

race-le-one_example : (race 50 ((1, 22) ∷ (2, 22) ∷ (3, 21) ∷ []) shop).0 ≤ 1
unfolding find_unique
race-le-one_example =
    race-le-one 50 ((1, 22) ∷ (2, 22) ∷ (3, 21) ∷ []) open_order shop (refl, (refl, tt)) refl

-- The orders are gone when the provider has answered.
abbrev meanwhile : Db → Db
meanwhile db = record db { orders = [] }

pay-charges_example : (pay 3 22 50 (λ intent. Confirmation.succeeded) meanwhile shop).0 ≡ true
unfolding find_unique
pay-charges_example =
    pay-charges 3 22 50 (λ intent. Confirmation.succeeded) meanwhile open_order shop
      (refl, (refl, tt)) refl

grants-le-subtotal_example : 0 + grants 51 ((1, 700) ∷ (2, 700) ∷ (3, 500) ∷ []) shop ≤ 1200
unfolding find_unique
grants-le-subtotal_example =
    grants-le-subtotal 51 ((1, 700) ∷ (2, 700) ∷ (3, 500) ∷ []) paid_order shop (refl, (refl, tt))
      refl (omega arith)
