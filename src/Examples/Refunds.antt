-- ===== src/Examples/Refunds.antt =====
-- The theorems on refunds and returns at the example's shop.
use kintsugi.Prelude.{◌≡◌, refl, true, none}
use kintsugi.Prelude.Table.{find_unique, sum_by}
use kintsugi.Prelude.Text.{text}
use kintsugi.Refunds.{issue_refund}
use kintsugi.Refunds.Books.{IsBalanced, booked}
use kintsugi.Refunds.Settling.{issue_refund-IsBalanced}
use kintsugi.Returns.{withdraw_return, escalate_return, approve_return, refuse_return}
use kintsugi.Returns.Answers.{answered-kept}
use kintsugi.Examples.Shop.{shop}
use kintsugi.Examples.Money.{world, half_back, answered_shop, refusal}

issue_refund-IsBalanced_example : IsBalanced 51 (issue_refund world half_back shop).1
unfolding find_unique booked sum_by
issue_refund-IsBalanced_example =
    issue_refund-IsBalanced world half_back 51 shop (refl, (refl, tt)) refl refl

answered-kept_example :
    ((withdraw_return 30 22 97 answered_shop).1 ≡ answered_shop)
    × ((escalate_return 22 97 answered_shop).1 ≡ answered_shop)
    × ((approve_return world 97 22 none true answered_shop).1 ≡ answered_shop)
    × ((refuse_return 30 97 22 (text "again") true answered_shop).1 ≡ answered_shop)
unfolding find_unique
answered-kept_example =
    answered-kept world 30 22 97 none (text "again") true refusal answered_shop (refl, tt) refl refl
