-- ===== src/Schema.antt =====
-- The rows of the database that the marketplace's money and stock live in
-- (backend/prisma/schema.prisma). Keys are UUIDs that are only compared, so they are numbers; a
-- time is a number of milliseconds; an amount of money is a number of minor units. Columns that
-- are only displayed are left out.
use kintsugi.Prelude.{ℕ, Bool, true, false, Option}
use kintsugi.Prelude.Table.{Table}
use kintsugi.Prelude.Text.{Text}

pub data ListingStatus : Type 0 where
  draft active reserved sold removed : ListingStatus

pub data ReservationStatus : Type 0 where
  held released converted expired : ReservationStatus

pub data OrderStatus : Type 0 where
  pending_payment processing paid failed cancelled refunded : OrderStatus

pub data RefundStatus : Type 0 where
  pending succeeded failed : RefundStatus

pub data RefundTrigger : Type 0 where
  seller_unfulfillable admin buyer_return : RefundTrigger

pub data FulfilmentStatus : Type 0 where
  unfulfilled shipped delivered unfulfillable : FulfilmentStatus

pub data PayoutStatus : Type 0 where
  pending paid failed : PayoutStatus

pub data ReturnStatus : Type 0 where
  open_ approved refused escalated rejected withdrawn : ReturnStatus

pub record SellerProfile : Type 0 where
  pub user_id : ℕ
  pub shop_name : Text
  pub payouts_enabled : Bool
  pub payouts_ready : Bool
  pub connect_account_id : Option ℕ

-- The part of an address that an order copies.
pub record ShipTo : Type 0 where
  pub full_name : Text
  pub line1 : Text
  pub line2 : Option Text
  pub city : Text
  pub region : Option Text
  pub postcode : Text
  pub country : Text
  pub phone : Option Text

pub record Address : Type 0 where
  pub user_id : ℕ
  pub ship_to : ShipTo
  pub is_default : Bool
  pub deleted_at : Option ℕ

pub record Listing : Type 0 where
  pub title : Text
  pub seller_id : ℕ
  pub price_cents : ℕ
  pub currency : Text
  pub quantity : ℕ
  pub status : ListingStatus
  pub deleted_at : Option ℕ

pub record Reservation : Type 0 where
  pub listing_id : ℕ
  pub user_id : ℕ
  pub quantity : ℕ
  pub status : ReservationStatus
  pub expires_at : ℕ
  pub released_at : Option ℕ

pub record Order : Type 0 where
  pub reference : Text
  pub buyer_id : ℕ
  pub status : OrderStatus
  pub subtotal_cents : ℕ
  pub currency : Text
  pub ship_to : ShipTo
  pub payment_provider : Option Text
  pub payment_intent_id : Option ℕ
  pub paid_at : Option ℕ
  pub failure_reason : Option Text
  pub refunded_cents : ℕ
  pub created_at : ℕ
  pub updated_at : ℕ

pub record OrderItem : Type 0 where
  pub order_id : ℕ
  pub listing_id : Option ℕ
  pub seller_id : Option ℕ
  pub title : Text
  pub unit_price_cents : ℕ
  pub quantity : ℕ
  pub seller_name : Text
  pub fulfilment : FulfilmentStatus
  pub shipped_at : Option ℕ
  pub delivered_at : Option ℕ
  pub carrier : Option Text
  pub tracking_number : Option Text
  pub fulfilment_note : Option Text

pub record Refund : Type 0 where
  pub order_id : ℕ
  pub order_item_id : Option ℕ
  pub amount_cents : ℕ
  pub currency : Text
  pub status : RefundStatus
  pub trigger : RefundTrigger
  pub reason : Text
  pub initiated_by_id : Option ℕ
  pub provider : Text
  pub provider_refund_id : Option ℕ
  pub failure_reason : Option Text
  pub completed_at : Option ℕ

pub record Payout : Type 0 where
  pub seller_id : ℕ
  pub amount_cents : ℕ
  pub netted_cents : ℕ
  pub status : PayoutStatus
  pub provider_transfer_id : Option ℕ
  pub failure_reason : Option Text
  pub completed_at : Option ℕ

pub record PayoutItem : Type 0 where
  pub payout_id : ℕ
  pub order_item_id : ℕ
  pub amount_cents : ℕ
  pub reversed_at : Option ℕ
  pub provider_reversal_id : Option ℕ

pub record PayoutDebt : Type 0 where
  pub seller_id : ℕ
  pub amount_cents : ℕ
  pub order_item_id : Option ℕ
  pub settled_at : Option ℕ

pub record ReturnRequest : Type 0 where
  pub order_item_id : ℕ
  pub order_id : ℕ
  pub buyer_id : ℕ
  pub status : ReturnStatus
  pub reason : Text
  pub not_as_described : Bool
  pub decision_note : Option Text
  pub decided_by_id : Option ℕ
  pub decided_at : Option ℕ
  pub refund_id : Option ℕ

pub record Db : Type 0 where
  pub sellers : Table SellerProfile
  pub addresses : Table Address
  pub listings : Table Listing
  pub reservations : Table Reservation
  pub orders : Table Order
  pub order_items : Table OrderItem
  pub refunds : Table Refund
  pub payouts : Table Payout
  pub payout_items : Table PayoutItem
  pub payout_debts : Table PayoutDebt
  pub return_requests : Table ReturnRequest

abbrev pub is_held : ReservationStatus → Bool
is_held ReservationStatus.held = true
is_held _ = false

-- The rows of PENDING_PAYMENT and PROCESSING orders hold stock that can still come back.
abbrev pub is_stock_committed : OrderStatus → Bool
is_stock_committed OrderStatus.pending_payment = true
is_stock_committed OrderStatus.processing = true
is_stock_committed _ = false
