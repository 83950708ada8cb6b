-- ===== src/Examples/Shop.antt =====
-- The rows of the example: listing 1 has three pieces left, and one more held by user 20; listing 2
-- is gone from the shelf, in the paid order 51 and in the open order 50.
use kintsugi.Prelude.{true, none, some, [], ◌∷◌}
use kintsugi.Prelude.Text.{text}
use kintsugi.Schema.{
  Db, SellerProfile, ShipTo, Listing, ListingStatus, Reservation, ReservationStatus, Order,
  OrderItem, OrderStatus, FulfilmentStatus,
}

abbrev pub seller : SellerProfile
seller = record {
  user_id = 10;
  shop_name = text "Kin";
  payouts_enabled = true;
  payouts_ready = true;
  connect_account_id = some 900;
}

abbrev pub home : ShipTo
home = record {
  full_name = text "A";
  line1 = text "1 Road";
  line2 = none;
  city = text "B";
  region = none;
  postcode = text "C";
  country = text "GB";
  phone = none;
}

abbrev pub cup : Listing
cup = record {
  title = text "cup";
  seller_id = 7;
  price_cents = 1200;
  currency = text "USD";
  quantity = 3;
  status = ListingStatus.active;
  deleted_at = none;
}

abbrev pub vase : Listing
vase = record cup { title = text "vase"; quantity = 0; status = ListingStatus.reserved }

abbrev pub cup_hold : Reservation
cup_hold = record {
  listing_id = 1;
  user_id = 20;
  quantity = 1;
  status = ReservationStatus.held;
  expires_at = 100;
  released_at = none;
}

abbrev pub vase_hold : Reservation
vase_hold = record cup_hold { listing_id = 2; user_id = 21; quantity = 2 }

abbrev pub open_order : Order
open_order = record {
  reference = text "KIN-A";
  buyer_id = 22;
  status = OrderStatus.pending_payment;
  subtotal_cents = 1200;
  currency = text "USD";
  ship_to = home;
  payment_provider = some (text "stub");
  payment_intent_id = some 500;
  paid_at = none;
  failure_reason = none;
  refunded_cents = 0;
  created_at = 0;
  updated_at = 0;
}

abbrev pub paid_order : Order
paid_order = record open_order {
  reference = text "KIN-B";
  status = OrderStatus.paid;
  paid_at = some 5;
}

abbrev pub vase_line : OrderItem
vase_line = record {
  order_id = 50;
  listing_id = some 2;
  seller_id = some 7;
  title = text "vase";
  unit_price_cents = 1200;
  quantity = 1;
  seller_name = text "Kin";
  fulfilment = FulfilmentStatus.unfulfilled;
  shipped_at = none;
  delivered_at = none;
  carrier = none;
  tracking_number = none;
  fulfilment_note = none;
}

abbrev pub sold_line : OrderItem
sold_line = record vase_line {
  order_id = 51;
  fulfilment = FulfilmentStatus.delivered;
  delivered_at = some 6;
}

abbrev pub shop : Db
shop = record {
  sellers = (7, seller) ∷ [];
  addresses =
      (30, record { user_id = 20; ship_to = home; is_default = true; deleted_at = none }) ∷ [];
  listings = (1, cup) ∷ (2, vase) ∷ [];
  reservations = (40, cup_hold) ∷ (41, vase_hold) ∷ [];
  orders = (50, open_order) ∷ (51, paid_order) ∷ [];
  order_items = (60, vase_line) ∷ (61, sold_line) ∷ [];
  refunds = [];
  payouts = [];
  payout_items = [];
  payout_debts = [];
  return_requests = [];
}
