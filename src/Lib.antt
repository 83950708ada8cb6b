-- ===== src/Lib.antt =====
-- The backend of the Kintsugi marketplace, modelled and verified.
--
-- The program is an Express backend over one PostgreSQL database. This library models the part of
-- it that decides who may have a piece of stock and where money goes (holds on listings, orders and
-- their payment, payouts to sellers, refunds to buyers, returns, fulfilment), the delivery of notices
-- (outbox, relay, delivery ledger, retry ladder), and four parts of an account (sessions, passwords,
-- phone numbers and addresses). The parts meet in the database:
-- a checkout turns the holds of a buyer into an order; a payment marks the order PAID; a delivered
-- line of a paid order becomes payable to its seller; a refund withholds the line from a payout, or
-- claws it back after one; a return that is approved is a refund, and so is a line that its seller
-- gives up. A notice is put in the outbox with what it is about; the relay hands it to Kafka, and a
-- worker for each channel delivers it under the ledger, or moves it up the ladder.
--
-- Files, and the code that each is about:
--   Schema           backend/prisma/schema.prisma: the rows of the tables of stock and money, and the
--                    database `Db`
--   Prelude          Boolean tests; Prelude/Table the Prisma calls on a table (find_unique for
--                    findUnique, update_many for updateMany, and so on), Prelude/Table/Lookup and
--                    Prelude/Table/Sums their lemmas; Prelude/Action functions that may throw, and
--                    transactions that roll back; Prelude/Text strings and trim
--   Stock            the pieces of a listing: on its shelf, on hold, in orders
--   Reservations     backend/src/lib/reservations.ts: reserve_listing, release_reservation,
--                    release_expired_holds; Conservation, Sweep, Single and Races hold the theorems
--   Orders           backend/src/lib/orders.ts, with the address of backend/src/lib/addresses.ts:
--                    create_order_from_holds, claim_order_for_payment, mark_order_paid,
--                    release_order; Orders/Sweeps has the jobs on old orders, and the payment and
--                    the cancellation of backend/src/routes/orders.ts; Checkout, Conservation,
--                    Payment, Charging, Settlement, Races and Stranded hold the theorems
--   History          any sequence of the calls above that run one after another, as a relation
--                    between databases
--   Payouts          backend/src/lib/payouts.ts: payable_items and earnings_summary;
--                    Payouts/Claiming has claim_payout, Payouts/Sending has send_claimed_payout and
--                    send_pending_payouts, Payouts/Running has run_payout, Payouts/Reversal has
--                    reverse_for_refund; Summary, Netting, Books, Transfers, Running and Clawback
--                    hold the theorems
--   Refunds          backend/src/lib/refunds.ts: issue_refund, refund_unfulfillable_line,
--                    settle_refund_from_provider; Books, Frame, Settling, Outcome and Headroom
--                    hold the theorems
--   Returns          backend/src/lib/returns.ts: eligibility, open_return, withdraw_return,
--                    escalate_return, approve_return, refuse_return; Answers holds the theorems
--   Sales            backend/src/lib/sales.ts: mark_shipped, mark_delivered, mark_unfulfillable;
--                    Parcel has the way of a line and Parcel/Stages its theorem, Books its refund,
--                    Summary sales_summary
--   Addresses        backend/src/lib/addresses.ts: create_address, update_address,
--                    set_default_address, delete_address; Tally, Default, Removal and Single hold
--                    the theorems
--   RefreshTokens    backend/src/lib/refreshTokens.ts: rotate_refresh_token and what it calls, split
--                    after its read, the revocations; Rotation and Sessions hold the theorems
--   Passwords        backend/src/lib/passwordReset.ts: change_password, request_password_reset,
--                    reset_password; Lockout holds the theorems
--   SmsVerification  backend/src/lib/smsVerification.ts: issue_and_send_code, verify_code,
--                    remove_phone; Attempts, Guesses and Races hold the theorems
--   Outbox           backend/src/lib/outbox.ts, backend/src/lib/relay.ts and
--                    backend/src/lib/outboxRetention.ts: enqueue, relay_once, drain,
--                    prune_outbox_once; Pending has the rows that wait, Queue the abstract
--                    queue, Drain the loop
--   Delivery         backend/src/lib/deliveryLedger.ts: claim, deliver, redeliver_deferred;
--                    Delivery/Policy has backend/src/lib/channelPolicy.ts, Delivery/Ladder has
--                    backend/src/lib/retry.ts and the handler of backend/src/worker.ts,
--                    Delivery/Deferred has backend/src/lib/deferredDeliveries.ts; Once, Climb,
--                    Deferred/Resent and Deferred/Kept hold the theorems
--   Quiet            backend/src/lib/quietHours.ts: quiet_hours_now; Window holds the theorems
--   Phone            backend/src/lib/phone.ts: to_e164; Canonical holds the theorems
--   Examples         a small shop, and every theorem that has conditions applied to it
--
-- A function of the source is a function of the database, which returns what the source returns and
-- the database that it leaves, as it does when nothing else writes meanwhile. One conditional UPDATE is
-- one step whatever else runs, and so is reserveListing, which takes the lock of its listing before
-- it reads. Other functions read before they take a lock or before they write: releaseReservation,
-- releaseOrder, markOrderPaid, createAddress, the claim of a payout, a rotation and the check of a
-- code. These are split after the read, into a function that takes what was read (return_hold,
-- release_after, paid_after, create_after, commit, rotate_after, verify_after) and the composition of
-- the two. A race is a sequence of steps of which a later one works on rows that were read before an
-- earlier one (Reservations/Races, Orders/Races, Payouts/Books, RefreshTokens/Rotation,
-- SmsVerification/Races). `pay` takes what other requests do while the provider is asked as an
-- argument. A history of History runs its calls one after another and covers no such overlap. The
-- clock, the environment's settings, the keys that the database mints and the answers of the payment
-- and payout providers are arguments. Keys are numbers, times are milliseconds, money is counted in
-- minor units and never wraps: the columns are 32-bit integers, whose overflow is not modelled. Rows
-- stand in the order of their creation, which is the order of the source's queries except where a
-- query sorts by another column, and no theorem depends on that, except that the outbox is
-- published in the order in which its rows were created, which is the order that its query asks
-- for. Loops of the source are recursions over the rows they visit. Two run on fuel: `drain` on a
-- number of passes, for which Outbox/Drain proves that one more than there are events waiting is
-- enough, and `climb` on a number of rounds, for which Delivery/Climb proves that four are.
--
-- Not modelled: the wording of notices and the services that carry them (Kafka's connection, mail,
-- push, text messages), search and listing pages, sign-in, identity checks, uploads, reviews, moderation, placement and messaging, the HTTP layer,
-- and the frontend. Of the columns that the models of stock and money read, they write the listings
-- that a seller edits and the gates of a seller; the models take these as they find them. No
-- history of History has such a write, nor one of an address or of the fulfilment of a line.
pub mod Prelude
pub mod Schema
pub mod Stock
pub mod Reservations
pub mod Orders
pub mod Payouts
pub mod Refunds
pub mod Returns
pub mod Phone
pub mod Quiet
pub mod Delivery
pub mod Outbox
pub mod RefreshTokens
pub mod Sales
pub mod Addresses
pub mod SmsVerification
pub mod Passwords
pub mod History
pub mod Examples
