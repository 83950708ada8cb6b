-- ===== src/Prelude/Action.antt =====
-- What an asynchronous function of the backend does to the database: it returns or throws, and
-- what it wrote before a throw stays written unless a transaction rolls it back.
use kintsugi.Prelude.Tests.{if◌then◌else◌}
use Prim.Native.Nat.{ℕ}
use mathlib.Core.Path.{◌≡◌, refl}
use mathlib.Core.Logic.{◌⊎◌, inl, inr}
use mathlib.Core.Bool.{Bool}
use mathlib.Core.Option.{Option, none, some}

-- The codes of ReservationError, OrderError, RefundError, SalesError, AddressError and
-- PasswordError, and the failures of the database.
pub data Code : Type 0 where
  invalid_quantity not_found own_listing already_held unavailable insufficient_stock not_held : Code
  no_address nothing_to_buy item_gone hold_expired not_payable : Code
  reason_required invalid_amount not_refundable no_payment_reference exceeds_order_total : Code
  refund_in_progress provider_refused refund_unconfirmed refund_failed : Code
  not_shippable not_shipped already_delivered already_unfulfillable : Code
  too_many invalid_country : Code
  invalid_input same_password password_breached wrong_password invalid_token : Code
  record_not_found unique_violation provider_unreachable : Code

-- A value, or a thrown error with its HTTP status.
pub data Result (A : Type 0) : Type 0 where
  ok : A → Result A
  err : Code → ℕ → Result A

abbrev pub Action : Type 0 → Type 0 → Type 0
Action S A = S → Result A × S

module _ {S A : Type 0} where
  abbrev pub pure : A → Action S A
  pure a s = (ok a, s)

  abbrev pub throw : Code → ℕ → Action S A
  throw c n s = (err c n, s)

  abbrev pub gets : (S → A) → Action S A
  gets f s = (ok (f s), s)

  abbrev pub or_throw : Option A → Code → ℕ → Action S A
  or_throw none c n = throw c n
  or_throw (some a) c n = pure a

  -- The end of a transaction: a throw rolls back to `s`.
  abbrev pub settle : S → Result A × S → Result A × S
  settle s (ok a, t) = (ok a, t)
  settle s (err c n, t) = (err c n, s)

  -- `prisma.$transaction(async (tx) => …)`
  abbrev pub transaction : Action S A → Action S A
  transaction m s = settle s (m s)

infixl 5 ◌>>=◌ ◌>>◌
abbrev pub ◌>>=◌ : {S A B : Type 0} → Action S A → (A → Action S B) → Action S B
◌>>=◌ m f s = let (r, s') = m s in elim r [ ok a ↦ f a s' | err c n ↦ (err c n, s') ]

abbrev pub ◌>>◌ : {S A B : Type 0} → Action S A → Action S B → Action S B
m >> k = m >>= λ _. k

abbrev pub throw_if : {S : Type 0} → Bool → Code → ℕ → Action S (Unit {0})
throw_if b c n s = (if b then err c n else ok tt, s)

abbrev pub modify : {S : Type 0} → (S → S) → Action S (Unit {0})
modify f s = (ok tt, f s)

abbrev pub IsOk : {A : Type 0} → Result A → Type 0
IsOk (ok a) = Unit
IsOk (err c n) = ⊥

pub Run-cases :
    {S A : Type 0} (r : Result A × S)
    → ((a : A) × (s : S) × (r ≡ (ok a, s))) ⊎ ((c : Code) × (n : ℕ) × (s : S) × (r ≡ (err c n, s)))
Run-cases (ok a, s) = inl (a, s, refl)
Run-cases (err c n, s) = inr (c, n, s, refl)
