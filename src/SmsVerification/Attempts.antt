-- ===== src/SmsVerification/Attempts.antt =====
-- How many attempts a code has left, after each write to the table
-- (backend/src/lib/smsVerification.ts).
use kintsugi.Prelude.{
  ℕ, ◌+◌, ◌-◌, ◌≤◌, ◌<◌, ◌≡◌, refl, inl, inr, Bool, Option, none, some, [], ◌∷◌, ◌==◌,
  if◌then◌else◌, arith, Bool-cases,
}
use kintsugi.Prelude.Table.{Table, find_unique, update, update_many, create}
use kintsugi.SmsVerification.{PhoneVerification, count_attempt}

-- How many attempts a code has left; all of them where it is not issued yet.
abbrev pub left_of : Option PhoneVerification → ℕ
left_of none = 5
left_of (some r) = 5 - r.attempts

pub left-update :
    (id k : ℕ) (f : PhoneVerification → PhoneVerification) (t : Table PhoneVerification)
    → ((r : PhoneVerification) → (f r).attempts ≡ r.attempts)
    → left_of (find_unique id (update k f t)) ≡ left_of (find_unique id t)
unfolding find_unique update
left-update id k f [] same = refl
left-update id k f ((j, r) ∷ t) same = ground (arith, same r, left-update id k f t same)

pub left-update_many :
    (id : ℕ) (p : ℕ → PhoneVerification → Bool) (f : PhoneVerification → PhoneVerification)
    (t : Table PhoneVerification)
    → ((r : PhoneVerification) → (f r).attempts ≡ r.attempts)
    → left_of (find_unique id (update_many p f t)) ≡ left_of (find_unique id t)
unfolding find_unique update_many
left-update_many id p f [] same = refl
left-update_many id p f ((j, r) ∷ t) same = ground (arith, same r, left-update_many id p f t same)

pub left-create :
    (id k : ℕ) (r : PhoneVerification) (t : Table PhoneVerification)
    → r.attempts ≡ 0
    → find_unique k t ≡ none
    → left_of (find_unique id (create k r t)) ≡ left_of (find_unique id t)
unfolding find_unique create
left-create id k r [] zero_ fresh = ground (arith, zero_)
left-create id k r ((j, s) ∷ t) zero_ fresh =
    ground (arith, fresh, left-create id k r t zero_ (ground (arith, fresh)))

pub left-count_attempt :
    (id k : ℕ) (r : PhoneVerification) (t : Table PhoneVerification)
    → find_unique k t ≡ some r
    → r.attempts < 5
    → left_of (find_unique id (update k count_attempt t)) + (if k == id then 1 else 0)
      ≡ left_of (find_unique id t)
unfolding find_unique update
left-count_attempt id k r [] e low = absurd (ground (arith, e))
left-count_attempt id k r ((j, s) ∷ t) e low = elim (Bool-cases (j == k)) [
  | inl here ↦
      let key : j ≡ k = ground (arith, here) in
      let row : s ≡ r = ground (arith, here, e) in ground (arith, here, key, row, low)
  | inr there ↦ ground (arith, there, e, left-count_attempt id k r t (ground (arith, there, e)) low)
]

pub left_of-le : (r : Option PhoneVerification) → left_of r ≤ 5
left_of-le none = omega arith
left_of-le (some r) = omega arith
