-- ===== src/Payouts/Netting.antt =====
-- How a claim nets the debts of the seller (backend/src/lib/payouts.ts, claimPayout).
use kintsugi.Prelude.{
  Bool, none, some, contains, List, ℕ, ◌+◌, ◌-◌, ◌<◌, ◌≡◌, refl, inl, inr, [], ◌∷◌, ◌++◌, arith,
  ltb, Bool-cases, ◌==◌, ◌&&◌, if◌then◌else◌, is_none,
}
use kintsugi.Prelude.Table.{Table, sum_by, find_unique, find_many, update_many, ids, IsKeyed}
use kintsugi.Schema.{PayoutDebt}
use kintsugi.Payouts.Claiming.{net_debts}

abbrev pub debt_cents : Table PayoutDebt → ℕ
debt_cents = sum_by (λ _ d. d.amount_cents)

-- What a seller owes: its debts that are not settled.
abbrev pub owed_by : ℕ → ℕ → PayoutDebt → ℕ
owed_by seller_id _ d =
    if d.seller_id == seller_id && is_none d.settled_at then d.amount_cents else 0

abbrev pub owed_cents : ℕ → Table PayoutDebt → ℕ
owed_cents seller_id = sum_by (owed_by seller_id)

-- The netting stops only at a debt that what remains cannot absorb.
abbrev pub IsBlocked : ℕ → Table PayoutDebt → Type 0
IsBlocked remaining [] = Unit
IsBlocked remaining ((id, d) ∷ debts) = remaining < d.amount_cents

-- Netting neither makes nor loses money, and it is oldest first: what remains and the debts that
-- are settled add up to what there was; the settled debts are the first ones of the list, and the
-- next one, where there is one, is larger than what remains.
pub net_debts_lem :
    (gross : ℕ) (debts : Table PayoutDebt)
    → ((net_debts gross debts).remaining + debt_cents (net_debts gross debts).settling ≡ gross)
      × ((rest : Table PayoutDebt) × (debts ≡ (net_debts gross debts).settling ++ rest)
          × IsBlocked (net_debts gross debts).remaining rest)
unfolding net_debts sum_by
net_debts_lem gross [] = (omega arith, ([], refl, tt))
net_debts_lem gross ((id, d) ∷ debts) = elim (Bool-cases (ltb gross d.amount_cents)) [
  | inl short ↦
      (ground (arith, short), ((id, d) ∷ debts, ground (arith, short), ground (arith, short)))
  | inr enough ↦
      let (total, (rest, split, blocked)) = net_debts_lem (gross - d.amount_cents) debts in
      (
        ground (arith, enough, total),
        (rest, ground (arith, enough, split), ground (arith, enough, blocked)),
      )
]

abbrev is_open_debt : ℕ → ℕ → PayoutDebt → Bool
is_open_debt seller_id _ d = d.seller_id == seller_id && is_none d.settled_at

-- The debts that a claim writes: those of the list that are still open.
abbrev pub is_settled_by : List ℕ → ℕ → PayoutDebt → Bool
is_settled_by js id d = contains id js && is_none d.settled_at

abbrev pub settle_debt : ℕ → PayoutDebt → PayoutDebt
settle_debt now d = record d { settled_at = some now }

owed-none :
    (seller_id now : ℕ) (t : Table PayoutDebt)
    → owed_cents seller_id (update_many (is_settled_by []) (settle_debt now) t)
      ≡ owed_cents seller_id t
unfolding sum_by update_many
owed-none seller_id now [] = refl
owed-none seller_id now ((k, d) ∷ t) = ground (arith, owed-none seller_id now t)

settled-absent :
    (k now : ℕ) (js : List ℕ) (t : Table PayoutDebt)
    → find_unique k t ≡ none
    → update_many (is_settled_by (k ∷ js)) (settle_debt now) t
      ≡ update_many (is_settled_by js) (settle_debt now) t
unfolding find_unique update_many
settled-absent k now js [] h = refl
settled-absent k now js ((i, d) ∷ t) h = ground (arith, settled-absent k now js t)

-- What a seller owes goes down by the debts that a netting settles, where the debts have distinct
-- keys.
pub net_debts-owed :
    (seller_id now gross : ℕ) (t : Table PayoutDebt)
    → IsKeyed t
    → owed_cents seller_id (
          update_many
            (is_settled_by (ids (net_debts gross (find_many (is_open_debt seller_id) t)).settling))
            (settle_debt now)
            t)
        + debt_cents (net_debts gross (find_many (is_open_debt seller_id) t)).settling
      ≡ owed_cents seller_id t
unfolding net_debts sum_by update_many find_many ids
net_debts-owed seller_id now gross [] keyed = refl
net_debts-owed seller_id now gross ((k, d) ∷ t) keyed =
    elim (Bool-cases (is_open_debt seller_id k d)) [
      | inr closed ↦ ground (arith, closed, net_debts-owed seller_id now gross t keyed.1)
      | inl open_ ↦ elim (Bool-cases (ltb gross d.amount_cents)) [
        | inl short ↦ ground (arith, open_, short, owed-none seller_id now t)
        | inr enough ↦
            let rest = net_debts (gross - d.amount_cents) (find_many (is_open_debt seller_id) t) in
            ground (
              arith,
              open_,
              enough,
              settled-absent k now (ids rest.settling) t keyed.0,
              net_debts-owed seller_id now (gross - d.amount_cents) t keyed.1,
            )
      ]
    ]
