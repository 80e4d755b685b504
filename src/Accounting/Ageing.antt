-- ===== src/Accounting/Ageing.antt =====
-- services/accounting/reporting/ageing-math.ts. Amounts are paise, of which `round2` leaves every sum
-- and difference as it is, and "more than 0.009" is more than 0.
pub mod Fifo
use geeta_backend.Common.{
  ℕ, suc, ◌+◌, ◌-◌, Option, none, some, List, [], ◌∷◌, filter, ltb, leb, if◌then◌else◌,
}
use geeta_backend.Common.Int.{ℤ, pos, pos_part, neg_part, ltb_ℤ}

-- interface Movement
pub record Movement : Type 0 where
  pub date : ℕ
  pub amount : ℤ

-- A movement that is a charge: its amount is positive.
pub record Charge : Type 0 where
  pub date : ℕ
  pub amount : ℕ

-- The first loop of `applyPaymentsFifo`: the charges in order, and the money received.
unfoldable pub charges : List Movement → List Charge
charges [] = []
charges (m ∷ ms) =
    let rest = charges ms in
    if ltb_ℤ (pos 0) m.amount
    then record { date = m.date; amount = pos_part m.amount } ∷ rest
    else rest

unfoldable pub credit : List Movement → ℕ
credit [] = 0
credit (m ∷ ms) =
    let rest = credit ms in if ltb_ℤ (pos 0) m.amount then rest else neg_part m.amount + rest

abbrev pub min : ℕ → ℕ → ℕ
min a b = if leb a b then a else b

-- The second loop, which stops when the credit is used up.
unfoldable pub settle : ℕ → List Charge → List Charge
settle left [] = []
settle left (c ∷ cs) =
    let applied = min left c.amount in
    let rest = settle (left - applied) cs in
    if leb left 0 then c ∷ cs else record c { amount = c.amount - applied } ∷ rest

-- `applyPaymentsFifo`
unfoldable pub apply_payments_fifo : List Movement → List Charge
apply_payments_fifo movements =
    filter (λ (c : Charge). ltb 0 c.amount) (settle (credit movements) (charges movements))

-- The bounds of AGEING_BUCKETS.
abbrev pub ageing_buckets : List (Option ℕ)
ageing_buckets = some 30 ∷ some 60 ∷ some 90 ∷ some 180 ∷ none ∷ []

-- The loop of `bucketIndexForDays`, from a bucket on.
unfoldable pub bucket_from : ℕ → ℕ → List (Option ℕ) → ℕ
bucket_from i days [] = i - 1
bucket_from i days (none ∷ rest) = i
bucket_from i days (some to ∷ rest) =
    let later = bucket_from (i + 1) days rest in if leb days to then i else later

-- `bucketIndexForDays`, of days that are not negative
unfoldable pub bucket_index_for_days : ℕ → ℕ
bucket_index_for_days days = bucket_from 0 days ageing_buckets
