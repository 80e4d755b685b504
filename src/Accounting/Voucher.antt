-- ===== src/Accounting/Voucher.antt =====
-- services/accounting/voucher-number.service.ts: one counter for each series and fiscal year.
pub mod Gapless
use geeta_backend.Common.{ℕ, ◌+◌, Bool, true, false, ◌&&◌, List, [], ◌∷◌, ◌==◌, if◌then◌else◌}

-- VOUCHER_SERIES
pub data Series : Type 0 where
  journal sales receipt payment credit_note expense purchase contra : Series

abbrev pub code : Series → ℕ
code Series.journal = 0
code Series.sales = 1
code Series.receipt = 2
code Series.payment = 3
code Series.credit_note = 4
code Series.expense = 5
code Series.purchase = 6
code Series.contra = 7

-- The key of VoucherNumberSequence, whose text `series-year` names both.
pub record Key : Type 0 where
  pub series : Series
  pub fiscal_year : ℕ

unfoldable pub same_key : Key → Key → Bool
same_key a b = code a.series == code b.series && a.fiscal_year == b.fiscal_year

-- The rows of VoucherNumberSequence.
abbrev pub Sequences : Type 0
Sequences = List (Key × ℕ)

abbrev pub last_value : Key → Sequences → ℕ
last_value k [] = 0
last_value k ((j, n) ∷ rest) = if same_key j k then n else last_value k rest

-- `upsert`: the row's value goes up by one, or a row is made with 1.
unfoldable pub bump : Key → Sequences → Sequences
bump k [] = (k, 1) ∷ []
bump k ((j, n) ∷ rest) = if same_key j k then (j, n + 1) ∷ rest else (j, n) ∷ bump k rest

-- The parts of the text `series/year/number`.
pub record VoucherNumber : Type 0 where
  pub key : Key
  pub number : ℕ

-- `allocateVoucherNumber`
unfoldable pub allocate_voucher_number : Key → Sequences → VoucherNumber × Sequences
allocate_voucher_number k s =
    let s' = bump k s in (record { key = k; number = last_value k s' }, s')
