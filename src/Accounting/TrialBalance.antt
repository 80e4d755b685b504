-- ===== src/Accounting/TrialBalance.antt =====
-- services/accounting/reporting/trial-balance.service.ts. Amounts are paise, of which `round2`
-- leaves every sum as it is; the chart is in the order of its codes.
pub mod Totals
use geeta_backend.Common.{
  ℕ, Bool, true, false, not, ◌&&◌, ◌||◌, List, [], ◌∷◌, ◌++◌, map, filter, any, leb, ◌==◌,
  if◌then◌else◌,
}
use geeta_backend.Common.Int.{fractions, ℤ, pos, ◌+ℤ◌, ◌-ℤ◌, ltb_ℤ, eqb_ℤ}
use geeta_backend.Accounting.Journal.{
  JournalLine, EntryStatus, JournalEntry, Account, NormalBalance,
}
use geeta_backend.Accounting.Posting.{difference}

-- interface DateRange, after `normaliseRange`
pub record DateRange : Type 0 where
  pub from : ℕ
  pub to : ℕ

abbrev pub is_posted : EntryStatus → Bool
is_posted EntryStatus.posted = true
is_posted _ = false

abbrev pub is_reported : DateRange → JournalEntry → Bool
is_reported range e =
    leb range.from e.entry_date.time && leb e.entry_date.time range.to && is_posted e.status

-- The lines that the `where` of the query selects.
unfoldable pub reported_lines : DateRange → List JournalEntry → List JournalLine
reported_lines range [] = []
reported_lines range (e ∷ es) =
    if is_reported range e then e.lines ++ reported_lines range es else reported_lines range es

-- `_sum` of one group, by either column; a group that is missing counts as 0.
abbrev pub group_sum : (JournalLine → ℤ) → ℕ → List JournalLine → ℤ
group_sum side account [] = pos 0
group_sum side account (l ∷ ls) =
    let rest = group_sum side account ls in if l.account_id == account then side l +ℤ rest else rest

abbrev pub has_group : ℕ → List JournalLine → Bool
has_group account = any (λ (l : JournalLine). l.account_id == account)

-- interface AccountBalanceRow, without the account's labels
pub record AccountBalanceRow : Type 0 where
  pub account_id : ℕ
  pub code : ℕ
  pub debit : ℤ
  pub credit : ℤ
  pub balance : ℤ

-- The callback that makes a row.
abbrev pub account_row : List JournalLine → Account → AccountBalanceRow
account_row lines account =
    let debit = group_sum (λ (l : JournalLine). l.debit) account.id lines in
    let credit = group_sum (λ (l : JournalLine). l.credit) account.id lines in
    record {
      account_id = account.id;
      code = account.code;
      debit = debit;
      credit = credit;
      balance = elim account.normal_balance [
        | NormalBalance.debit ↦ debit -ℤ credit
        | NormalBalance.credit ↦ credit -ℤ debit
      ];
    }

-- `reduce((s, r) => s + ..., 0)`
abbrev pub sum_rows : (AccountBalanceRow → ℤ) → List AccountBalanceRow → ℤ
sum_rows side [] = pos 0
sum_rows side (r ∷ rs) = side r +ℤ sum_rows side rs

-- interface TrialBalance, without the range
pub record TrialBalance : Type 0 where
  pub rows : List AccountBalanceRow
  pub total_debit : ℤ
  pub total_credit : ℤ
  pub difference : ℤ
  pub is_balanced : Bool

abbrev pub is_moved : AccountBalanceRow → Bool
is_moved r = not (eqb_ℤ r.debit (pos 0)) || not (eqb_ℤ r.credit (pos 0))

unfoldable pub visible_rows : Bool → List Account → List JournalLine → List AccountBalanceRow
visible_rows include_zero chart lines =
    if include_zero
    then map (account_row lines) chart
    else filter is_moved
        (map (account_row lines) (filter (λ (a : Account). has_group a.id lines) chart))

-- `build`
unfoldable pub build : DateRange → Bool → List Account → List JournalEntry → TrialBalance
build range include_zero chart journal =
    let visible = visible_rows include_zero chart (reported_lines range journal) in
    let total_debit = sum_rows (λ (r : AccountBalanceRow). r.debit) visible in
    let total_credit = sum_rows (λ (r : AccountBalanceRow). r.credit) visible in
    record {
      rows = visible;
      total_debit = total_debit;
      total_credit = total_credit;
      difference = total_debit -ℤ total_credit;
      is_balanced = ltb_ℤ (difference total_debit total_credit) (pos fractions);
    }
