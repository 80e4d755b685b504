-- ===== src/Accounting/Fiscal.antt =====
-- services/accounting/fiscal.service.ts: the fiscal periods, and which dates may be posted to.
pub mod Locked
pub mod Postable
use geeta_backend.Common.{
  ℕ, ◌+◌, ◌-◌, Bool, true, false, not, ◌&&◌, Option, none, some, List, [], ◌∷◌, ◌++◌, map, filter,
  any, length, find_first, ◌==◌, ltb, if◌then◌else◌,
}
use geeta_backend.Common.Result.{
  Result, err, ok, bad_request, not_found, throw_if, or_throw, ◌>>=◌, ◌>>◌,
}
use geeta_backend.Accounting.Calendar.{
  Month, FiscalCoordinates, coordinates_for, utc_month, period_start,
}

-- enum FiscalPeriodStatus
pub data PeriodStatus : Type 0 where
  «open» closed locked : PeriodStatus

-- A row of FiscalPeriod. Its FiscalYear is named by the year, as its unique label is; of its
-- dates the months are kept, the end as the month after.
pub record FiscalPeriod : Type 0 where
  pub id : ℕ
  pub fiscal_year : ℕ
  pub period_number : ℕ
  pub first_month : Month
  pub month_after : Month
  pub status : PeriodStatus
  pub notes : Option ℕ
  pub closed_at : Option ℕ
  pub closed_by : Option ℕ

-- The table, and the number of the next row's id.
pub record FiscalCalendar : Type 0 where
  pub periods : List FiscalPeriod
  pub next_id : ℕ

-- What the service reads of the finance settings.
pub record FinanceSettings : Type 0 where
  pub fiscal_year_start_month : ℕ
  pub books_begin_from : Option ℕ

-- A `Date`: its time value, and its month.
pub record PostingDate : Type 0 where
  pub time : ℕ
  pub month : Month

abbrev pub is_period : ℕ → ℕ → FiscalPeriod → Bool
is_period fiscal_year number p = p.fiscal_year == fiscal_year && p.period_number == number

abbrev pub new_period : ℕ → ℕ → ℕ → ℕ → FiscalPeriod
new_period id fiscal_year start number = record {
  id = id;
  fiscal_year = fiscal_year;
  period_number = number;
  first_month = period_start fiscal_year start number;
  month_after = utc_month fiscal_year (start - 1 + (number - 1) + 1);
  status = PeriodStatus.«open»;
  notes = none;
  closed_at = none;
  closed_by = none;
}

-- The loop of `ensureYear`, for the period numbers that are left.
unfoldable pub create_missing : ℕ → ℕ → List ℕ → FiscalCalendar → FiscalCalendar
create_missing fiscal_year start [] cal = cal
create_missing fiscal_year start (n ∷ ns) cal = create_missing fiscal_year start ns (
    if any (is_period fiscal_year n) cal.periods then cal else record {
      periods = cal.periods ++ new_period cal.next_id fiscal_year start n ∷ [];
      next_id = cal.next_id + 1;
    })

abbrev pub period_numbers : List ℕ
period_numbers = 1 ∷ 2 ∷ 3 ∷ 4 ∷ 5 ∷ 6 ∷ 7 ∷ 8 ∷ 9 ∷ 10 ∷ 11 ∷ 12 ∷ []

-- `ensureYear`
unfoldable pub ensure_year : FinanceSettings → ℕ → FiscalCalendar → FiscalCalendar
ensure_year settings fiscal_year cal =
    if length (filter (λ (p : FiscalPeriod). p.fiscal_year == fiscal_year) cal.periods) == 12
    then cal
    else create_missing fiscal_year settings.fiscal_year_start_month period_numbers cal

-- The guard of `assertPostable` on the beginning of the books.
abbrev pub before_books : FinanceSettings → PostingDate → Bool
before_books settings date = elim settings.books_begin_from [
  | none ↦ false
  | some from ↦ ltb date.time from
]

-- The guards on the period that was found.
abbrev pub check_period : Bool → FiscalCoordinates → Option FiscalPeriod → Result FiscalCoordinates
check_period allow_closed coords none = ok coords
check_period allow_closed coords (some p) = elim p.status [
  | PeriodStatus.«open» ↦ ok coords
  | PeriodStatus.closed ↦ throw_if (not allow_closed) bad_request >> ok coords
  | PeriodStatus.locked ↦ err bad_request
]

abbrev pub find_period : FiscalCoordinates → FiscalCalendar → Option FiscalPeriod
find_period coords cal = find_first (is_period coords.fiscal_year coords.fiscal_period) cal.periods

-- `assertPostable`, outside any transaction: the rows that `ensureYear` makes stay when it throws.
unfoldable pub assert_postable :
    FinanceSettings
    → PostingDate
    → Bool
    → FiscalCalendar
    → Result FiscalCoordinates × FiscalCalendar
assert_postable settings date allow_closed cal =
    let coords = coordinates_for date.month settings.fiscal_year_start_month in
    let ensured = ensure_year settings coords.fiscal_year cal in
    if before_books settings date
    then (err bad_request, cal)
    else (check_period allow_closed coords (find_period coords ensured), ensured)

abbrev pub is_locked : PeriodStatus → Bool
is_locked PeriodStatus.locked = true
is_locked _ = false

abbrev pub is_open : PeriodStatus → Bool
is_open PeriodStatus.«open» = true
is_open _ = false

-- The row that `setPeriodStatus` writes.
abbrev pub with_status : PeriodStatus → ℕ → ℕ → Option ℕ → FiscalPeriod → FiscalPeriod
with_status status user now notes p = record {
  id = p.id;
  fiscal_year = p.fiscal_year;
  period_number = p.period_number;
  first_month = p.first_month;
  month_after = p.month_after;
  status = status;
  notes = elim notes [ none ↦ p.notes | some n ↦ some n ];
  closed_at = if is_open status then none else some now;
  closed_by = if is_open status then none else some user;
}

-- `update({ where: { id } })`: an id has one row.
abbrev pub update_by_id : ℕ → (FiscalPeriod → FiscalPeriod) → List FiscalPeriod → List FiscalPeriod
update_by_id id f [] = []
update_by_id id f (p ∷ ps) = if p.id == id then f p ∷ ps else p ∷ update_by_id id f ps

-- `setPeriodStatus`; an error leaves the table as it was.
unfoldable pub set_period_status :
    ℕ → PeriodStatus → ℕ → ℕ → Option ℕ → FiscalCalendar → Result FiscalCalendar
set_period_status id status user now notes cal =
    or_throw (find_first (λ (p : FiscalPeriod). p.id == id) cal.periods) not_found >>= λ period.
    throw_if (is_locked period.status && not (is_locked status)) bad_request
    >> ok record {
      periods = update_by_id id (with_status status user now notes) cal.periods;
      next_id = cal.next_id;
    }
