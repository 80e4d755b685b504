-- ===== src/Accounting/Fiscal/Postable.antt =====
-- Which dates `assertPostable` lets a posting have.
use geeta_backend.Common.{
  Bool, true, not, ◌||◌, ◌&&◌, Option, none, some, ◌≡◌, refl, arith, if◌then◌else◌, Bool-cases, inl,
  inr,
}
use geeta_backend.Common.Result.{err, ok, bad_request}
use geeta_backend.Accounting.Calendar.{FiscalCoordinates, coordinates_for}
use geeta_backend.Accounting.Fiscal.{
  FiscalPeriod, FiscalCalendar, FinanceSettings, PostingDate, before_books, check_period,
  find_period, assert_postable, ensure_year, is_locked, is_open,
}

-- The period's status lets a posting in; a month without a row is open.
abbrev pub lets_in : Bool → Option FiscalPeriod → Bool
lets_in allow_closed none = true
lets_in allow_closed (some p) = is_open p.status || (allow_closed && not (is_locked p.status))

check_period-lets_in :
    (allow_closed : Bool) (c : FiscalCoordinates) (p : Option FiscalPeriod)
    → check_period allow_closed c p ≡ (if lets_in allow_closed p then ok c else err bad_request)
check_period-lets_in allow_closed c none = refl
check_period-lets_in allow_closed c (some p) = ground arith

-- `assertPostable` answers with the fiscal year and period of the date when the date is not before
-- the books begin and its period, once the year's rows are there, is OPEN, or CLOSED and the caller
-- may override that; in every other case it throws a bad request.
pub assert_postable-lets_in :
    (settings : FinanceSettings) (date : PostingDate) (allow_closed : Bool) (cal : FiscalCalendar)
    → let c = coordinates_for date.month settings.fiscal_year_start_month in
      (assert_postable settings date allow_closed cal).0 ≡ (
        if not (before_books settings date)
          && lets_in allow_closed (find_period c (ensure_year settings c.fiscal_year cal))
        then ok c
        else err bad_request)
unfolding assert_postable
assert_postable-lets_in settings date allow_closed cal =
    elim (Bool-cases (before_books settings date)) [
      | inl e ↦ rw e
      | inr e ↦
          rw e (check_period-lets_in allow_closed _ (find_period _ (ensure_year settings _ cal)))
    ]
