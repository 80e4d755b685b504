-- ===== src/Accounting/Calendar.antt =====
-- services/accounting/fiscal-calendar.ts: which fiscal year and period a month belongs to.
pub mod Months
use geeta_backend.Common.{ℕ, ◌+◌, ◌-◌, ◌/◌, ◌%◌, leb, if◌then◌else◌}

-- The year and the month (1 to 12) of a `Date`. `coordinatesFor` reads those of the process's time
-- zone and the bounds are made in UTC; here the process runs in UTC.
pub record Month : Type 0 where
  pub year : ℕ
  pub month : ℕ

-- interface FiscalCoordinates, without the label
pub record FiscalCoordinates : Type 0 where
  pub fiscal_year : ℕ
  pub fiscal_period : ℕ

-- `coordinatesFor`; years are positive and `start` is a month, so nothing stops at 0.
unfoldable pub coordinates_for : Month → ℕ → FiscalCoordinates
coordinates_for d start = record {
  fiscal_year = if leb start d.month then d.year else d.year - 1;
  fiscal_period = (d.month + 12 - start) % 12 + 1;
}

-- `Date.UTC(year, index, 1)`, where the index may pass December.
abbrev pub utc_month : ℕ → ℕ → Month
utc_month year index = record { year = year + index / 12; month = index % 12 + 1 }

-- The month of a period, as `ensureYear` of fiscal.service.ts computes its `startDate`.
unfoldable pub period_start : ℕ → ℕ → ℕ → Month
period_start fiscal_year start period = utc_month fiscal_year (start - 1 + (period - 1))

-- The month of `fiscalYearBounds(...).from`, and that after `to`: day 0 is the day before.
unfoldable pub year_start : ℕ → ℕ → Month
year_start fiscal_year start = utc_month fiscal_year (start - 1)

unfoldable pub year_end : ℕ → ℕ → Month
year_end fiscal_year start = utc_month (fiscal_year + 1) (start - 1)
