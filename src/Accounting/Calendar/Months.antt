-- ===== src/Accounting/Calendar/Months.antt =====
-- The fiscal calendar covers every month once.
use geeta_backend.Common.{ℕ, ◌+◌, ◌*◌, ◌≤◌, ◌<◌, ◌≡◌, ◌↔◌, arith, Bool-cases, inl, inr, leb}
use geeta_backend.Accounting.Calendar.{Month, coordinates_for, period_start, year_start, year_end}

-- A month of the calendar.
pub record IsMonth (m : ℕ) : Type 0 where
  pub first : 1 ≤ m
  pub last : m ≤ 12

-- The months counted from the year 0, by which they are ordered.
abbrev pub ordinal : Month → ℕ
ordinal d = d.year * 12 + d.month

-- `coordinatesFor` gives a period of 1 to 12, and the month that `ensureYear` gives that period is the
-- month it was asked for, when the year is positive and both months are months of the calendar.
pub period_start-coordinates_for :
    (d : Month) (start : ℕ)
    → 1 ≤ d.year
    → IsMonth d.month
    → IsMonth start
    → let c = coordinates_for d start in
      IsMonth c.fiscal_period × (period_start c.fiscal_year start c.fiscal_period ≡ d)
unfolding coordinates_for period_start
period_start-coordinates_for d start y m s = elim (Bool-cases (leb start d.month)) [
  | inl h ↦ (ground arith, ground arith)
  | inr h ↦ (ground arith, ground arith)
]

-- Each of the twelve months that `ensureYear` makes for a fiscal year belongs to that year and that
-- period, whichever month the year starts with.
pub coordinates_for-period_start :
    (fiscal_year start period : ℕ)
    → IsMonth start
    → IsMonth period
    → coordinates_for (period_start fiscal_year start period) start
      ≡ record { fiscal_year = fiscal_year; fiscal_period = period }
unfolding coordinates_for period_start
coordinates_for-period_start fiscal_year start period s p = ground arith

-- A month belongs to the fiscal year exactly when it lies within the bounds of the year.
pub coordinates_for-bounds :
    (d : Month) (start fiscal_year : ℕ)
    → 1 ≤ d.year
    → IsMonth d.month
    → IsMonth start
    → ((coordinates_for d start).fiscal_year ≡ fiscal_year) ↔ (
        (ordinal (year_start fiscal_year start) ≤ ordinal d)
        × (ordinal d < ordinal (year_end fiscal_year start)))
unfolding coordinates_for year_start year_end
coordinates_for-bounds d start fiscal_year y m s = (λ h. ground arith, λ h. ground arith)
