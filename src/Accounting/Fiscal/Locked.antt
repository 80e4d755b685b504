-- ===== src/Accounting/Fiscal/Locked.antt =====
-- A locked period stays locked.
use geeta_backend.Common.{
  ℕ, Bool, true, false, not, ◌&&◌, Option, some, List, [], ◌∷◌, ◌++◌, ◌≡◌, refl, sym, ◌∙◌, arith,
  any, find_first, filter, length, ◌==◌, Bool-cases, some_eq, inl, inr,
}
use mathlib.Core.Path.{subst}
use geeta_backend.Common.Result.{
  err, ok, bad_request, >>=-eq-ok, throw_if-eq-ok, or_throw-eq-ok, ok_eq,
}
use geeta_backend.Accounting.Fiscal.{
  PeriodStatus, FiscalPeriod, FiscalCalendar, FinanceSettings, PostingDate, find_period,
  assert_postable, set_period_status, ensure_year, create_missing, is_locked, is_period,
  with_status, before_books, check_period, update_by_id,
}
use geeta_backend.Accounting.Calendar.{FiscalCoordinates, coordinates_for}

-- What one request does to the calendar.
pub data FiscalStep : FiscalCalendar → FiscalCalendar → Type 0 where
  year :
      (settings : FinanceSettings) (fiscal_year : ℕ) (cal : FiscalCalendar)
      → FiscalStep cal (ensure_year settings fiscal_year cal)
  posting :
      (settings : FinanceSettings) (date : PostingDate) (allow_closed : Bool) (cal : FiscalCalendar)
      → FiscalStep cal (assert_postable settings date allow_closed cal).1
  status :
      (id : ℕ) (s : PeriodStatus) (user now : ℕ) (notes : Option ℕ) (cal after : FiscalCalendar)
      → set_period_status id s user now notes cal ≡ ok after
      → FiscalStep cal after

pub data FiscalSteps : FiscalCalendar → FiscalCalendar → Type 0 where
  done : (cal : FiscalCalendar) → FiscalSteps cal cal
  more : (a b c : FiscalCalendar) → FiscalStep a b → FiscalSteps b c → FiscalSteps a c

-- The period that `assertPostable` finds for these coordinates is locked.
pub record LockedAt (coords : FiscalCoordinates) (cal : FiscalCalendar) : Type 0 where
  pub period : FiscalPeriod
  pub found : find_period coords cal ≡ some period
  pub locked : is_locked period.status ≡ true

find_first-append {ℓ} :
    {A : Type ℓ} (p : A → Bool) (xs ys : List A) (a : A)
    → find_first p xs ≡ some a
    → find_first p (xs ++ ys) ≡ some a
find_first-append p [] ys a h = cc
find_first-append p (x ∷ xs) ys a h = ground (arith, find_first-append p xs ys a)

create_missing-LockedAt :
    (coords : FiscalCoordinates) (fiscal_year start : ℕ) (ns : List ℕ) (cal : FiscalCalendar)
    → LockedAt coords cal
    → LockedAt coords (create_missing fiscal_year start ns cal)
unfolding create_missing
create_missing-LockedAt coords fiscal_year start [] cal h = h
create_missing-LockedAt coords fiscal_year start (n ∷ ns) cal h =
    create_missing-LockedAt coords fiscal_year start ns _
      (elim (Bool-cases (any (is_period fiscal_year n) cal.periods)) [
        | inl e ↦ rw e h
        | inr e ↦ rw e record {
          period = h.period;
          found = find_first-append _ cal.periods _ h.period h.found;
          locked = h.locked;
        }
      ])

ensure_year-LockedAt :
    (coords : FiscalCoordinates) (settings : FinanceSettings) (fiscal_year : ℕ)
    (cal : FiscalCalendar)
    → LockedAt coords cal
    → LockedAt coords (ensure_year settings fiscal_year cal)
unfolding ensure_year
ensure_year-LockedAt coords settings fiscal_year cal h =
    elim (Bool-cases
      (length (filter (λ (p : FiscalPeriod). p.fiscal_year == fiscal_year) cal.periods) == 12)) [
        | inl e ↦ rw e h
        | inr e ↦ rw e (create_missing-LockedAt coords fiscal_year _ _ cal h)
      ]

stays_locked :
    (p q x : FiscalPeriod) (s : PeriodStatus)
    → is_locked p.status && not (is_locked s) ≡ false
    → x ≡ p
    → x ≡ q
    → is_locked q.status ≡ true
    → is_locked s ≡ true
stays_locked p q x s e a b l =
    let h : is_locked p.status ≡ true =
      subst (λ (y : FiscalPeriod). is_locked y.status ≡ true) (sym b ∙ a) l in
    ground arith

check_period-locked :
    (allow : Bool) (c : FiscalCoordinates) (p : FiscalPeriod)
    → is_locked p.status ≡ true
    → check_period allow c (some p) ≡ err bad_request
check_period-locked allow c p h = ground arith

-- The period with an id gets another status, but a locked one does not.
set_status-found :
    (id : ℕ) (s : PeriodStatus) (user now : ℕ) (notes : Option ℕ) (coords : FiscalCoordinates)
    (ps : List FiscalPeriod) (p q : FiscalPeriod)
    → is_locked p.status && not (is_locked s) ≡ false
    → find_first (λ (p : FiscalPeriod). p.id == id) ps ≡ some p
    → find_first (is_period coords.fiscal_year coords.fiscal_period) ps ≡ some q
    → is_locked q.status ≡ true
    → (r : FiscalPeriod) × (find_first
          (is_period coords.fiscal_year coords.fiscal_period)
          (update_by_id id (with_status s user now notes) ps)
        ≡ some r)
      × (is_locked r.status ≡ true)
set_status-found id s user now notes coords [] p q e found here l = cc
set_status-found id s user now notes coords (x ∷ ps) p q e found here l =
    elim (Bool-cases (x.id == id)) [
      | inl i ↦ elim (Bool-cases (is_period coords.fiscal_year coords.fiscal_period x)) [
        | inl k ↦
            let px : x ≡ p = some_eq (rw i at found) in
            let qx : x ≡ q = some_eq (rw k at here) in
            rw (i, k) (with_status s user now notes x, refl, stays_locked p q x s e px qx l)
        | inr k ↦ rw (i, k) (q, rw k at here, l)
      ]
      | inr i ↦ elim (Bool-cases (is_period coords.fiscal_year coords.fiscal_period x)) [
        | inl k ↦ rw (i, k) (q, rw k at here, l)
        | inr k ↦
            rw (i, k)
              (set_status-found id s user now notes coords ps p q e (rw i at found) (rw k at here)
                l)
      ]
    ]

set_period_status-LockedAt :
    (coords : FiscalCoordinates) (id : ℕ) (s : PeriodStatus) (user now : ℕ) (notes : Option ℕ)
    (cal after : FiscalCalendar)
    → set_period_status id s user now notes cal ≡ ok after
    → LockedAt coords cal
    → LockedAt coords after
unfolding set_period_status
set_period_status-LockedAt coords id s user now notes cal after e h =
    let (p, found, rest) = >>=-eq-ok _ _ e in
    let (_, guard, eq) = >>=-eq-ok _ _ rest in
    let (r, at, l) =
      set_status-found id s user now notes coords cal.periods p h.period (throw_if-eq-ok _ _ guard)
        (or_throw-eq-ok _ _ found) h.found h.locked in
    subst (LockedAt coords) (ok_eq eq) record { period = r; found = at; locked = l }

pub FiscalStep-LockedAt :
    (coords : FiscalCoordinates) (a b : FiscalCalendar)
    → FiscalStep a b
    → LockedAt coords a
    → LockedAt coords b
unfolding assert_postable
FiscalStep-LockedAt coords _ _ (FiscalStep.year settings fiscal_year cal) h =
    ensure_year-LockedAt coords settings fiscal_year cal h
FiscalStep-LockedAt coords _ _ (FiscalStep.posting settings date allow_closed cal) h =
    elim (Bool-cases (before_books settings date)) [
      | inl e ↦ rw e h
      | inr e ↦ rw e (ensure_year-LockedAt coords settings _ cal h)
    ]
FiscalStep-LockedAt coords _ _ (FiscalStep.status id s user now notes cal after e) h =
    set_period_status-LockedAt coords id s user now notes cal after e h

pub FiscalSteps-LockedAt :
    (coords : FiscalCoordinates) (a b : FiscalCalendar)
    → FiscalSteps a b
    → LockedAt coords a
    → LockedAt coords b
FiscalSteps-LockedAt coords _ _ (FiscalSteps.done cal) h = h
FiscalSteps-LockedAt coords _ _ (FiscalSteps.more a b c s r) h =
    FiscalSteps-LockedAt coords b c r (FiscalStep-LockedAt coords a b s h)

-- Once the period that the settings give a date is locked, `assertPostable` under the same settings
-- refuses the date whatever requests to the calendar came in between, with or without the super
-- admin's override. A change of the settings is not among the requests.
pub assert_postable-LockedAt :
    (settings : FinanceSettings) (date : PostingDate) (allow_closed : Bool)
    (cal later : FiscalCalendar)
    → LockedAt (coordinates_for date.month settings.fiscal_year_start_month) cal
    → FiscalSteps cal later
    → (assert_postable settings date allow_closed later).0 ≡ err bad_request
unfolding assert_postable
assert_postable-LockedAt settings date allow_closed cal later locked steps =
    let h = FiscalSteps-LockedAt _ cal later steps locked in
    let g =
      ensure_year-LockedAt _ settings
        (coordinates_for date.month settings.fiscal_year_start_month).fiscal_year later h in
    elim (Bool-cases (before_books settings date)) [
      | inl e ↦ rw e
      | inr e ↦ rw (e, g.found) (check_period-locked allow_closed _ g.period g.locked)
    ]
