-- ===== src/Accounting/TrialBalance/Totals.antt =====
-- The trial balance of books in which every entry balances.
use geeta_backend.Common.{
  ℕ, Bool, true, false, not, ◌||◌, List, [], ◌∷◌, map, filter, All, elem, ◌==◌, ◌≡◌, refl, sym, ap,
  ◌∙◌, inl, inr, Bool-cases, if◌then◌else◌, arith, ==_iff,
}
use mathlib.Core.Path.{subst}
use geeta_backend.Common.Int.{fractions, ℤ, pos, ◌+ℤ◌, ltb_ℤ, eqb_ℤ, int_laws}
use geeta_backend.Accounting.Journal.{JournalLine, JournalEntry, Account}
use geeta_backend.Accounting.Posting.{difference}
use geeta_backend.Accounting.Posting.Balance.{
  sum_debit, sum_credit, sum_debit-append, sum_credit-append,
}
use geeta_backend.Accounting.Posting.Books.{IsBalanced}
use geeta_backend.Accounting.Reversal.Mirror.{IsChart, difference_self, zero_plus}
use geeta_backend.Accounting.TrialBalance.{
  DateRange, AccountBalanceRow, is_reported, reported_lines, group_sum, has_group, account_row,
  sum_rows, is_moved, visible_rows, build,
}

abbrev pub account_ids : List Account → List ℕ
account_ids = map (λ (a : Account). a.id)

-- The foreign key of a line.
abbrev pub HasAccount : List Account → JournalLine → Type 0
HasAccount chart l = elem l.account_id (account_ids chart) ≡ true

-- The sum over the chart of what is found for each account.
abbrev pub sum_over : (ℕ → ℤ) → List Account → ℤ
sum_over g [] = pos 0
sum_over g (a ∷ chart) = g a.id +ℤ sum_over g chart

abbrev pub sum_of : (JournalLine → ℤ) → List JournalLine → ℤ
sum_of side [] = pos 0
sum_of side (l ∷ ls) = side l +ℤ sum_of side ls

-- A line counts for its account only.
abbrev counted : ℤ → ℕ → (ℕ → ℤ) → ℕ → ℤ
counted x account g id = if account == id then x +ℤ g id else g id

uncounted :
    (x : ℤ) (account : ℕ) (g : ℕ → ℤ) (chart : List Account)
    → elem account (account_ids chart) ≡ false
    → sum_over (counted x account g) chart ≡ sum_over g chart
uncounted x account g [] h = refl
uncounted x account g (a ∷ chart) h = elim (Bool-cases (account == a.id)) [
  | inl e ↦ cc (rw e at h)
  | inr e ↦ rw (e, uncounted x account g chart (rw e at h))
]

counted_once :
    (x : ℤ) (account : ℕ) (g : ℕ → ℤ) (chart : List Account)
    → IsChart chart
    → elem account (account_ids chart) ≡ true
    → sum_over (counted x account g) chart ≡ x +ℤ sum_over g chart
counted_once x account g [] u h = cc
counted_once x account g (a ∷ chart) (i, _, u) h = elim (Bool-cases (account == a.id)) [
  | inl e ↦
      let absent : elem account (account_ids chart) ≡ false =
        subst (λ k. elem k (account_ids chart) ≡ false) (sym ((==_iff account a.id).0 e)) i in
      rw (e, uncounted x account g chart absent) (omega int_laws)
  | inr e ↦ rw (e, counted_once x account g chart u (rw e at h)) (omega int_laws)
]

sum_over-group_sum :
    (side : JournalLine → ℤ) (chart : List Account) (lines : List JournalLine)
    → IsChart chart
    → All (HasAccount chart) lines
    → sum_over (λ id. group_sum side id lines) chart ≡ sum_of side lines
sum_over-group_sum side chart [] u h = none_over chart
  where
    none_over : (chart : List Account) → sum_over (λ _. pos 0) chart ≡ pos 0
    none_over [] = refl
    none_over (a ∷ chart) = rw (none_over chart) (omega int_laws)
sum_over-group_sum side chart (l ∷ ls) u (here, h) =
    counted_once (side l) l.account_id (λ id. group_sum side id ls) chart u here
    ∙ ap (λ x. side l +ℤ x) (sum_over-group_sum side chart ls u h)

no_group :
    (side : JournalLine → ℤ) (account : ℕ) (lines : List JournalLine)
    → has_group account lines ≡ false
    → group_sum side account lines ≡ pos 0
no_group side account [] h = refl
no_group side account (l ∷ ls) h = elim (Bool-cases (l.account_id == account)) [
  | inl e ↦ cc (rw e at h)
  | inr e ↦ rw e (no_group side account ls (rw e at h))
]

unmoved_debit :
    (debit credit : ℤ)
    → not (eqb_ℤ debit (pos 0)) || not (eqb_ℤ credit (pos 0)) ≡ false
    → debit ≡ pos 0
unmoved_debit debit credit h = ground arith

unmoved_credit :
    (debit credit : ℤ)
    → not (eqb_ℤ debit (pos 0)) || not (eqb_ℤ credit (pos 0)) ≡ false
    → credit ≡ pos 0
unmoved_credit debit credit h = ground arith

within : (a b : ℤ) → a ≡ b → ltb_ℤ (difference a b) (pos fractions) ≡ true
within a b e = ap (λ x. ltb_ℤ x (pos fractions)) (ap (difference a) (sym e) ∙ difference_self a)

-- The sum of a column over the rows that are shown is that over the whole chart.
module _ (lines : List JournalLine) (side : JournalLine → ℤ) (column : AccountBalanceRow → ℤ)
    (reads : (a : Account) → column (account_row lines a) ≡ group_sum side a.id lines)
    (unmoved : (r : AccountBalanceRow) → is_moved r ≡ false → column r ≡ pos 0) where
  all_rows :
      (chart : List Account)
      → sum_rows column (map (account_row lines) chart)
        ≡ sum_over (λ id. group_sum side id lines) chart
  all_rows [] = refl
  all_rows (a ∷ chart) = rw (reads a, all_rows chart)

  moved_rows :
      (rows : List AccountBalanceRow)
      → sum_rows column (filter is_moved rows) ≡ sum_rows column rows
  moved_rows [] = refl
  moved_rows (r ∷ rows) = elim (Bool-cases (is_moved r)) [
    | inl e ↦ rw (e, moved_rows rows)
    | inr e ↦ rw (e, moved_rows rows, unmoved r e) (sym (zero_plus _))
  ]

  grouped_rows :
      (chart : List Account)
      → sum_over
          (λ id. group_sum side id lines)
          (filter (λ (a : Account). has_group a.id lines) chart)
        ≡ sum_over (λ id. group_sum side id lines) chart
  grouped_rows [] = refl
  grouped_rows (a ∷ chart) = elim (Bool-cases (has_group a.id lines)) [
    | inl e ↦ rw (e, grouped_rows chart)
    | inr e ↦ rw (e, grouped_rows chart, no_group side a.id lines e) (sym (zero_plus _))
  ]

  visible_rows-sum :
      (include_zero : Bool) (chart : List Account)
      → IsChart chart
      → All (HasAccount chart) lines
      → sum_rows column (visible_rows include_zero chart lines) ≡ sum_of side lines
  unfolding visible_rows
  visible_rows-sum true chart u h = all_rows chart ∙ sum_over-group_sum side chart lines u h
  visible_rows-sum false chart u h =
      moved_rows _ ∙ all_rows _ ∙ grouped_rows chart ∙ sum_over-group_sum side chart lines u h

sum_of-debit : (lines : List JournalLine) → sum_of (λ l. l.debit) lines ≡ sum_debit lines
sum_of-debit [] = refl
sum_of-debit (l ∷ ls) = rw (sum_of-debit ls)

sum_of-credit : (lines : List JournalLine) → sum_of (λ l. l.credit) lines ≡ sum_credit lines
sum_of-credit [] = refl
sum_of-credit (l ∷ ls) = rw (sum_of-credit ls)

reported_lines-balanced :
    (range : DateRange) (journal : List JournalEntry)
    → All IsBalanced journal
    → sum_debit (reported_lines range journal) ≡ sum_credit (reported_lines range journal)
unfolding reported_lines
reported_lines-balanced range [] h = refl
reported_lines-balanced range (e ∷ es) ((_, t, equal), h) =
    elim (Bool-cases (is_reported range e)) [
      | inl r ↦ rw (
        r,
        sum_debit-append e.lines (reported_lines range es),
        sum_credit-append e.lines (reported_lines range es),
        reported_lines-balanced range es h,
        sym t.debits,
        sym t.credits,
        equal,
      )
      | inr r ↦ rw r (reported_lines-balanced range es h)
    ]

-- For any range of dates, with or without the accounts that did not move, the debit and the
-- credit column of the trial balance have the same total, which is the sum of all debits that the
-- range reports, and the report says that it balances; provided that every entry of the journal
-- balances, account ids and codes are unique and every reported line has its account in the chart.
pub build-balanced :
    (range : DateRange) (include_zero : Bool) (chart : List Account) (journal : List JournalEntry)
    → All IsBalanced journal
    → IsChart chart
    → All (HasAccount chart) (reported_lines range journal)
    → let report = build range include_zero chart journal in
      (report.total_debit ≡ sum_debit (reported_lines range journal))
      × (report.total_debit ≡ report.total_credit)
      × (report.is_balanced ≡ true)
unfolding build
build-balanced range include_zero chart journal balanced unique known =
    let lines = reported_lines range journal in
    let debits =
      visible_rows-sum lines (λ l. l.debit) (λ r. r.debit) (λ a. refl)
        (λ r e. unmoved_debit r.debit r.credit e) include_zero chart unique known
      ∙ sum_of-debit lines in
    let credits =
      visible_rows-sum lines (λ l. l.credit) (λ r. r.credit) (λ a. refl)
        (λ r e. unmoved_credit r.debit r.credit e) include_zero chart unique known
      ∙ sum_of-credit lines in
    let equal = debits ∙ reported_lines-balanced range journal balanced ∙ sym credits in
    (debits, equal, within _ _ equal)
