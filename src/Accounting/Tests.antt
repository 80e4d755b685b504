-- ===== src/Accounting/Tests.antt =====
-- Books of a small shop: a sale of 118 rupees, posted and reversed.
use geeta_backend.Common.{
  ℕ, true, false, Option, none, some, List, [], ◌∷◌, map, ◌≡◌, refl, find_first, ◌==◌, inl, inr,
  ◌↔◌, ◌≤◌, ◌<◌, length, All, ◌&&◌, not, if◌then◌else◌, arith,
}
use geeta_backend.Common.{◌-◌}
use geeta_backend.Accounting.Ageing.{
  Movement, charges, credit, settle, apply_payments_fifo, bucket_from, bucket_index_for_days,
}
use geeta_backend.Accounting.Ageing.Fifo.{oldest, total, apply_payments_fifo-oldest}
use geeta_backend.Common.Result.{err, ok, bad_request}
use geeta_backend.Common.Int.{ℤ, pos, negsuc, ◌+ℤ◌, ◌-ℤ◌, rounded, exact, column}
use geeta_backend.Accounting.Calendar.{Month, coordinates_for, period_start, year_start, year_end}
use geeta_backend.Accounting.Calendar.Months.{
  IsMonth, ordinal, period_start-coordinates_for, coordinates_for-bounds,
}
use geeta_backend.Accounting.Voucher
use geeta_backend.Accounting.Voucher.{
  Key, VoucherNumber, Sequences, Series, allocate_voucher_number, last_value,
}
use geeta_backend.Accounting.Voucher.Gapless.{
  allocate_all, numbers_for, next_numbers, allocate_all-next_numbers,
}
use geeta_backend.Accounting.Fiscal.{
  PeriodStatus, FiscalPeriod, FiscalCalendar, FinanceSettings, PostingDate, assert_postable,
  ensure_year, create_missing, find_period, new_period, before_books,
}
use geeta_backend.Accounting.Fiscal.Locked.{
  FiscalStep, FiscalSteps, LockedAt, assert_postable-LockedAt,
}
use geeta_backend.Accounting.Fiscal.Postable.{lets_in, assert_postable-lets_in}
use geeta_backend.Accounting.Journal.{
  SourceType, SourceKey, Dimensions, PostingLineInput, PostEntryInput, JournalLine, JournalEntry,
  EntryStatus, NormalBalance, Account, is_source,
}
use geeta_backend.Accounting.Posting.{
  rounding_dimensions, Prepared, BookStore, no_tax, prepare_lines, prepare, post_tx, post, ids_for,
  add_line, add_lines, absorb_difference,
}
use geeta_backend.Accounting.Posting.Balance.{IsTallied, prepare_lines-IsTallied, sum_debit}
use geeta_backend.Accounting.Posting.Stored.{IsWholeInput}
use geeta_backend.Accounting.Posting.Books.{IsBooks, IsBalanced, post-IsBooks}
use geeta_backend.Accounting.Posting.Once.{IsNoOp, post-post}
use geeta_backend.Accounting.Reversal.{
  ReverseOptions, reverse, reversal_of, mirror_lines, link_reversal,
}
use geeta_backend.Accounting.Reversal.Mirror.{IsChart, swap_line, prepare_lines-mirror_lines}
use geeta_backend.Accounting.Reversal.Reached.{BookStep, BookSteps, BookSteps-IsBooks}
use geeta_backend.Accounting.Reversal.Outcome.{IsReversal, IsFirstReversal, reverse-IsReversal}
use geeta_backend.Accounting.Reversal.Reported.{Reported, reverse-Reported}
use geeta_backend.Accounting.TrialBalance.{
  DateRange, AccountBalanceRow, visible_rows, reported_lines, build,
}
use geeta_backend.Accounting.TrialBalance.Totals.{HasAccount, build-balanced}

abbrev april : Month
april = record { year = 2026; month = 4 }

abbrev march : Month
march = record { year = 2027; month = 3 }

-- A bill of March 2027 belongs to the fiscal year 2026.
march_coordinates : coordinates_for march 4 ≡ record { fiscal_year = 2026; fiscal_period = 12 }
unfolding coordinates_for
march_coordinates = refl

march-IsMonth : IsMonth 3
march-IsMonth = record { first = omega arith; last = omega arith }

april-IsMonth : IsMonth 4
april-IsMonth = record { first = omega arith; last = omega arith }

period_start-coordinates_for_example :
    let c = coordinates_for march 4 in
    IsMonth c.fiscal_period × (period_start c.fiscal_year 4 c.fiscal_period ≡ march)
period_start-coordinates_for_example =
    period_start-coordinates_for march 4 (omega arith) march-IsMonth april-IsMonth

coordinates_for-bounds_example :
    ((coordinates_for march 4).fiscal_year ≡ 2026)
    ↔ ((ordinal (year_start 2026 4) ≤ ordinal march) × (ordinal march < ordinal (year_end 2026 4)))
coordinates_for-bounds_example =
    coordinates_for-bounds march 4 2026 (omega arith) march-IsMonth april-IsMonth

abbrev sales_key : Key
sales_key = record { series = Series.sales; fiscal_year = 2026 }

abbrev purchase_key : Key
purchase_key = record { series = Series.purchase; fiscal_year = 2026 }

allocate_all-next_numbers_example :
    numbers_for sales_key
      (allocate_all (sales_key ∷ purchase_key ∷ sales_key ∷ []) ((sales_key, 7) ∷ [])).0
    ≡ next_numbers sales_key
        (sales_key ∷ purchase_key ∷ sales_key ∷ [])
        (last_value sales_key ((sales_key, 7) ∷ []))
allocate_all-next_numbers_example =
    allocate_all-next_numbers sales_key (sales_key ∷ purchase_key ∷ sales_key ∷ [])
      ((sales_key, 7) ∷ [])

two_numbers : next_numbers sales_key (sales_key ∷ purchase_key ∷ sales_key ∷ []) 7 ≡ 8 ∷ 9 ∷ []
unfolding Voucher.same_key
two_numbers = refl

abbrev settings : FinanceSettings
settings = record { fiscal_year_start_month = 4; books_begin_from = some 100 }

abbrev sale_date : PostingDate
sale_date = record { time = 150; month = april }

abbrev empty_calendar : FiscalCalendar
empty_calendar = record { periods = []; next_id = 0 }

assert_postable-lets_in_example : (assert_postable settings sale_date false empty_calendar).0 ≡ (
    if not (before_books settings sale_date)
      && lets_in false (
          find_period
            (coordinates_for april 4)
            (ensure_year settings (coordinates_for april 4).fiscal_year empty_calendar))
    then ok (coordinates_for april 4)
    else err bad_request)
assert_postable-lets_in_example = assert_postable-lets_in settings sale_date false empty_calendar

abbrev locked_april : FiscalPeriod
locked_april = record (new_period 0 2026 4 1) { status = PeriodStatus.locked }

abbrev locked_calendar : FiscalCalendar
locked_calendar = record { periods = locked_april ∷ []; next_id = 1 }

locked_calendar-LockedAt : LockedAt (coordinates_for april 4) locked_calendar
unfolding coordinates_for
locked_calendar-LockedAt = record { period = locked_april; found = refl; locked = refl }

assert_postable-LockedAt_example :
    (assert_postable settings sale_date true (ensure_year settings 2026 locked_calendar)).0
    ≡ err bad_request
assert_postable-LockedAt_example =
    assert_postable-LockedAt settings sale_date true locked_calendar
      (ensure_year settings 2026 locked_calendar) locked_calendar-LockedAt
      (FiscalSteps.more locked_calendar (ensure_year settings 2026 locked_calendar)
        (ensure_year settings 2026 locked_calendar) (FiscalStep.year settings 2026 locked_calendar)
        (FiscalSteps.done (ensure_year settings 2026 locked_calendar)))

abbrev receivable : Account
receivable = record { id = 10; code = 1200; normal_balance = NormalBalance.debit }

abbrev revenue : Account
revenue = record { id = 11; code = 4000; normal_balance = NormalBalance.credit }

abbrev rounding : Account
rounding = record { id = 12; code = 6990; normal_balance = NormalBalance.debit }

abbrev chart : List Account
chart = receivable ∷ revenue ∷ rounding ∷ []

abbrev plain : Dimensions
plain = record {
  description = none;
  party_type = none;
  party_id = none;
  supplier_id = none;
  department_id = none;
  reference_type = none;
  reference_id = none;
}

abbrev input_line : ℕ → Option ℤ → Option ℤ → PostingLineInput
input_line code debit credit = record {
  account_code = code;
  debit = debit;
  credit = credit;
  dimensions = plain;
  tax = no_tax;
}

abbrev sale_lines : List PostingLineInput
sale_lines =
    input_line 1200 (some (pos 118000000)) none ∷ input_line 4000 none (some (pos 118000000)) ∷ []

-- A split that lost a paisa.
abbrev uneven_lines : List PostingLineInput
uneven_lines =
    input_line 1200 (some (pos 118010000)) none ∷ input_line 4000 none (some (pos 118000000)) ∷ []

abbrev sale : PostEntryInput
sale = record {
  entry_date = sale_date;
  source_type = SourceType.sales_invoice;
  source_id = some 5;
  source_key = none;
  lines = sale_lines;
  party = record { party_type = none; party_id = none };
  series = none;
  created_by_user_id = none;
  is_system_generated = none;
  allow_closed_period = false;
}

abbrev empty_books : BookStore
empty_books = record { calendar = empty_calendar; sequences = []; journal = []; next_id = 0 }

abbrev sale_books : BookStore
sale_books = (post settings chart sale empty_books).1

abbrev stored_line : ℕ → ℕ → ℤ → ℤ → JournalLine
stored_line n account debit credit = record {
  line_number = n;
  account_id = account;
  debit = debit;
  credit = credit;
  dimensions = plain;
  tax = no_tax;
}

abbrev sale_entry : JournalEntry
sale_entry = record {
  id = 0;
  voucher_number = record { key = sales_key; number = 1 };
  entry_date = sale_date;
  coordinates = record { fiscal_year = 2026; fiscal_period = 1 };
  source_type = SourceType.sales_invoice;
  source_id = some 5;
  source_key = SourceKey.of_document 5;
  status = EntryStatus.posted;
  party = record { party_type = none; party_id = none };
  total_debit = pos 118000000;
  total_credit = pos 118000000;
  reversal_of_id = none;
  is_system_generated = true;
  created_by_user_id = none;
  lines = stored_line 1 10 (pos 118000000) (pos 0) ∷ stored_line 2 11 (pos 0) (pos 118000000) ∷ [];
}

sale_posted :
    post settings chart sale empty_books
    ≡ (ok record { entry = sale_entry; deduplicated = false }, sale_books)
unfolding post prepare assert_postable coordinates_for ensure_year create_missing period_start
    prepare_lines ids_for add_line add_lines absorb_difference post_tx allocate_voucher_number
    Voucher.bump Voucher.same_key is_source ◌+ℤ◌ ◌-ℤ◌ rounded exact column
sale_posted = refl

empty_books-IsBooks : IsBooks empty_books
empty_books-IsBooks = record {
  balanced = tt;
  whole = tt;
  sources = tt;
  vouchers = tt;
  ids = tt;
  given = tt;
  numbered = tt;
}

chart-IsChart : IsChart chart
chart-IsChart = (refl, refl, (refl, refl, (refl, refl, tt)))

sale-IsWhole : All IsWholeInput sale.lines
sale-IsWhole = (((refl, refl), (refl, refl)), (((refl, refl), (refl, refl)), tt))

BookSteps-IsBooks_example : IsBooks sale_books
BookSteps-IsBooks_example =
    BookSteps-IsBooks empty_books sale_books
      (BookSteps.more empty_books sale_books sale_books
        (BookStep.posting settings chart sale empty_books sale-IsWhole) (BookSteps.done sale_books))
      empty_books-IsBooks

abbrev uneven_prepared : Prepared
uneven_prepared = record {
  lines =
      stored_line 1 10 (pos 118010000) (pos 0)
      ∷ stored_line 2 11 (pos 0) (pos 118000000)
      ∷ record (stored_line 3 12 (pos 0) (pos 10000)) { dimensions = rounding_dimensions }
      ∷ [];
  total_debit = pos 118010000;
  total_credit = pos 118010000;
}

uneven_prepares : prepare_lines chart uneven_lines ≡ ok uneven_prepared
unfolding prepare_lines ids_for add_line add_lines absorb_difference ◌+ℤ◌ ◌-ℤ◌
uneven_prepares = refl

prepare_lines-IsTallied_example :
    (2 ≤ length uneven_prepared.lines)
    × IsTallied uneven_prepared
    × (uneven_prepared.total_debit ≡ uneven_prepared.total_credit)
prepare_lines-IsTallied_example =
    prepare_lines-IsTallied chart uneven_lines uneven_prepared uneven_prepares

-- Two debits of half a paisa and a credit of one: each column rounds up.
abbrev half_lines : List PostingLineInput
half_lines =
    input_line 1200 (some (pos 5000)) none
    ∷ input_line 1200 (some (pos 5000)) none
    ∷ input_line 4000 none (some (pos 10000))
    ∷ []

half_stored :
    map
      (λ (e : JournalEntry). map (λ (l : JournalLine). l.debit) e.lines)
      (post settings chart (record sale { lines = half_lines }) empty_books).1.journal
    ≡ (pos 10000 ∷ pos 10000 ∷ pos 0 ∷ []) ∷ []
unfolding post prepare assert_postable coordinates_for ensure_year create_missing period_start
    prepare_lines ids_for add_line add_lines absorb_difference post_tx allocate_voucher_number
    Voucher.bump Voucher.same_key is_source ◌+ℤ◌ ◌-ℤ◌ rounded exact column
half_stored = refl

half_total :
    map
      (λ (e : JournalEntry). e.total_debit)
      (post settings chart (record sale { lines = half_lines }) empty_books).1.journal
    ≡ pos 10000 ∷ []
unfolding post prepare assert_postable coordinates_for ensure_year create_missing period_start
    prepare_lines ids_for add_line add_lines absorb_difference post_tx allocate_voucher_number
    Voucher.bump Voucher.same_key is_source ◌+ℤ◌ ◌-ℤ◌ rounded exact column
half_total = refl

-- The same invoice again, with other lines.
post-post_example :
    IsNoOp sale_entry sale_books
      (post settings chart (record sale { lines = uneven_lines }) sale_books)
post-post_example =
    post-post settings settings chart chart sale (record sale { lines = uneven_lines }) empty_books
      sale_books record { entry = sale_entry; deduplicated = false } sale_posted refl refl

sale_entry-IsBalanced : IsBalanced sale_entry
unfolding ◌+ℤ◌
sale_entry-IsBalanced = (
  omega arith,
  record {
    debits = refl;
    credits = refl;
    one_sided = (inl (omega arith, refl), (inr (refl, omega arith), tt));
    numbered = (refl, (refl, tt));
  },
  refl,
)

abbrev mirrored : List PostingLineInput
mirrored =
    input_line 1200 (some (pos 0)) (some (pos 118000000))
    ∷ input_line 4000 (some (pos 118000000)) (some (pos 0))
    ∷ []

sale_mirrored : mirror_lines chart sale_entry.lines ≡ ok mirrored
unfolding mirror_lines
sale_mirrored = refl

prepare_lines-mirror_lines_example :
    prepare_lines chart mirrored
    ≡ ok record {
      lines = map swap_line sale_entry.lines;
      total_debit = pos 118000000;
      total_credit = pos 118000000;
    }
prepare_lines-mirror_lines_example =
    prepare_lines-mirror_lines chart sale_entry mirrored chart-IsChart sale_entry-IsBalanced
      sale_mirrored

abbrev cancellation : ReverseOptions
cancellation = record { user_id = 1; reversal_date = sale_date; allow_closed_period = false }

abbrev mirror_entry : JournalEntry
mirror_entry = record {
  id = 1;
  voucher_number = record { key = sales_key; number = 2 };
  entry_date = sale_date;
  coordinates = record { fiscal_year = 2026; fiscal_period = 1 };
  source_type = SourceType.sales_invoice;
  source_id = some 5;
  source_key = SourceKey.reversal 0;
  status = EntryStatus.posted;
  party = record { party_type = none; party_id = none };
  total_debit = pos 118000000;
  total_credit = pos 118000000;
  reversal_of_id = none;
  is_system_generated = false;
  created_by_user_id = some 1;
  lines = map swap_line sale_entry.lines;
}

abbrev reversed_books : BookStore
reversed_books = (reverse settings chart 0 cancellation sale_books).1

sale_reversed : reverse settings chart 0 cancellation sale_books ≡ (ok mirror_entry, reversed_books)
unfolding reverse reversal_of link_reversal mirror_lines post prepare assert_postable
    coordinates_for ensure_year create_missing period_start prepare_lines ids_for add_line add_lines
    absorb_difference post_tx allocate_voucher_number Voucher.bump is_source Voucher.same_key ◌+ℤ◌
    ◌-ℤ◌ rounded exact column
sale_reversed = refl

sale_found : find_first (λ (e : JournalEntry). e.id == 0) sale_books.journal ≡ some sale_entry
unfolding post prepare assert_postable coordinates_for ensure_year create_missing period_start
    prepare_lines ids_for add_line add_lines absorb_difference post_tx allocate_voucher_number
    Voucher.bump Voucher.same_key is_source ◌+ℤ◌ ◌-ℤ◌ rounded exact column
sale_found = refl

sale-IsFirstReversal : IsFirstReversal sale_entry sale_books
unfolding post prepare assert_postable coordinates_for ensure_year create_missing period_start
    prepare_lines ids_for add_line add_lines absorb_difference post_tx allocate_voucher_number
    Voucher.bump Voucher.same_key is_source ◌+ℤ◌ ◌-ℤ◌ rounded exact column
sale-IsFirstReversal = refl

sale_books-IsBooks : IsBooks sale_books
sale_books-IsBooks = post-IsBooks settings chart sale empty_books sale-IsWhole empty_books-IsBooks

reverse-IsReversal_example :
    IsReversal sale_entry cancellation sale_books reversed_books mirror_entry
reverse-IsReversal_example =
    reverse-IsReversal settings chart 0 cancellation sale_books reversed_books sale_entry
      mirror_entry sale_books-IsBooks chart-IsChart sale_found sale-IsFirstReversal sale_reversed

abbrev spring : DateRange
spring = record { from = 100; to = 200 }

reverse-Reported_example : Reported spring 10 sale_entry sale_books reversed_books
reverse-Reported_example =
    reverse-Reported spring 10 settings chart 0 cancellation sale_books reversed_books sale_entry
      mirror_entry sale_books-IsBooks chart-IsChart sale_found sale-IsFirstReversal sale_reversed
      refl refl

sale_accounts : All (HasAccount chart) (reported_lines spring (sale_entry ∷ []))
unfolding reported_lines
sale_accounts = (refl, (refl, tt))

build-balanced_example :
    let report = build spring false chart (sale_entry ∷ []) in
    (report.total_debit ≡ sum_debit (reported_lines spring (sale_entry ∷ [])))
    × (report.total_debit ≡ report.total_credit)
    × (report.is_balanced ≡ true)
build-balanced_example =
    build-balanced spring false chart (sale_entry ∷ []) (sale_entry-IsBalanced, tt) chart-IsChart
      sale_accounts

-- After the reversal the receivable stands at minus the invoice, not at 0.
reversed_balance :
    map
      (λ (r : AccountBalanceRow). r.balance)
      (build spring false chart reversed_books.journal).rows
    ≡ negsuc 117999999 ∷ negsuc 117999999 ∷ []
unfolding build reported_lines visible_rows reverse reversal_of link_reversal mirror_lines post
    prepare assert_postable coordinates_for ensure_year create_missing period_start prepare_lines
    ids_for add_line add_lines absorb_difference post_tx allocate_voucher_number Voucher.bump
    is_source Voucher.same_key ◌+ℤ◌ ◌-ℤ◌ rounded exact column
reversed_balance = refl

-- Bills of 100 and 50 rupees and a receipt of 120: the first is paid, 30 of the second are open.
abbrev party_movements : List Movement
party_movements =
    record { date = 1; amount = pos 10000 }
    ∷ record { date = 2; amount = pos 5000 }
    ∷ record { date = 3; amount = negsuc 11999 }
    ∷ []

apply_payments_fifo-oldest_example :
    (oldest 1 (settle (credit party_movements) (charges party_movements))
      ≡ oldest 1 (charges party_movements) - credit party_movements)
    × (total (apply_payments_fifo party_movements)
        ≡ total (charges party_movements) - credit party_movements)
apply_payments_fifo-oldest_example = apply_payments_fifo-oldest party_movements 1

second_open : apply_payments_fifo party_movements ≡ record { date = 2; amount = 3000 } ∷ []
unfolding apply_payments_fifo charges credit settle
second_open = refl

third_bucket : bucket_index_for_days 61 ≡ 2
unfolding bucket_index_for_days bucket_from
third_bucket = refl
