-- ===== src/Accounting/Posting.antt =====
-- services/accounting/posting.service.ts: how a journal entry is made.
pub mod Balance
pub mod Outcome
pub mod Stored
pub mod Books
pub mod Once
use geeta_backend.Common.{
  ℕ, ◌+◌, ◌*◌, map, Bool, true, false, ◌&&◌, ◌||◌, Option, none, some, List, [], ◌∷◌, ◌++◌, length,
  find_first, ltb, if◌then◌else◌,
}
use geeta_backend.Common.Result.{
  Result, err, ok, bad_request, internal, throw_if, or_throw, ◌>>=◌, ◌>>◌,
}
use geeta_backend.Common.Int.{
  ℤ, pos, pos_part, neg_part, fractions, rounded, ◌+ℤ◌, ◌-ℤ◌, ltb_ℤ, eqb_ℤ,
}
use geeta_backend.Ledger.Types.{get_or, or_else}
use geeta_backend.Accounting.Calendar.{FiscalCoordinates}
use geeta_backend.Accounting.Voucher.{Key, Sequences, VoucherNumber, allocate_voucher_number}
use geeta_backend.Accounting.Fiscal.{FinanceSettings, FiscalCalendar, assert_postable}
use geeta_backend.Accounting.Journal
use geeta_backend.Accounting.Journal.{
  SourceKey, Dimensions, TaxColumns, PostingLineInput, PostEntryInput, JournalLine, EntryStatus,
  JournalEntry, Account, default_series, is_source, id_for,
}

-- `d(value)`: a `Decimal` of all digits, nothing is rounded here.
abbrev pub d : Option ℤ → ℤ
d value = get_or value (pos 0)

-- ACCOUNT_CODES.ROUNDING_DIFFERENCE
abbrev pub rounding_difference : ℕ
rounding_difference = 6990

-- `accountResolver.idsFor`, with each line's id beside it.
unfoldable pub ids_for : List Account → List PostingLineInput → Result (List (ℕ × PostingLineInput))
ids_for chart [] = ok []
ids_for chart (line ∷ rest) = or_throw (id_for chart line.account_code) internal >>= λ id.
    ids_for chart rest >>= λ others. ok ((id, line) ∷ others)

-- What `prepare` returns, without the coordinates; its variables in the loop.
pub record Prepared : Type 0 where
  pub lines : List JournalLine
  pub total_debit : ℤ
  pub total_credit : ℤ

abbrev pub no_tax : TaxColumns
no_tax = record { hsn_code = none; tax_rate = none; taxable_value = none }

-- `lines.push({ lineNumber: lines.length + 1, ... })`, with the totals.
abbrev pub push_line : ℕ → ℤ → ℤ → Dimensions → TaxColumns → Prepared → Prepared
push_line account_id debit credit dimensions tax acc = record {
  lines =
      acc.lines
      ++ record {
        line_number = length acc.lines + 1;
        account_id = account_id;
        debit = debit;
        credit = credit;
        dimensions = dimensions;
        tax = tax;
      }
        ∷ [];
  total_debit = acc.total_debit +ℤ debit;
  total_credit = acc.total_credit +ℤ credit;
}

-- The body of the loop of `prepare`.
unfoldable pub add_line : ℕ → PostingLineInput → Prepared → Result Prepared
add_line account_id line acc =
    let debit = d line.debit in
    let credit = d line.credit in
    throw_if (ltb_ℤ debit (pos 0) || ltb_ℤ credit (pos 0)) bad_request
    >> throw_if (ltb_ℤ (pos 0) debit && ltb_ℤ (pos 0) credit) bad_request
    >> ok (
        if eqb_ℤ debit (pos 0) && eqb_ℤ credit (pos 0)
        then acc
        else push_line account_id debit credit line.dimensions line.tax acc)

unfoldable pub add_lines : List (ℕ × PostingLineInput) → Prepared → Result Prepared
add_lines [] acc = ok acc
add_lines ((id, line) ∷ rest) acc = add_line id line acc >>= λ next. add_lines rest next

-- `a.minus(b).abs()`
abbrev pub difference : ℤ → ℤ → ℤ
difference a b = let s = a -ℤ b in pos (pos_part s + neg_part s)

abbrev pub rounding_dimensions : Dimensions
rounding_dimensions = record {
  description = some 0;
  party_type = none;
  party_id = none;
  supplier_id = none;
  department_id = none;
  reference_type = none;
  reference_id = none;
}

-- BALANCE_TOLERANCE: two paise.
abbrev pub balance_tolerance : ℤ
balance_tolerance = pos (2 * fractions)

-- The end of `prepare`: two paise are absorbed by a line on the short side.
unfoldable pub absorb_difference : List Account → Prepared → Result Prepared
absorb_difference chart acc =
    let short = difference acc.total_debit acc.total_credit in
    let short_side = ltb_ℤ acc.total_debit acc.total_credit in
    throw_if (ltb_ℤ balance_tolerance short) internal >> elim (ltb_ℤ (pos 0) short) [
      | false ↦ ok acc
      | true ↦ or_throw (id_for chart rounding_difference) internal >>= λ id. ok (
          push_line id (if short_side then short else pos 0) (if short_side then pos 0 else short)
            rounding_dimensions no_tax acc)
    ]

abbrev pub nothing_prepared : Prepared
nothing_prepared = record { lines = []; total_debit = pos 0; total_credit = pos 0 }

-- `prepare` after `assertPostable`.
unfoldable pub prepare_lines : List Account → List PostingLineInput → Result Prepared
prepare_lines chart lines = ids_for chart lines >>= λ resolved.
    add_lines resolved nothing_prepared >>= λ acc.
    throw_if (ltb (length acc.lines) 2) bad_request >> absorb_difference chart acc

-- `prepare`, with the fiscal calendar that `assertPostable` leaves.
unfoldable pub prepare :
    FinanceSettings
    → List Account
    → PostEntryInput
    → FiscalCalendar
    → Result (FiscalCoordinates × Prepared) × FiscalCalendar
prepare settings chart input cal =
    let postable = assert_postable settings input.entry_date input.allow_closed_period cal in
    if ltb (length input.lines) 2 then (err bad_request, cal) else (
      postable.0 >>= λ coords. prepare_lines chart input.lines >>= λ p. ok (coords, p),
      postable.1,
    )

-- The tables that a posting writes, and the number of the next entry's id.
pub record BookStore : Type 0 where
  pub calendar : FiscalCalendar
  pub sequences : Sequences
  pub journal : List JournalEntry
  pub next_id : ℕ

abbrev pub with_calendar : FiscalCalendar → BookStore → BookStore
with_calendar cal s = record {
  calendar = cal;
  sequences = s.sequences;
  journal = s.journal;
  next_id = s.next_id;
}

-- interface PostResult
pub record PostResult : Type 0 where
  pub entry : JournalEntry
  pub deduplicated : Bool

-- `sourceKey ?? sourceId`
abbrev pub key_of : PostEntryInput → Option SourceKey
key_of input =
    or_else input.source_key
      (elim input.source_id [ none ↦ none | some id ↦ some (SourceKey.of_document id) ])

-- The columns Decimal(14, 2) of a line round its sides; its tax columns are passed on.
abbrev pub stored_line : JournalLine → JournalLine
stored_line l = record {
  line_number = l.line_number;
  account_id = l.account_id;
  debit = rounded l.debit;
  credit = rounded l.credit;
  dimensions = l.dimensions;
  tax = l.tax;
}

-- The row that `post` creates, as it is read back.
abbrev pub new_entry :
    ℕ → VoucherNumber → FiscalCoordinates → SourceKey → PostEntryInput → Prepared → JournalEntry
new_entry id voucher coords key input p = record {
  id = id;
  voucher_number = voucher;
  entry_date = input.entry_date;
  coordinates = coords;
  source_type = input.source_type;
  source_id = input.source_id;
  source_key = key;
  status = EntryStatus.posted;
  party = input.party;
  total_debit = rounded p.total_debit;
  total_credit = rounded p.total_credit;
  reversal_of_id = none;
  is_system_generated = get_or input.is_system_generated true;
  created_by_user_id = input.created_by_user_id;
  lines = map stored_line p.lines;
}

-- `run` of `post`: the transaction.
unfoldable pub post_tx :
    SourceKey → PostEntryInput → FiscalCoordinates → Prepared → BookStore → PostResult × BookStore
post_tx key input coords p s = elim (find_first (is_source input.source_type key) s.journal) [
  | some existing ↦ (record { entry = existing; deduplicated = true }, s)
  | none ↦
      let series = get_or input.series (default_series input.source_type) in
      let (voucher, sequences) =
        allocate_voucher_number record { series = series; fiscal_year = coords.fiscal_year }
          s.sequences in
      let entry = new_entry s.next_id voucher coords key input p in
      (
        record { entry = entry; deduplicated = false },
        record {
          calendar = s.calendar;
          sequences = sequences;
          journal = s.journal ++ entry ∷ [];
          next_id = s.next_id + 1;
        },
      )
]

-- `post`, one call after another: the race in which the database refuses the second row ends in
-- the first branch of `post_tx`.
unfoldable pub post :
    FinanceSettings → List Account → PostEntryInput → BookStore → Result PostResult × BookStore
post settings chart input s = elim (key_of input) [
  | none ↦ (err internal, s)
  | some key ↦
      let prepared = prepare settings chart input s.calendar in
      let s' = with_calendar prepared.1 s in
      elim prepared.0 [
        | err e ↦ (err e, s')
        | ok (coords, p) ↦ let done = post_tx key input coords p s' in (ok done.0, done.1)
      ]
]
