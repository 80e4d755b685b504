-- ===== src/Accounting/Journal.antt =====
-- JournalEntry, JournalLine and ChartOfAccount of prisma/schema.prisma, the inputs of
-- posting.service.ts, and its account resolver. Amounts are counted in
-- fractions of a paisa; texts are named by numbers.
-- A narration, a party's name and an entry's metadata are not modelled.
use geeta_backend.Common.{
  ℕ, Bool, Option, none, some, List, [], ◌∷◌, ◌==◌, ◌&&◌, false, if◌then◌else◌,
}
use geeta_backend.Common.Int.{ℤ}
use geeta_backend.Accounting.Calendar.{FiscalCoordinates}
use geeta_backend.Accounting.Fiscal.{PostingDate}
use geeta_backend.Accounting.Voucher.{Series, VoucherNumber}

-- enum JournalSourceType
pub data SourceType : Type 0 where
  opening_balance wallet_topup wallet_adjustment order_advance udhar_draw udhar_repayment
        counter_receipt sales_invoice advance_application credit_note refund_payout expense
        purchase_bill supplier_payment bank_transaction gateway_settlement manual_journal
        depreciation period_close :
      SourceType

abbrev pub source_code : SourceType → ℕ
source_code SourceType.opening_balance = 0
source_code SourceType.wallet_topup = 1
source_code SourceType.wallet_adjustment = 2
source_code SourceType.order_advance = 3
source_code SourceType.udhar_draw = 4
source_code SourceType.udhar_repayment = 5
source_code SourceType.counter_receipt = 6
source_code SourceType.sales_invoice = 7
source_code SourceType.advance_application = 8
source_code SourceType.credit_note = 9
source_code SourceType.refund_payout = 10
source_code SourceType.expense = 11
source_code SourceType.purchase_bill = 12
source_code SourceType.supplier_payment = 13
source_code SourceType.bank_transaction = 14
source_code SourceType.gateway_settlement = 15
source_code SourceType.manual_journal = 16
source_code SourceType.depreciation = 17
source_code SourceType.period_close = 18

-- DEFAULT_SERIES
abbrev pub default_series : SourceType → Series
default_series SourceType.opening_balance = Series.journal
default_series SourceType.wallet_topup = Series.receipt
default_series SourceType.wallet_adjustment = Series.journal
default_series SourceType.order_advance = Series.journal
default_series SourceType.udhar_draw = Series.journal
default_series SourceType.udhar_repayment = Series.receipt
default_series SourceType.counter_receipt = Series.receipt
default_series SourceType.sales_invoice = Series.sales
default_series SourceType.advance_application = Series.journal
default_series SourceType.credit_note = Series.credit_note
default_series SourceType.refund_payout = Series.payment
default_series SourceType.expense = Series.expense
default_series SourceType.purchase_bill = Series.purchase
default_series SourceType.supplier_payment = Series.payment
default_series SourceType.bank_transaction = Series.contra
default_series SourceType.gateway_settlement = Series.contra
default_series SourceType.manual_journal = Series.journal
default_series SourceType.depreciation = Series.journal
default_series SourceType.period_close = Series.journal

-- A source key: a caller's text, or the text `reversal:id` that `reverse` makes.
pub data SourceKey : Type 0 where
  of_document : ℕ → SourceKey
  reversal : ℕ → SourceKey

abbrev pub same_source_key : SourceKey → SourceKey → Bool
same_source_key (SourceKey.of_document a) (SourceKey.of_document b) = a == b
same_source_key (SourceKey.reversal a) (SourceKey.reversal b) = a == b
same_source_key _ _ = false

-- The columns of a line that only pass through.
pub record Dimensions : Type 0 where
  pub description : Option ℕ
  pub party_type : Option ℕ
  pub party_id : Option ℕ
  pub supplier_id : Option ℕ
  pub department_id : Option ℕ
  pub reference_type : Option ℕ
  pub reference_id : Option ℕ

pub record TaxColumns : Type 0 where
  pub hsn_code : Option ℕ
  pub tax_rate : Option ℤ
  pub taxable_value : Option ℤ

-- interface PostingLineInput
pub record PostingLineInput : Type 0 where
  pub account_code : ℕ
  pub debit : Option ℤ
  pub credit : Option ℤ
  pub dimensions : Dimensions
  pub tax : TaxColumns

-- The party of an entry.
pub record Party : Type 0 where
  pub party_type : Option ℕ
  pub party_id : Option ℕ

-- interface PostEntryInput
pub record PostEntryInput : Type 0 where
  pub entry_date : PostingDate
  pub source_type : SourceType
  pub source_id : Option ℕ
  pub source_key : Option SourceKey
  pub lines : List PostingLineInput
  pub party : Party
  pub series : Option Series
  pub created_by_user_id : Option ℕ
  pub is_system_generated : Option Bool
  pub allow_closed_period : Bool

pub record JournalLine : Type 0 where
  pub line_number : ℕ
  pub account_id : ℕ
  pub debit : ℤ
  pub credit : ℤ
  pub dimensions : Dimensions
  pub tax : TaxColumns

-- enum JournalEntryStatus
pub data EntryStatus : Type 0 where
  draft posted reversed : EntryStatus

pub record JournalEntry : Type 0 where
  pub id : ℕ
  pub voucher_number : VoucherNumber
  pub entry_date : PostingDate
  pub coordinates : FiscalCoordinates
  pub source_type : SourceType
  pub source_id : Option ℕ
  pub source_key : SourceKey
  pub status : EntryStatus
  pub party : Party
  pub total_debit : ℤ
  pub total_credit : ℤ
  pub reversal_of_id : Option ℕ
  pub is_system_generated : Bool
  pub created_by_user_id : Option ℕ
  pub lines : List JournalLine

-- The unique index on (sourceType, sourceKey).
unfoldable pub is_source : SourceType → SourceKey → JournalEntry → Bool
is_source type key e =
    source_code e.source_type == source_code type && same_source_key e.source_key key

-- enum NormalBalance
pub data NormalBalance : Type 0 where
  debit credit : NormalBalance

-- A row of ChartOfAccount; what only labels it is left out.
pub record Account : Type 0 where
  pub id : ℕ
  pub code : ℕ
  pub normal_balance : NormalBalance

-- `accountResolver.idFor`, without its cache; the chart is not empty.
abbrev pub id_for : List Account → ℕ → Option ℕ
id_for [] code = none
id_for (a ∷ chart) code = if a.code == code then some a.id else id_for chart code
