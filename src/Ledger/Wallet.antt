-- ===== src/Ledger/Wallet.antt =====
-- services/ledger/wallet-ledger.service.ts: the wallets. The columns are
-- integers of paise (Decimal(14, 2)); the amount of an input is counted in fractions of a paisa, and
-- each column rounds what is written to it. The row lock makes the transactions on a wallet sequential, so each
-- is a function of the store; an error leaves the store as it was.
pub mod Rows
pub mod Reconciled
pub mod Outcome
use geeta_backend.Common.{
  ℕ, Bool, true, false, not, Option, none, some, List, [], ◌∷◌, ◌++◌, map, any, find_first, ◌==◌,
  if◌then◌else◌,
}
use geeta_backend.Common.Result.{
  Result, ok, bad_request, internal, unique_violation, throw_if, or_throw, ◌>>=◌, ◌>>◌,
}
use geeta_backend.Common.Int.{ℤ, pos, ◌+ℤ◌, ◌-ℤ◌, ltb_ℤ, leb_ℤ, exact, column}
use geeta_backend.Ledger.Types
use geeta_backend.Ledger.Types.{
  WalletTransactionType, ActorType, Direction, Instrument, EventType, ReferenceType, FinancialEvent,
  or_else, get_or, record_event,
}

pub record Wallet : Type 0 where
  pub id : ℕ
  pub user_id : ℕ
  pub current_balance : ℤ
  pub total_added : ℤ
  pub total_spent : ℤ
  pub total_refunds : ℤ
  pub last_recharge_at : Option ℕ

-- A row of WalletTransaction; its status is always COMPLETED.
pub record WalletTransaction : Type 0 where
  pub id : ℕ
  pub wallet_id : ℕ
  pub user_id : ℕ
  pub order_id : Option ℕ
  pub production_order_id : Option ℕ
  pub payment_id : Option ℕ
  pub type : WalletTransactionType
  pub amount : ℤ
  pub balance_before : ℤ
  pub balance_after : ℤ
  pub reference_number : ℕ
  pub created_by_id : Option ℕ

-- A row of WalletBalanceSnapshot, with its reason `CREDIT:type` or `DEBIT:type`.
pub record BalanceSnapshot : Type 0 where
  pub wallet_id : ℕ
  pub balance : ℤ
  pub direction : Direction
  pub type : WalletTransactionType

-- A row of FinancialAuditLog; an action of enum FinancialAuditAction is a number.
pub record AuditLog : Type 0 where
  pub action : ℕ
  pub target_user_id : ℕ
  pub actor_id : Option ℕ
  pub wallet_id : ℕ
  pub payment_id : Option ℕ
  pub transaction_id : ℕ
  pub amount : ℤ
  pub balance_before : ℤ
  pub balance_after : ℤ

pub record Store : Type 0 where
  pub wallets : List Wallet
  pub transactions : List WalletTransaction
  pub snapshots : List BalanceSnapshot
  pub audit_logs : List AuditLog
  pub financial_events : List FinancialEvent

-- interface WalletFinancialEventInput
pub record EventInput : Type 0 where
  pub event_type : EventType
  pub reference_type : ReferenceType
  pub reference_id : Option ℕ
  pub created_by_user_id : Option ℕ

-- interfaces LedgerCreditInput and LedgerDebitInput; a debit has no payment id
pub record LedgerInput : Type 0 where
  pub user_id : ℕ
  pub amount : ℤ
  pub type : WalletTransactionType
  pub payment_id : Option ℕ
  pub order_id : Option ℕ
  pub production_order_id : Option ℕ
  pub created_by_id : Option ℕ
  pub reference_number : Option ℕ
  pub audit_action : Option ℕ
  pub audit_actor_id : Option ℕ
  pub financial_event : EventInput

-- The ids that the database gives the new rows, and what `generateReference` makes.
pub record NewIds : Type 0 where
  pub wallet_id : ℕ
  pub transaction_id : ℕ
  pub generated_reference : ℕ

abbrev pub find_wallet : ℕ → List Wallet → Option Wallet
find_wallet user = find_first (λ (w : Wallet). w.user_id == user)

abbrev pub empty_wallet : ℕ → ℕ → Wallet
empty_wallet id user = record {
  id = id;
  user_id = user;
  current_balance = pos 0;
  total_added = pos 0;
  total_spent = pos 0;
  total_refunds = pos 0;
  last_recharge_at = none;
}

-- `ensureWallet`: the wallet's row, and the table with it.
abbrev pub ensured : ℕ → ℕ → List Wallet → Option Wallet → Wallet × List Wallet
ensured id user wallets none = (empty_wallet id user, wallets ++ empty_wallet id user ∷ [])
ensured id user wallets (some w) = (w, wallets)

-- `lockWallet`: the SELECT ... FOR UPDATE reads back the row that `ensureWallet` left, so its
-- "Wallet lock failed" is never thrown.
unfoldable pub lock_wallet : ℕ → ℕ → List Wallet → Wallet × List Wallet
lock_wallet id user wallets = ensured id user wallets (find_wallet user wallets)

abbrev pub update_wallet : ℕ → (Wallet → Wallet) → List Wallet → List Wallet
update_wallet i f = map (λ (w : Wallet). if w.id == i then f w else w)

abbrev pub is_recharge : WalletTransactionType → Bool
is_recharge WalletTransactionType.recharge = true
is_recharge WalletTransactionType.credit = true
is_recharge WalletTransactionType.admin_credit = true
is_recharge WalletTransactionType.promotional = true
is_recharge _ = false

abbrev pub is_refund : WalletTransactionType → Bool
is_refund WalletTransactionType.refund = true
is_refund _ = false

abbrev pub is_order : WalletTransactionType → Bool
is_order WalletTransactionType.order_payment = true
is_order WalletTransactionType.debit = true
is_order _ = false

-- The row that `creditWallet` writes, from the row `w` that it locked.
abbrev pub credited : ℕ → LedgerInput → Wallet → Wallet
credited now input w = record w {
  current_balance = column (exact w.current_balance +ℤ input.amount);
  total_added =
      if is_recharge input.type
      then column (exact w.total_added +ℤ input.amount)
      else w.total_added;
  last_recharge_at = if is_recharge input.type then some now else w.last_recharge_at;
  total_refunds =
      if is_refund input.type
      then column (exact w.total_refunds +ℤ input.amount)
      else w.total_refunds;
}

-- The row that `debitWallet` writes.
abbrev pub debited : LedgerInput → Wallet → Wallet
debited input w = record w {
  current_balance = column (exact w.current_balance -ℤ input.amount);
  total_spent =
      if is_order input.type then column (exact w.total_spent +ℤ input.amount) else w.total_spent;
}

abbrev pub same_payment : Option ℕ → Option ℕ → Bool
same_payment (some p) (some q) = p == q
same_payment _ _ = false

-- The columns `payment_id` and `reference_number` are unique; no row is refused for having no payment.
unfoldable pub insert_transaction :
    WalletTransaction → List WalletTransaction → Result (List WalletTransaction)
insert_transaction row rows = do
  throw_if (any (λ (t : WalletTransaction). same_payment t.payment_id row.payment_id) rows)
      unique_violation
  throw_if (any (λ (t : WalletTransaction). t.reference_number == row.reference_number) rows)
      unique_violation
  ok (rows ++ row ∷ [])

-- `input.referenceNumber ?? generateReference('TXN')`
abbrev pub reference_of : NewIds → LedgerInput → ℕ
reference_of ids input = get_or input.reference_number ids.generated_reference

abbrev pub transaction_of : NewIds → LedgerInput → Option ℕ → Wallet → ℤ → WalletTransaction
transaction_of ids input payment w after = record {
  id = ids.transaction_id;
  wallet_id = w.id;
  user_id = input.user_id;
  order_id = input.order_id;
  production_order_id = input.production_order_id;
  payment_id = payment;
  type = input.type;
  amount = column input.amount;
  balance_before = w.current_balance;
  balance_after = after;
  reference_number = reference_of ids input;
  created_by_id = input.created_by_id;
}

abbrev pub audit_of : WalletTransaction → LedgerInput → Option ℕ → List AuditLog
audit_of t input none = []
audit_of t input (some action) =
    record {
      action = action;
      target_user_id = input.user_id;
      actor_id = input.audit_actor_id;
      wallet_id = t.wallet_id;
      payment_id = t.payment_id;
      transaction_id = t.id;
      amount = t.amount;
      balance_before = t.balance_before;
      balance_after = t.balance_after;
    }
    ∷ []

abbrev pub event_of : WalletTransaction → LedgerInput → Direction → FinancialEvent
event_of t input direction = record {
  actor_type = ActorType.vendor;
  actor_id = input.user_id;
  event_type = input.financial_event.event_type;
  amount = column input.amount;
  direction = direction;
  instrument = Instrument.wallet;
  reference_type = input.financial_event.reference_type;
  reference_id = get_or input.financial_event.reference_id t.id;
  created_by_user_id =
      or_else input.financial_event.created_by_user_id
        (or_else input.created_by_id input.audit_actor_id);
}

pub record Movement : Type 0 where
  pub wallet : Wallet
  pub transaction : WalletTransaction

-- What both operations write after their guards: the wallet's new row `after`, the transaction,
-- the snapshot, the audit row if one is asked for, and the financial event.
unfoldable pub write_movement :
    NewIds
    → LedgerInput
    → Option ℕ
    → Direction
    → Wallet
    → List Wallet
    → Wallet
    → Store
    → Result (Movement × Store)
unfolding record_event
write_movement ids input payment direction w wallets after s = do
  let t = transaction_of ids input payment w after.current_balance
  transactions ← insert_transaction t s.transactions
  ok (
    record { wallet = after; transaction = t },
    record {
      wallets = update_wallet w.id (λ _. after) wallets;
      transactions = transactions;
      snapshots =
          s.snapshots
          ++ record {
            wallet_id = w.id;
            balance = after.current_balance;
            direction = direction;
            type = input.type;
          }
            ∷ [];
      audit_logs = s.audit_logs ++ audit_of t input input.audit_action;
      financial_events = record_event (event_of t input direction) s.financial_events;
    },
  )

unfoldable pub credit_wallet : ℕ → NewIds → LedgerInput → Store → Result (Movement × Store)
credit_wallet now ids input s = do
  throw_if (leb_ℤ input.amount (pos 0)) bad_request
  let locked = lock_wallet ids.wallet_id input.user_id s.wallets
  write_movement ids input input.payment_id Direction.credit locked.0 locked.1
      (credited now input locked.0) s

unfoldable pub debit_wallet : NewIds → LedgerInput → Store → Result (Movement × Store)
debit_wallet ids input s = do
  throw_if (leb_ℤ input.amount (pos 0)) bad_request
  let locked = lock_wallet ids.wallet_id input.user_id s.wallets
  throw_if (ltb_ℤ (exact locked.0.current_balance) input.amount) bad_request
  write_movement ids input none Direction.debit locked.0 locked.1 (debited input locked.0) s
