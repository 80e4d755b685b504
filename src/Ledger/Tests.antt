-- ===== src/Ledger/Tests.antt =====
-- Runs of the ledger on one wallet and one credit account, and its theorems at them.
use geeta_backend.Common.{false, none, some, [], ◌∷◌, ◌≡◌, ◌↔◌, refl, arith, All}
use geeta_backend.Common.Result.{ok, err, unique_violation}
use geeta_backend.Common.Int.{pos, ◌+ℤ◌, ◌-ℤ◌, ◌≤ℤ◌, ◌<ℤ◌, exact, column}
use geeta_backend.Ledger.Types.{
  WalletTransactionType, ActorType, EventType, ReferenceType, Direction, Instrument, record_event,
}
use geeta_backend.Ledger.Wallet.{
  Wallet, WalletTransaction, LedgerInput, NewIds, credit_wallet, debit_wallet, lock_wallet,
  write_movement, insert_transaction, reference_of,
}
use geeta_backend.Ledger.Wallet
use geeta_backend.Ledger.Wallet.Rows.{balance_of}
use geeta_backend.Ledger.Wallet.Reconciled.{
  IsReconciled, MovesBy, credit_wallet-IsReconciled, debit_wallet-IsReconciled,
}
use geeta_backend.Ledger.Wallet.Outcome.{
  reference_taken, debit_wallet-returns_iff, credit_wallet-once,
}
use geeta_backend.Ledger.Credit
use geeta_backend.Ledger.Credit.{
  CreditAccount, MovementInput, draw_on_credit, record_repayment, find_account, available_credit,
}
use geeta_backend.Ledger.Credit.Limits.{
  WithinLimit, draw_on_credit-WithinLimit, draw_on_credit-returns_iff,
}

abbrev no_wallets : Wallet.Store
no_wallets = record {
  wallets = [];
  transactions = [];
  snapshots = [];
  audit_logs = [];
  financial_events = [];
}

abbrev ids : NewIds
ids = record { wallet_id = 1; transaction_id = 2; generated_reference = 100 }

abbrev later_ids : NewIds
later_ids = record { wallet_id = 3; transaction_id = 4; generated_reference = 101 }

-- 500.00 of the user 7, for the payment 9.
abbrev top_up : LedgerInput
top_up = record {
  user_id = 7;
  amount = pos 500000000;
  type = WalletTransactionType.recharge;
  payment_id = some 9;
  order_id = none;
  production_order_id = none;
  created_by_id = none;
  reference_number = none;
  audit_action = none;
  audit_actor_id = none;
  financial_event = record {
    event_type = EventType.wallet_topup;
    reference_type = ReferenceType.topup;
    reference_id = none;
    created_by_user_id = none;
  };
}

-- 200.00 and 0.3 of a paisa.
abbrev payment : LedgerInput
payment = record top_up {
  amount = pos 200003000;
  type = WalletTransactionType.order_payment;
  payment_id = none;
}

topped_up : (r : Wallet.Movement × Wallet.Store) × (credit_wallet 5 ids top_up no_wallets ≡ ok r)
unfolding credit_wallet write_movement insert_transaction lock_wallet
topped_up = (_, refl)

nothing-IsReconciled : IsReconciled no_wallets
nothing-IsReconciled = record {
  unique = tt;
  nonneg = tt;
  events = λ _. refl;
  transactions = λ _. refl;
}

credit_wallet-IsReconciled_example :
    IsReconciled topped_up.0.1 × MovesBy 7 (column top_up.amount) [] topped_up.0.1.wallets
credit_wallet-IsReconciled_example =
    credit_wallet-IsReconciled 5 ids top_up no_wallets nothing-IsReconciled refl topped_up.1

credit_wallet-once_example : credit_wallet 6 later_ids top_up topped_up.0.1 ≡ err unique_violation
credit_wallet-once_example =
    credit_wallet-once 5 6 ids later_ids top_up top_up no_wallets 9 refl refl (omega arith)
      topped_up.1

-- The store that the top-up leaves.
abbrev funded : Wallet.Store
funded = record {
  wallets =
      record {
        id = 1;
        user_id = 7;
        current_balance = pos 50000;
        total_added = pos 50000;
        total_spent = pos 0;
        total_refunds = pos 0;
        last_recharge_at = some 5;
      }
      ∷ [];
  transactions =
      record {
        id = 2;
        wallet_id = 1;
        user_id = 7;
        order_id = none;
        production_order_id = none;
        payment_id = some 9;
        type = WalletTransactionType.recharge;
        amount = pos 50000;
        balance_before = pos 0;
        balance_after = pos 50000;
        reference_number = 100;
        created_by_id = none;
      }
      ∷ [];
  snapshots =
      record {
        wallet_id = 1;
        balance = pos 50000;
        direction = Direction.credit;
        type = WalletTransactionType.recharge;
      }
      ∷ [];
  audit_logs = [];
  financial_events =
      record {
        actor_type = ActorType.vendor;
        actor_id = 7;
        event_type = EventType.wallet_topup;
        amount = pos 50000;
        direction = Direction.credit;
        instrument = Instrument.wallet;
        reference_type = ReferenceType.topup;
        reference_id = 2;
        created_by_user_id = none;
      }
      ∷ [];
}

-- The run computes to it.
topped_up_store : topped_up.0.1 ≡ funded
unfolding topped_up credit_wallet write_movement insert_transaction lock_wallet record_event ◌+ℤ◌
    exact column
topped_up_store = refl

funded-IsReconciled : IsReconciled funded
unfolding ◌+ℤ◌ ◌-ℤ◌
funded-IsReconciled = record {
  unique = (refl, tt);
  nonneg = (omega arith, tt);
  events = λ v. ground arith;
  transactions = λ v. ground arith;
}

held : payment.amount ≤ℤ exact (balance_of 7 funded.wallets)
unfolding exact
held = omega arith

paid : (r : Wallet.Movement × Wallet.Store) × (debit_wallet later_ids payment funded ≡ ok r)
paid = (debit_wallet-returns_iff later_ids payment funded).1 (omega arith, held, refl)

debit_wallet-returns_iff_example :
    ((r : Wallet.Movement × Wallet.Store) × (debit_wallet later_ids payment funded ≡ ok r)) ↔ (
      (pos 0 <ℤ payment.amount)
      × (payment.amount ≤ℤ exact (balance_of 7 funded.wallets))
      × (reference_taken (reference_of later_ids payment) funded.transactions ≡ false))
debit_wallet-returns_iff_example = debit_wallet-returns_iff later_ids payment funded

debit_wallet-IsReconciled_example :
    IsReconciled paid.0.1
    × MovesBy 7 (pos 0 -ℤ column payment.amount) funded.wallets paid.0.1.wallets
    × (payment.amount ≤ℤ exact (balance_of 7 funded.wallets))
    × (column payment.amount ≤ℤ balance_of 7 funded.wallets)
debit_wallet-IsReconciled_example =
    debit_wallet-IsReconciled later_ids payment funded funded-IsReconciled refl refl paid.1

-- 10.005: the balance goes down by 1000 paise, the transaction says 1001.
abbrev half_payment : LedgerInput
half_payment = record payment { amount = pos 10005000 }

half_paid :
    (r : Wallet.Movement × Wallet.Store) × (debit_wallet later_ids half_payment funded ≡ ok r)
unfolding debit_wallet write_movement insert_transaction lock_wallet exact
half_paid = (_, refl)

half_balance : half_paid.0.0.wallet.current_balance ≡ pos 49000
unfolding half_paid debit_wallet write_movement insert_transaction lock_wallet ◌-ℤ◌ exact column
half_balance = refl

half_transaction : half_paid.0.0.transaction.amount ≡ pos 1001
unfolding half_paid debit_wallet write_movement insert_transaction lock_wallet column
half_transaction = refl

abbrev account : CreditAccount
account = record {
  id = 1;
  actor_type = ActorType.vendor;
  actor_id = 7;
  credit_limit = pos 50000;
  outstanding_balance = pos 10000;
}

abbrev credit_store : Credit.Store
credit_store = record { accounts = account ∷ []; transactions = []; financial_events = [] }

abbrev draw : MovementInput
draw = record {
  actor_type = ActorType.vendor;
  actor_id = 7;
  amount = pos 30000;
  reference_type = none;
  reference_id = none;
  recorded_by_user_id = 3;
}

account-WithinLimit : All WithinLimit credit_store.accounts
account-WithinLimit = ((omega arith, omega arith), tt)

drawn : (r : Credit.Movement × Credit.Store) × (draw_on_credit 4 draw credit_store ≡ ok r)
unfolding draw_on_credit ◌+ℤ◌
drawn = (_, refl)

repaid : (r : Credit.Movement × Credit.Store) × (record_repayment 4 draw credit_store ≡ ok r)
unfolding record_repayment
repaid = (_, refl)

draw_on_credit-returns_iff_example :
    ((r : Credit.Movement × Credit.Store) × (draw_on_credit 4 draw credit_store ≡ ok r)) ↔ (
      (a : CreditAccount) × (some account ≡ some a)
      × (pos 0 <ℤ pos 30000)
      × (pos 30000 ≤ℤ available_credit a))
draw_on_credit-returns_iff_example = draw_on_credit-returns_iff 4 draw credit_store

draw_on_credit-WithinLimit_example :
    All WithinLimit drawn.0.1.accounts
    × ((a : CreditAccount) × (some account ≡ some a)
        × (pos 0 <ℤ pos 30000)
        × (pos 30000 ≤ℤ available_credit a)
        × (drawn.0.0.account.outstanding_balance ≡ a.outstanding_balance +ℤ pos 30000))
draw_on_credit-WithinLimit_example =
    draw_on_credit-WithinLimit 4 draw credit_store (refl, tt) account-WithinLimit drawn.1
